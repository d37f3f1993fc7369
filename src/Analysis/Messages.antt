-- ===== src/Analysis/Messages.antt =====
-- When the three messages of a session are found, absent or cut short.
use Prim.Native.String.{String}
use cipher_post.Prelude.{
  ℕ, ◌≡◌, refl, ◌≢◌, ◌⊎◌, inl, inr, Bool, true, false, Option, none, some, List, [], ◌∷◌, arith,
  ltb, Option-cases, length, take, drop,
}
use cipher_post.Prelude.Bytes.{Bytes}
use cipher_post.Prelude.Classes.{nat_eq, string_eq}
use cipher_post.Prelude.Dict.{get}
use cipher_post.Records.{TlsRecord, parse_loop, parse_tls_records}
use cipher_post.Prelude.Cursor.{big}
use cipher_post.Handshake.Parsed.{Parsed, parsed, raised, index_error}
use cipher_post.Handshake.Messages.{handshake_body, handshake_body_from}
use cipher_post.Handshake.ClientHello.{slice}
use cipher_post.Handshake.ServerHello.{
  ServerHelloInfo, parse_server_hello, server_hello_session, with_random, empty_server_hello,
}
use cipher_post.Handshake.Certificate.{parse_certificate_message, certificates}
use cipher_post.Analysis.{records_of, message}

Parsed-cases :
    {A : Type 0}
    → (p : Parsed A)
    → ((a : A) × (p ≡ parsed a)) ⊎ ((e : String) × (p ≡ raised e)) ⊎ (p ≡ index_error)
Parsed-cases (parsed a) = inl (a, refl)
Parsed-cases (raised e) = inr (inl (e, refl))
Parsed-cases index_error = inr (inr refl)

pub server_hello-ne-index_error :
    (decode : Bytes → Bytes) (buf : Bytes) → parse_server_hello decode buf ≢ index_error
unfolding parse_server_hello
server_hello-ne-index_error decode buf h =
    let info : ServerHelloInfo = record (empty_server_hello buf) {
      legacy_version = some (big (take 2 buf));
    } in
    ground (arith, session (with_random (slice 2 32 buf) info) (drop 34 buf))
  where
    session :
        (info : ServerHelloInfo) (bs : Bytes) → server_hello_session decode info bs ≢ index_error
    session info [] h = cc
    session info (n ∷ bs) h = ground arith

certificates-ne-index_error : (tls13 : Bool) (cs : List Bytes) → certificates tls13 cs ≢ index_error
unfolding certificates
certificates-ne-index_error tls13 [] h = cc
certificates-ne-index_error tls13 (c ∷ cs) h = cc

pub certificate-ne-index_error :
    (tls13 : Bool) (buf : Bytes) → parse_certificate_message buf tls13 ≢ index_error
unfolding parse_certificate_message
certificate-ne-index_error true buf h = ground (arith, certificates-ne-index_error true)
certificate-ne-index_error false buf h = ground (arith, certificates-ne-index_error false)

-- A message is parsed or absent, unless its parser reads past the end.
pub message_cases :
    {A : Type 0} (mtype : ℕ) (parse : Bytes → Parsed A) (rs : List TlsRecord)
    → ((o : Option A) × (message mtype parse rs ≡ parsed o))
      ⊎ ((body : Bytes) × (get mtype (handshake_body rs) ≡ some body)
          × (parse body ≡ index_error)
          × (message mtype parse rs ≡ index_error))
unfolding message
message_cases mtype parse rs = elim (Option-cases (get mtype (handshake_body rs))) [
  | inl e ↦ inl (none, rw (e, message))
  | inr (body, e) ↦ elim (Parsed-cases (parse body)) [
    | inl (a, p) ↦ inl (some a, rw (e, p, message))
    | inr (inl (x, p)) ↦ inl (none, rw (e, p, message))
    | inr (inr p) ↦ inr (body, e, p, rw (e, p, message))
  ]
]

pub message_parsed :
    {A : Type 0} (mtype : ℕ) (parse : Bytes → Parsed A) (rs : List TlsRecord)
    → ((body : Bytes) → parse body ≢ index_error)
    → (o : Option A) × (message mtype parse rs ≡ parsed o)
message_parsed mtype parse rs h = elim (message_cases mtype parse rs) [
  | inl found ↦ found
  | inr (body, e, p, q) ↦ absurd (h body p)
]

pub message_failed :
    {A : Type 0} (mtype : ℕ) (parse : Bytes → Parsed A) (rs : List TlsRecord) (body : Bytes)
    → get mtype (handshake_body rs) ≡ some body
    → parse body ≡ index_error
    → message mtype parse rs ≡ index_error
unfolding message
message_failed mtype parse rs body e p = rw (e, p, message)

pub no_records :
    (bs : Bytes) → ltb 0 (length bs) ≡ false → get 1 (handshake_body (records_of bs)) ≡ none
unfolding records_of parse_tls_records parse_loop handshake_body get handshake_body_from
no_records [] h = refl
no_records (b ∷ bs) h = ground arith
