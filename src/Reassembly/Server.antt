-- ===== src/Reassembly/Server.antt =====
-- The server's side of the split, and the offset of TLS that was not announced.
use mathlib.Core.Path.{subst}
use cipher_post.Prelude.{
  ℕ, suc, ◌/◌, ◌%◌, ◌<◌, ◌≡◌, refl, ◌∙◌, ◌⊎◌, inl, inr, none, some, List, [], ◌∷◌, ◌++◌, arith, ltb,
  if◌then◌else◌, ltb→lt, Bool-cases, Option-cases, length, drop, take-append-drop, drop_all,
}
use cipher_post.Prelude.Bytes.{Bytes, IsBytes}
use cipher_post.Prelude.Bytes.{starts_with, find_at, find}
use cipher_post.Prelude.Classes.{nat_eq, string_eq}
use cipher_post.Reassembly.Session.{Session, header_offset, unannounced_tls, split_at}
use cipher_post.Records.{
  Result, ok, err, TlsRecord, parse_tls_records, default_max_records, valid_record_at,
  find_tls_offset, default_max_scan,
}
use cipher_post.Records.Sound.{Explained, parse_tls_records-Explained}
use cipher_post.Records.Serialize.{serialize}
use cipher_post.Records.Scan.{FirstIn, find_tls_offset-FirstIn}

header_offset-zero :
    (r : TlsRecord) (tail bs : Bytes)
    → bs ≡ r.content_type ∷ r.version / 256 ∷ r.version % 256 ∷ tail
    → r.version / 256 < 256
    → header_offset r bs ≡ 0
unfolding header_offset find find_at starts_with
header_offset-zero r tail bs e h = rw e (ground arith)

-- The offset found for TLS that no command announces is always the start of the stream.
pub unannounced_tls-zero :
    (client_bytes : Bytes) (off : ℕ)
    → IsBytes client_bytes
    → unannounced_tls client_bytes ≡ some off
    → off ≡ 0
unannounced_tls-zero bs off b h =
    go (parse_tls_records bs default_max_records) refl
      (parse_tls_records-Explained bs default_max_records b)
  where
    go :
        (r : Result (List TlsRecord))
        → parse_tls_records bs default_max_records ≡ r
        → Explained 0 bs r
        → off ≡ 0
    go (err e) p x = unfold unannounced_tls in ground (arith, p)
    go (ok []) p x = unfold unannounced_tls in ground (arith, p)
    go (ok (first ∷ recs)) p x =
        let same : off ≡ header_offset first bs = unfold unannounced_tls in ground (arith, p) in
        same
        ∙ header_offset-zero first
            (length first.payload / 256 ∷ length first.payload % 256 ∷ first.payload
              ++ serialize recs
              ++ x.0)
            bs x.1.same (subst IsBytes x.1.same b).1.0

found_inside :
    (bs : Bytes) (so : ℕ) → find_tls_offset bs default_max_scan ≡ some so → so < length bs
found_inside bs so e = elim (Bool-cases (ltb so (length bs))) [
  | inl k ↦ ltb→lt so (length bs) k
  | inr k ↦
      let first =
        subst (FirstIn bs 0 (suc default_max_scan)) e
          (find_tls_offset-FirstIn bs default_max_scan) in
      let gone : drop so bs ≡ [] = drop_all so bs (ground arith) in
      unfold valid_record_at in cc (subst (λ d. valid_record_at d ≡ some first.2) gone first.3)
]

-- The server's bytes are split where its first record starts. If none is found, all of them count
-- as the TLS part, and in a STARTTLS session as the plaintext part too.
pub split_at-server :
    (sess : Session) (off : ℕ) (client_bytes server_bytes : Bytes)
    → let out = split_at sess off client_bytes server_bytes in
      (out.plaintext_server_segment ++ out.tls_server_segment ≡ server_bytes)
      ⊎ ((find_tls_offset server_bytes default_max_scan ≡ none)
          × (out.tls_server_segment ≡ server_bytes)
          × (out.plaintext_server_segment ≡ (if sess.is_starttls then server_bytes else [])))
split_at-server sess off cb sb = elim (Option-cases (find_tls_offset sb default_max_scan)) [
  | inl e ↦ inr (e, unfold split_at in ground (arith, e), unfold split_at in ground (arith, e))
  | inr (so, e) ↦
      inl (unfold split_at in ground (arith, e, found_inside sb so e, take-append-drop so sb))
]
