-- ===== src/Reassembly/Emission.antt =====
-- What `emit` returns of a complete stream.
use mathlib.Core.Path.{subst}
use cipher_post.Prelude.{
  ℕ, ◌≡◌, sym, ap, ◌∙◌, ◌≢◌, ◌⊎◌, inl, inr, true, false, Option, none, some, List, [], ◌∷◌, ◌++◌,
  arith, Bool-cases, Option-cases, All, All-imp,
}
use cipher_post.Prelude.Bytes.{Bytes}
use cipher_post.Prelude.Classes.{nat_eq, string_eq}
use cipher_post.Reassembly.Session.{
  Protocol, unknown, Session, detect_protocol, assign_tls_segments, new_session,
}
use cipher_post.Reassembly.Assembler.{
  Key, key_eq, Stream, Streams, a_is_client, client_is_a, is_unknown, classify, session_of,
  append_some, emit,
}
use cipher_post.Reassembly.Segments.{
  SameEnds, assign_tls_segments-SameEnds, assign_tls_segments-client,
}

-- `sess` has the endpoint `c_ip`, `c_port` as its client, with the bytes `cb`, and the other one as
-- its server.
pub record HasEnds (c_ip : Bytes) (c_port : ℕ) (s_ip : Bytes) (s_port : ℕ) (cb : Bytes)
    (sess : Session) : Type 0 where
  pub client_ip : sess.client_ip ≡ c_ip
  pub client_port : sess.client_port ≡ c_port
  pub server_ip : sess.server_ip ≡ s_ip
  pub server_port : sess.server_port ≡ s_port
  pub client_bytes : sess.plaintext_segment ++ sess.tls_segment ≡ cb
  pub known : sess.protocol ≢ unknown

detect_protocol-ends :
    (sess : Session) (cb sb : Bytes)
    → let out = detect_protocol sess cb sb in
      (out.client_ip ≡ sess.client_ip)
      × (out.client_port ≡ sess.client_port)
      × (out.server_ip ≡ sess.server_ip)
      × (out.server_port ≡ sess.server_port)
unfolding detect_protocol
detect_protocol-ends sess cb sb = ground arith

is_unknown-false : (p : Protocol) → is_unknown p ≡ false → p ≢ unknown
is_unknown-false p h e = ground arith

pub classify-HasEnds :
    (c_ip : Bytes) (c_port : ℕ) (s_ip : Bytes) (s_port start_ts end_ts : ℕ) (cb sb : Bytes)
    (sess : Session)
    → classify (new_session c_ip c_port s_ip s_port start_ts end_ts) cb sb ≡ some sess
    → HasEnds c_ip c_port s_ip s_port cb sess
classify-HasEnds c_ip c_port s_ip s_port start end cb sb sess h =
    subst (HasEnds c_ip c_port s_ip s_port cb) same (record {
      client_ip = keeps.client_ip ∙ ends.0;
      client_port = keeps.client_port ∙ ends.1;
      server_ip = keeps.server_ip ∙ ends.2;
      server_port = keeps.server_port ∙ ends.3;
      client_bytes = assign_tls_segments-client found cb sb;
      known = λ e. is_unknown-false found.protocol known (sym keeps.protocol ∙ e);
    })
  where
    fresh : Session
    fresh = new_session c_ip c_port s_ip s_port start end

    found : Session
    found = detect_protocol fresh cb sb

    known : is_unknown found.protocol ≡ false
    known = unfold classify in ground arith

    same : assign_tls_segments found cb sb ≡ sess
    same = unfold classify in ground arith

    keeps : SameEnds found (assign_tls_segments found cb sb)
    keeps = assign_tls_segments-SameEnds found cb sb

    ends :
        (found.client_ip ≡ c_ip)
        × (found.client_port ≡ c_port)
        × (found.server_ip ≡ s_ip)
        × (found.server_port ≡ s_port)
    ends = unfold new_session in detect_protocol-ends fresh cb sb

abbrev pub FromA : Stream → Session → Type 0
FromA st = HasEnds st.ip_a st.port_a st.ip_b st.port_b st.ha.buf

abbrev pub FromB : Stream → Session → Type 0
FromB st = HasEnds st.ip_b st.port_b st.ip_a st.port_a st.hb.buf

session_of-side :
    (st : Stream) (sess : Session)
    → session_of st ≡ some sess
    → ((client_is_a st ≡ true) × FromA st sess) ⊎ ((client_is_a st ≡ false) × FromB st sess)
session_of-side st sess h = elim (Bool-cases (client_is_a st)) [
  | inl e ↦ inl (
    e,
    classify-HasEnds st.ip_a st.port_a st.ip_b st.port_b st.first_ts 0 st.ha.buf st.hb.buf sess
        (unfold session_of in ground arith),
  )
  | inr e ↦ inr (
    e,
    classify-HasEnds st.ip_b st.port_b st.ip_a st.port_a st.first_ts 0 st.hb.buf st.ha.buf sess
        (unfold session_of in ground arith),
  )
]

-- The session of a stream in which only the A side sent a SYN has the A side as its client, with
-- all its bytes, and a known protocol; so has it the B side, if only that sent a SYN and the sides
-- differ.
pub session_of-syn :
    (st : Stream) (sess : Session)
    → session_of st ≡ some sess
    → ((st.syn_by_a ≡ true) → (st.syn_by_b ≡ false) → FromA st sess)
      × ((st.syn_by_b ≡ true) → (st.syn_by_a ≡ false) → st.port_b ≢ st.port_a → FromB st sess)
session_of-syn st sess h = elim (session_of-side st sess h) [
  | inl (e, f) ↦ (λ _ _. f, λ b a ne. absurd (unfold client_is_a a_is_client in ground arith))
  | inr (e, f) ↦ (λ a b. absurd (unfold client_is_a a_is_client in ground arith), λ _ _ _. f)
]

pub data FromComplete (sess : Session) : Streams → Type 0 where
  here :
      {k : Key} {st : Stream} {rest : Streams}
      → st.complete ≡ true
      → FromA st sess ⊎ FromB st sess
      → FromComplete sess ((k, st) ∷ rest)
  later :
      {k : Key} {st : Stream} {rest : Streams}
      → FromComplete sess rest
      → FromComplete sess ((k, st) ∷ rest)

side :
    (st : Stream) (sess : Session)
    → ((client_is_a st ≡ true) × FromA st sess) ⊎ ((client_is_a st ≡ false) × FromB st sess)
    → FromA st sess ⊎ FromB st sess
side st sess (inl (e, f)) = inl f
side st sess (inr (e, f)) = inr f

emit_skip :
    (k : Key) (st : Stream) (rest : Streams)
    → st.complete ≡ false
    → emit ((k, st) ∷ rest) ≡ emit rest
unfolding emit
emit_skip k st rest e = ground arith

emit_take :
    (k : Key) (st : Stream) (rest : Streams) (o : Option Session)
    → st.complete ≡ true
    → session_of st ≡ o
    → emit ((k, st) ∷ rest) ≡ append_some o (emit rest)
emit_take k st rest o e f = unfold emit in ground (arith, ap (λ p. append_some p (emit rest)) f)

-- Every session that `emit` returns belongs to a complete stream, has one of its sides as the
-- client and the other as the server, holds all of the client side's bytes, and has a known
-- protocol.
pub emit-FromComplete : (streams : Streams) → All (λ sess. FromComplete sess streams) (emit streams)
emit-FromComplete [] = unfold emit in tt
emit-FromComplete ((k, st) ∷ rest) = more (emit-FromComplete rest)
  where
    Here : List Session → Type 0
    Here = All (λ sess. FromComplete sess ((k, st) ∷ rest))

    more : All (λ sess. FromComplete sess rest) (emit rest) → Here (emit ((k, st) ∷ rest))
    more ih =
        let kept : Here (emit rest) =
          All-imp (λ s. FromComplete s rest) (λ s. FromComplete s ((k, st) ∷ rest)) (emit rest)
            (λ s f. later f) ih in
        elim (Bool-cases st.complete) [
          | inr e ↦ subst Here (sym (emit_skip k st rest e)) kept
          | inl e ↦ elim (Option-cases (session_of st)) [
            | inl o ↦ subst Here (sym (emit_take k st rest none e o)) kept
            | inr (sess, o) ↦
                subst Here (sym (emit_take k st rest (some sess) e o))
                  (here e (side st sess (session_of-side st sess o)), kept)
          ]
        ]
