-- ===== src/Analysis/Tls13.antt =====
-- TLS 1.3 sessions whose certificates cannot be seen, from end to end.
use mathlib.Core.Path.{subst}
use cipher_post.Prelude.{
  ℕ, ◌<◌, ◌≡◌, refl, sym, ap, ◌∙◌, Bool, true, false, Option, none, some, List, [], ◌++◌, arith,
  ◌==◌, if◌then◌else◌, lt→ltb, length, All, Option-cases, inl, inr,
}
use cipher_post.Prelude.Bytes.{Bytes}
use cipher_post.Prelude.Classes.{nat_eq, string_eq}
use cipher_post.Records.{TlsRecord}
use cipher_post.Reassembly.Session.{Session}
use cipher_post.Handshake.Parsed.{Parsed, parsed, raised, index_error, ◌>>=◌}
use cipher_post.Handshake.ClientHello.{parse_client_hello}
use cipher_post.Handshake.ServerHello.{parse_server_hello}
use cipher_post.Handshake.Certificate.{parse_certificate_message}
use cipher_post.Certificates.Chain.{OpenSsl}
use cipher_post.Certificates.Reading.{X509}
use cipher_post.Rules.{SessionAnalysis, on_some}
use cipher_post.Rules.Certs.{certs_usable, listed, cert_rule_ids}
use cipher_post.Rules.Run.{run_rules}
use cipher_post.Analysis.{
  start, records_of, message, hello_tls13, with_negotiated, with_certs, with_visibility,
  visibility_of, with_messages, with_verdicts, returns, finish, observe, analyze_session,
}
use cipher_post.Analysis.{with_cipher}
use cipher_post.Rules.Certs.{saw_tls13}
use cipher_post.Rules.Effect.{facts}
use cipher_post.Rules.CertEffects.{Unobserved}
use cipher_post.Rules.Observable.{Skipped, run_rules-Skipped}
use cipher_post.Rules.Frame.{run_rules-Effect}

-- The session has no findings yet.
abbrev Fresh : SessionAnalysis → Type 0
Fresh sa = sa.findings ≡ []

option-Fresh :
    {A : Type 0} (o : Option A) (a : SessionAnalysis) (f : A → SessionAnalysis)
    → Fresh a
    → ((x : A) → Fresh (f x))
    → Fresh (elim o [ none ↦ a | some x ↦ f x ])
option-Fresh none a f h k = h
option-Fresh (some x) a f h k = k x

if-Fresh : (test : Bool) (a b : SessionAnalysis) → Fresh a → Fresh b → Fresh (if test then a else b)
if-Fresh true a b h k = h
if-Fresh false a b h k = k

with_cipher-Fresh : (o : Option ℕ) (sa : SessionAnalysis) → Fresh sa → Fresh (with_cipher o sa)
unfolding with_cipher
with_cipher-Fresh none sa h = h
with_cipher-Fresh (some n) sa h = if-Fresh (n == 0) _ _ h (option-Fresh _ _ _ h (λ m. h))

with_negotiated-Fresh : (sa : SessionAnalysis) → Fresh sa → Fresh (with_negotiated sa)
unfolding with_negotiated
with_negotiated-Fresh sa h =
    option-Fresh sa.server_hello _ _ (option-Fresh sa.client_hello _ _ h (λ ch. h))
      (λ sh. with_cipher-Fresh sh.cipher_suite _ h)

with_certs-Fresh :
    (load : Bytes → Option X509) (openssl : OpenSsl) (sa out : SessionAnalysis)
    → Fresh sa
    → with_certs load openssl sa ≡ some out
    → Fresh out
unfolding with_certs
with_certs-Fresh load openssl sa out h e = ground arith

-- What is complete has no findings yet and has the visibility that follows from its facts.
abbrev IsSeen : Option SessionAnalysis → Type 0
IsSeen none = Unit
IsSeen (some sa) = Fresh sa × (sa.visibility ≡ some (visibility_of sa))

bind_parsed :
    {A B : Type 0} (p : Parsed A) (f : A → Parsed B) (b : B)
    → (p >>= f) ≡ parsed b
    → (a : A) × (p ≡ parsed a) × (f a ≡ parsed b)
bind_parsed (parsed a) f b h = (a, refl, h)
bind_parsed (raised e) f b h = absurd (ground arith)
bind_parsed index_error f b h = absurd (ground arith)

parsed-injective : {A : Type 0} (a b : A) → parsed a ≡ parsed b → a ≡ b
parsed-injective a b h = ground arith

module _ (decode : Bytes → Bytes) (load : Bytes → Option X509) (openssl : OpenSsl) where
  with_messages-Fresh :
      (records server_records : List TlsRecord) (sa out : SessionAnalysis)
      → Fresh sa
      → with_messages decode load openssl records server_records sa ≡ parsed out
      → Fresh out
  unfolding with_messages
  with_messages-Fresh records server_records sa out h e =
      let (ch, e1, f1) = bind_parsed (message 1 (parse_client_hello decode) records) _ out e in
      let (sh, e2, f2) =
        bind_parsed (message 2 (parse_server_hello decode) server_records) _ out f1 in
      let (cert, e3, f3) =
        bind_parsed
          (message 11 (λ body. parse_certificate_message body (hello_tls13 sh)) server_records) _
          out f2 in
      ap (λ s. s.findings) (sym (parsed-injective _ out f3)) ∙ h

  with_verdicts-IsSeen :
      (sa : SessionAnalysis) → Fresh sa → IsSeen (with_verdicts decode load openssl sa)
  unfolding with_verdicts with_visibility visibility_of
  with_verdicts-IsSeen sa h = elim (Option-cases (with_certs load openssl (with_negotiated sa))) [
    | inl e ↦
        let none_left : with_verdicts decode load openssl sa ≡ none = rw (e, with_verdicts) in
        subst IsSeen (sym none_left) tt
    | inr (y, e) ↦
        let judged : with_verdicts decode load openssl sa ≡ some (with_visibility y) =
          rw (e, with_verdicts) in
        subst IsSeen (sym judged) (
          with_certs-Fresh load openssl (with_negotiated sa) y (with_negotiated-Fresh sa h) e,
          refl,
        )
  ]

  -- What is observed is fresh, and the visibility is that of the facts.
  observe-IsSeen :
      (sess : Session) (o : Option SessionAnalysis)
      → observe decode load openssl sess ≡ parsed o
      → IsSeen o
  unfolding observe
  observe-IsSeen sess o e =
      let (x, e1, f1) =
        bind_parsed
          (with_messages decode load openssl (records_of sess.tls_segment)
            (records_of sess.tls_server_segment) (start sess))
          _ o e in
      subst IsSeen (parsed-injective _ o f1)
        (with_verdicts-IsSeen x (with_messages-Fresh _ _ (start sess) x (unfold start in refl) e1))

  finish_inv :
      (now : ℕ) (p : Parsed (Option SessionAnalysis)) (out : SessionAnalysis)
      → finish now p ≡ returns out
      → (sa : SessionAnalysis) × (p ≡ parsed (some sa)) × (run_rules now sa ≡ out)
  unfolding finish
  finish_inv now (parsed none) out h = absurd (ground (arith, h))
  finish_inv now (parsed (some sa)) out h = (sa, refl, ground (arith, h))
  finish_inv now (raised e) out h = absurd (ground (arith, h))
  finish_inv now index_error out h = absurd (ground (arith, h))

  seen :
      (sa : SessionAnalysis)
      → sa.visibility ≡ some (visibility_of sa)
      → sa.tls_version ≡ some 0x0304
      → saw_tls13 sa ≡ true
  unfolding visibility_of
  seen sa e v = ap (λ o. on_some (λ w. w.tls13) o) e ∙ ap (λ o. on_some (λ n. n == 0x0304) o) v

  ran :
      (now : ℕ) (sess : Session) (out : SessionAnalysis)
      → 0 < length sess.tls_segment
      → analyze_session decode load openssl now sess ≡ returns out
      → (sa : SessionAnalysis) × (observe decode load openssl sess ≡ parsed (some sa))
        × (run_rules now sa ≡ out)
  ran now sess out h e = finish_inv now (observe decode load openssl sess) out (
      ap
        (λ b.
          if b
          then finish now (observe decode load openssl sess)
          else returns (run_rules now (start sess)))
        (sym (lt→ltb 0 (length sess.tls_segment) h))
      ∙ (unfold analyze_session in e))

  -- Of a session with TLS that was found to be TLS 1.3 and of which no usable certificate was
  -- observed, the analysis reports nothing about certificates and notes all six rules on them as not
  -- observable.
  pub analyze_session-tls13 :
      (now : ℕ) (sess : Session) (out : SessionAnalysis)
      → 0 < length sess.tls_segment
      → analyze_session decode load openssl now sess ≡ returns out
      → out.tls_version ≡ some 0x0304
      → certs_usable out.certs ≡ false
      → All (λ f. listed f.rule_id cert_rule_ids ≡ false) out.findings
        × All (λ rule_id. listed rule_id out.not_observable ≡ true) cert_rule_ids
  analyze_session-tls13 now sess out h e v c =
      let (sa, e1, is_out) = ran now sess out h e in
      let (fresh, shown) = observe-IsSeen sess (some sa) e1 in
      let same : facts sa ≡ facts out =
        sym (run_rules-Effect now sa).same ∙ ap (λ s. facts s) is_out in
      let unobserved : Unobserved sa = (
        ap (λ s. certs_usable s.certs) same ∙ c,
        seen sa shown (ap (λ s. s.tls_version) same ∙ v),
      ) in
      let skipped : Skipped sa (run_rules now sa) = run_rules-Skipped now sa unobserved in
      let all_new : (run_rules now sa).findings ≡ skipped.effect.new =
        skipped.effect.found ∙ ap (λ fs. fs ++ skipped.effect.new) fresh in
      subst
        (λ s.
          All (λ f. listed f.rule_id cert_rule_ids ≡ false) s.findings
          × All (λ rule_id. listed rule_id s.not_observable ≡ true) cert_rule_ids)
        is_out
        (
          subst (λ fs. All (λ f. listed f.rule_id cert_rule_ids ≡ false) fs) (sym all_new)
              skipped.effect.rules,
          skipped.noted,
        )
