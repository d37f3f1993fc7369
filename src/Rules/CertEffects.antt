-- ===== src/Rules/CertEffects.antt =====
-- The effect of the rules on certificates.
use Prim.Native.String.{String}
use mathlib.Core.Path.{subst}
use cipher_post.Prelude.{
  ℕ, ◌≡◌, refl, sym, ap, ◌∙◌, inl, inr, Bool, true, false, List, [], ◌∷◌, ◌++◌, append-nil, arith,
  if◌then◌else◌, Bool-cases,
}
use cipher_post.Prelude.Classes.{eqb, eqb_refl, nat_eq, string_eq}
use cipher_post.Certificates.{CertAnalysis, expired, not_yet_valid, weak_signature, short_key}
use cipher_post.Rules.{Severity, medium, high, SessionAnalysis, add_if, Rule}
use cipher_post.Rules.Certs.{
  certs_usable, listed, skip, saw_tls13, require_usable_certs, guarded, add_each, chain_severity,
  rule_cert_expired, rule_cert_not_yet_valid, rule_cert_self_signed, rule_chain_untrusted,
  rule_weak_signature, rule_short_key,
}
use cipher_post.Rules.Effect.{
  Effect, no-Effect, add-Effect, add_if-Effect, given-Effect, choose-Effect, then-Effect,
}

-- The session is TLS 1.3, and no certificate that was observed could be read.
abbrev pub Unobserved : SessionAnalysis → Type 0
Unobserved sa = (certs_usable sa.certs ≡ false) × (saw_tls13 sa ≡ true)

listed_last : (rule_id : String) (ids : List String) → listed rule_id (ids ++ rule_id ∷ []) ≡ true
unfolding listed
listed_last rule_id [] = ground (arith, eqb_refl rule_id)
listed_last rule_id (s ∷ ss) = ground (arith, listed_last rule_id ss)

listed_before :
    (r : String) (ids more : List String) → listed r ids ≡ true → listed r (ids ++ more) ≡ true
unfolding listed
listed_before r [] more h = ground arith
listed_before r (s ∷ ss) more h = elim (Bool-cases (eqb r s)) [
  | inl e ↦ rw e
  | inr e ↦ rw (e) (listed_before r ss more (ground (arith, e)))
]

skip-listed :
    (rule_id : String) (sa : SessionAnalysis)
    → listed rule_id (skip rule_id sa).not_observable ≡ true
unfolding skip
skip-listed rule_id sa = ground (arith, listed_last rule_id sa.not_observable)

flow :
    (b t : Bool) (sa skipped : SessionAnalysis) (rule : Rule)
    → (let p : Bool × SessionAnalysis =
          if b then (true, sa) else if t then (false, skipped) else (true, sa) in
        if p.0 then rule p.1 else p.1)
      ≡ (if b then rule sa else if t then skipped else rule sa)
flow true t sa skipped rule = refl
flow false true sa skipped rule = refl
flow false false sa skipped rule = refl

guarded_cases :
    (rule_id : String) (rule : Rule) (sa : SessionAnalysis)
    → guarded rule_id rule sa ≡ (
        if certs_usable sa.certs
        then rule sa
        else if saw_tls13 sa
        then skip rule_id sa
        else rule sa)
unfolding guarded require_usable_certs
guarded_cases rule_id rule sa =
    flow (certs_usable sa.certs) (saw_tls13 sa) sa (skip rule_id sa) rule

guarded-skip :
    (rule_id : String) (rule : Rule) (sa : SessionAnalysis)
    → Unobserved sa
    → guarded rule_id rule sa ≡ skip rule_id sa
guarded-skip rule_id rule sa (e, t) =
    guarded_cases rule_id rule sa ∙ pick (certs_usable sa.certs) (saw_tls13 sa) e t
  where
    pick :
        (b c : Bool)
        → b ≡ false
        → c ≡ true
        → (if b then rule sa else if c then skip rule_id sa else rule sa) ≡ skip rule_id sa
    pick b c e t = ground (arith)

module _ (P : String → Type 0) where
  skip-Effect : (rule_id : String) (sa : SessionAnalysis) → Effect P sa (skip rule_id sa)
  unfolding skip
  skip-Effect rule_id sa =
      choose-Effect P (listed rule_id sa.not_observable) sa _ _ (no-Effect P sa) (record {
        new = [];
        found = sym (append-nil sa.findings);
        rules = tt;
        same = refl;
        kept = λ r h. listed_before r sa.not_observable (rule_id ∷ []) h;
      })

  add_each-Effect :
      (test : CertAnalysis → Bool) (rule_id : String) (severity : Severity) (cs : List CertAnalysis)
      (sa : SessionAnalysis)
      → P rule_id
      → Effect P sa (add_each test rule_id severity cs sa)
  unfolding add_each
  add_each-Effect test rule_id severity [] sa p = no-Effect P sa
  add_each-Effect test rule_id severity (c ∷ cs) sa p =
      then-Effect P sa (add_if (test c) rule_id severity sa) _
        (add_if-Effect P (test c) rule_id severity sa p)
        (add_each-Effect test rule_id severity cs (add_if (test c) rule_id severity sa) p)

  guarded-Effect :
      (rule_id : String) (rule : Rule)
      → ((sa : SessionAnalysis) → Effect P sa (rule sa))
      → (sa : SessionAnalysis) → Effect P sa (guarded rule_id rule sa)
  guarded-Effect rule_id rule h sa =
      subst (λ out. Effect P sa out) (sym (guarded_cases rule_id rule sa))
        (choose-Effect P (certs_usable sa.certs) sa _ _ (h sa)
          (choose-Effect P (saw_tls13 sa) sa _ _ (skip-Effect rule_id sa) (h sa)))

  pub cert_expired-Effect :
      (now : ℕ) (sa : SessionAnalysis)
      → P "expired-certificate"
      → Effect P sa (rule_cert_expired now sa)
  unfolding rule_cert_expired
  cert_expired-Effect now sa p =
      guarded-Effect _ _ (λ s. add_each-Effect (expired now) _ high s.certs s p) sa

  pub cert_not_yet_valid-Effect :
      (now : ℕ) (sa : SessionAnalysis)
      → P "certificate-not-yet-valid"
      → Effect P sa (rule_cert_not_yet_valid now sa)
  unfolding rule_cert_not_yet_valid
  cert_not_yet_valid-Effect now sa p =
      guarded-Effect _ _ (λ s. add_each-Effect (not_yet_valid now) _ medium s.certs s p) sa

  pub cert_self_signed-Effect :
      (sa : SessionAnalysis) → P "self-signed-certificate" → Effect P sa (rule_cert_self_signed sa)
  unfolding rule_cert_self_signed
  cert_self_signed-Effect sa p = guarded-Effect _ _ (λ s. add_if-Effect P _ _ _ s p) sa

  pub chain_untrusted-Effect :
      (sa : SessionAnalysis)
      → P "untrusted-certificate-chain"
      → Effect P sa (rule_chain_untrusted sa)
  unfolding rule_chain_untrusted
  chain_untrusted-Effect sa p =
      guarded-Effect _ _
        (λ s. given-Effect P (chain_severity s.chain_result) _ s (λ severity. add-Effect P _ _ s p))
        sa

  pub weak_signature-Effect :
      (sa : SessionAnalysis) → P "weak-signature-algorithm" → Effect P sa (rule_weak_signature sa)
  unfolding rule_weak_signature
  weak_signature-Effect sa p =
      guarded-Effect _ _ (λ s. add_each-Effect weak_signature _ high s.certs s p) sa

  pub short_key-Effect :
      (sa : SessionAnalysis) → P "short-public-key" → Effect P sa (rule_short_key sa)
  unfolding rule_short_key
  short_key-Effect sa p = guarded-Effect _ _ (λ s. add_each-Effect short_key _ high s.certs s p) sa

  -- Where nothing was observed, a guarded rule adds nothing.
  pub quiet-Effect :
      (rule_id : String) (rule : Rule) (sa : SessionAnalysis)
      → Unobserved sa
      → Effect P sa (guarded rule_id rule sa)
  quiet-Effect rule_id rule sa u =
      subst (λ out. Effect P sa out) (sym (guarded-skip rule_id rule sa u)) (skip-Effect rule_id sa)

pub guarded-listed :
    (rule_id : String) (rule : Rule) (sa : SessionAnalysis)
    → Unobserved sa
    → listed rule_id (guarded rule_id rule sa).not_observable ≡ true
guarded-listed rule_id rule sa u =
    ap (λ out. listed rule_id out.not_observable) (guarded-skip rule_id rule sa u)
    ∙ skip-listed rule_id sa
