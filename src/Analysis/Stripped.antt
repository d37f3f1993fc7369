-- ===== src/Analysis/Stripped.antt =====
-- Sessions from which STARTTLS was stripped, from end to end.
use mathlib.Core.Path.{subst}
use cipher_post.Prelude.{
  ℕ, zero, suc, ◌≤◌, ◌≡◌, refl, ap, ◌∙◌, ◌≢◌, inl, inr, true, false, not, ◌&&◌, Option, some, List,
  [], ◌∷◌, ◌++◌, arith, ltb, ◌==◌, if◌then◌else◌, length, get_elem?, All, All-imp,
}
use cipher_post.Prelude.Bytes.{Bytes}
use cipher_post.Prelude.Classes.{nat_eq, string_eq}
use cipher_post.Reassembly.Session.{Session}
use cipher_post.Certificates.Chain.{OpenSsl}
use cipher_post.Certificates.Reading.{X509}
use cipher_post.Rules.{SessionAnalysis, Finding, Severity, info, low, medium, high, critical}
use cipher_post.Rules.Run.{run_rules, all_rules, max_severity, rank}
use cipher_post.Analysis.{returns, start, offers_starttls, analyze_session}
use cipher_post.Rules.{add, add_if}
use cipher_post.Rules.Plaintext.{rule_starttls_strip}
use cipher_post.Rules.Effect.{Effects, run_all-keeps}
use cipher_post.Rules.Frame.{Known, Anything, All-Known}
use cipher_post.Rules.Worst.{max_severity-Worst}

abbrev strip_finding : Finding
strip_finding = record { rule_id = "starttls-strip-attempt"; severity = critical }

-- The finding is among those of the session.
abbrev Reported : SessionAnalysis → Type 0
Reported sa = (n : ℕ) × (get_elem? sa.findings n ≡ some strip_finding)

abbrev Stripped : SessionAnalysis → Type 0
Stripped sa = (sa.saw_starttls_offer && (not sa.started_tls && sa.tls_bytes == 0)) ≡ true

get_elem-append :
    {A : Type 0} (xs ys : List A) (n : ℕ) (a : A)
    → get_elem? xs n ≡ some a
    → get_elem? (xs ++ ys) n ≡ some a
get_elem-append [] ys n a h = absurd (ground arith)
get_elem-append (x ∷ xs) ys zero a h = h
get_elem-append (x ∷ xs) ys (suc n) a h = get_elem-append xs ys n a h

get_elem_last : {A : Type 0} (xs : List A) (a : A) → get_elem? (xs ++ a ∷ []) (length xs) ≡ some a
get_elem_last [] a = refl
get_elem_last (x ∷ xs) a = get_elem_last xs a

reports : (sa : SessionAnalysis) → Stripped sa → Reported (rule_starttls_strip sa)
unfolding rule_starttls_strip add_if add
reports sa h = (
  length sa.findings,
  ap
        (λ b.
          get_elem? (if b then add "starttls-strip-attempt" critical sa else sa).findings
            (length sa.findings))
        h
      ∙ get_elem_last sa.findings strip_finding,
)

run_rules-Reported : (now : ℕ) (sa : SessionAnalysis) → Stripped sa → Reported (run_rules now sa)
unfolding run_rules
run_rules-Reported now sa h =
    run_all-keeps Known Stripped
      (λ a b e g. ap (λ s. s.saw_starttls_offer && (not s.started_tls && s.tls_bytes == 0)) e ∙ g)
      Reported
      (λ a b e r. (
        r.0,
        ap (λ fs. get_elem? fs r.0) e.found
            ∙ get_elem-append a.findings e.new r.0 strip_finding r.1,
      ))
      (all_rules now)
      (All-imp (Effects Known Anything) (Effects Known Stripped) (all_rules now)
        (λ rule k s g. k s tt) (All-Known now))
      14 rule_starttls_strip refl reports sa h

at-All :
    {A : Type 0} (P : A → Type 0) (xs : List A) (n : ℕ) (a : A)
    → All P xs
    → get_elem? xs n ≡ some a
    → P a
at-All P [] n a h e = absurd (ground arith)
at-All P (x ∷ xs) zero a h e = let same : x ≡ a = ground arith in subst P same h.0
at-All P (x ∷ xs) (suc n) a h e = at-All P xs n a h.1 e

only_critical : (s : Severity) → 4 ≤ rank s → s ≡ critical
only_critical info h = absurd (omega arith)
only_critical low h = absurd (omega arith)
only_critical medium h = absurd (omega arith)
only_critical high h = absurd (omega arith)
only_critical critical h = refl

rated :
    (fs : List Finding) (n : ℕ)
    → get_elem? fs n ≡ some strip_finding
    → max_severity fs ≡ some critical
rated fs n e = elim (max_severity-Worst fs) [
  | inl (empty, m) ↦ absurd (missing fs n empty e)
  | inr (s, m, w) ↦
      m
      ∙ ap (λ t. some t)
          (only_critical s (at-All (λ f. rank f.severity ≤ rank s) fs n strip_finding w.bound e))
]
  where
    missing : (gs : List Finding) (k : ℕ) → gs ≡ [] → get_elem? gs k ≢ some strip_finding
    missing [] k h at = ground arith
    missing (g ∷ gs) k h at = ground arith

-- A session without a byte of TLS, with STARTTLS in the plaintext of either side or STLS in that of
-- the client, is analysed without an error, and the worst of its findings is critical. STLS that only
-- the server names does not count.
pub analyze_session-stripped :
    (decode : Bytes → Bytes) (load : Bytes → Option X509) (openssl : OpenSsl) (now : ℕ)
    (sess : Session)
    → sess.tls_segment ≡ []
    → offers_starttls sess ≡ true
    → (out : SessionAnalysis) × (analyze_session decode load openssl now sess ≡ returns out)
      × (max_severity out.findings ≡ some critical)
analyze_session-stripped decode load openssl now sess none_sent offered =
    let empty : ltb 0 (length sess.tls_segment) ≡ false = ap (λ bs. ltb 0 (length bs)) none_sent in
    let zero_bytes : (length sess.tls_segment == 0) ≡ true = ap (λ bs. length bs == 0) none_sent in
    let stripped : Stripped (start sess) =
      unfold start in ground (arith, empty, zero_bytes, offered) in
    let (n, at) = run_rules-Reported now (start sess) stripped in
    (
      run_rules now (start sess),
      unfold analyze_session in rw empty,
      rated (run_rules now (start sess)).findings n at,
    )
