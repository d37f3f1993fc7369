-- ===== src/Rules/Effect.antt =====
-- What a rule does to the session: it appends findings, may note a rule that it skips, and leaves
-- all else as it was.
use Prim.Native.String.{String}
use mathlib.Core.Path.{subst}
use cipher_post.Prelude.{
  ℕ, zero, suc, ◌≡◌, refl, sym, ap, ◌∙◌, Bool, true, false, Option, none, some, List, [], ◌∷◌, ◌++◌,
  append-nil, append_assoc, arith, if◌then◌else◌, get_elem?, All, All-append,
}
use cipher_post.Prelude.Classes.{nat_eq, string_eq}
use cipher_post.Rules.{Severity, Finding, SessionAnalysis, add, add_if, Rule, given}
use cipher_post.Rules.Certs.{listed}
use cipher_post.Rules.Run.{run_all}

-- The session without what the rules write.
abbrev pub facts : SessionAnalysis → SessionAnalysis
facts sa = record sa { not_observable = []; findings = [] }

-- `out` has new findings behind those of `sa`, of rules that satisfy `P`.
pub record Effect (P : String → Type 0) (sa out : SessionAnalysis) : Type 0 where
  pub new : List Finding
  pub found : out.findings ≡ sa.findings ++ new
  pub rules : All (λ f. P f.rule_id) new
  pub same : facts out ≡ facts sa
  pub kept :
      (rule_id : String)
      → listed rule_id sa.not_observable ≡ true
      → listed rule_id out.not_observable ≡ true

module _ (P : String → Type 0) where
  pub no-Effect : (sa : SessionAnalysis) → Effect P sa sa
  no-Effect sa = record {
    new = [];
    found = sym (append-nil sa.findings);
    rules = tt;
    same = refl;
    kept = λ rule_id h. h;
  }

  pub add-Effect :
      (rule_id : String) (severity : Severity) (sa : SessionAnalysis)
      → P rule_id
      → Effect P sa (add rule_id severity sa)
  unfolding add
  add-Effect rule_id severity sa p = record {
    new = record { rule_id = rule_id; severity = severity } ∷ [];
    found = refl;
    rules = (p, tt);
    same = refl;
    kept = λ r h. h;
  }

  pub add_if-Effect :
      (test : Bool) (rule_id : String) (severity : Severity) (sa : SessionAnalysis)
      → P rule_id
      → Effect P sa (add_if test rule_id severity sa)
  unfolding add_if
  add_if-Effect true rule_id severity sa p = add-Effect rule_id severity sa p
  add_if-Effect false rule_id severity sa p = no-Effect sa

  pub given-Effect {ℓ} :
      {A : Type ℓ} (o : Option A) (rest : A → SessionAnalysis) (sa : SessionAnalysis)
      → ((a : A) → Effect P sa (rest a))
      → Effect P sa (given o rest sa)
  unfolding given
  given-Effect none rest sa h = no-Effect sa
  given-Effect (some a) rest sa h = h a

  pub choose-Effect :
      (test : Bool) (sa a b : SessionAnalysis)
      → Effect P sa a
      → Effect P sa b
      → Effect P sa (if test then a else b)
  choose-Effect true sa a b h k = h
  choose-Effect false sa a b h k = k

  pub then-Effect : (a b c : SessionAnalysis) → Effect P a b → Effect P b c → Effect P a c
  then-Effect a b c e f = record {
    new = e.new ++ f.new;
    found = f.found ∙ ap (λ r. r ++ f.new) e.found ∙ append_assoc a.findings e.new f.new;
    rules = All-append (λ f. P f.rule_id) e.new f.new e.rules f.rules;
    same = f.same ∙ e.same;
    kept = λ r h. f.kept r (e.kept r h);
  }

  -- A rule has an effect on every session that satisfies `G`.
  abbrev pub Effects : (SessionAnalysis → Type 0) → Rule → Type 0
  Effects G rule = (sa : SessionAnalysis) → G sa → Effect P sa (rule sa)

  module _ (G : SessionAnalysis → Type 0)
      (stable : (sa out : SessionAnalysis) → facts out ≡ facts sa → G sa → G out) where
    pub run_all-Effect : (rules : List Rule) → All (Effects G) rules → Effects G (run_all rules)
    run_all-Effect [] hs sa g = no-Effect sa
    run_all-Effect (rule ∷ rules) hs sa g =
        let first : Effect P sa (rule sa) = hs.0 sa g in
        then-Effect sa (rule sa) (run_all rules (rule sa)) first
          (run_all-Effect rules hs.1 (rule sa) (stable sa (rule sa) first.same g))

    -- What one of the rules brings about holds in the end, if no effect undoes it.
    pub run_all-keeps :
        (Q : SessionAnalysis → Type 0)
        → ((sa out : SessionAnalysis) → Effect P sa out → Q sa → Q out)
        → (rules : List Rule) → All (Effects G) rules
        → (n : ℕ) (rule : Rule) → get_elem? rules n ≡ some rule
        → ((sa : SessionAnalysis) → G sa → Q (rule sa))
        → (sa : SessionAnalysis) → G sa
        → Q (run_all rules sa)
    run_all-keeps Q keeps [] hs n rule at holds sa g = absurd (ground arith)
    run_all-keeps Q keeps (r ∷ rules) hs zero rule at holds sa g =
        let first : Effect P sa (r sa) = hs.0 sa g in
        let rest : Effect P (r sa) (run_all rules (r sa)) =
          run_all-Effect rules hs.1 (r sa) (stable sa (r sa) first.same g) in
        let same_rule : rule ≡ r = ground arith in
        keeps (r sa) (run_all rules (r sa)) rest (subst (λ k. Q (k sa)) same_rule (holds sa g))
    run_all-keeps Q keeps (r ∷ rules) hs (suc n) rule at holds sa g =
        let first : Effect P sa (r sa) = hs.0 sa g in
        run_all-keeps Q keeps rules hs.1 n rule at holds (r sa) (stable sa (r sa) first.same g)
