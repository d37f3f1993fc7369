-- ===== src/Rules/Worst.antt =====
-- What `max_severity` returns.
use cipher_post.Prelude.{
  ℕ, suc, ◌≤◌, ◌≡◌, refl, ◌⊎◌, inl, inr, none, some, List, [], ◌∷◌, arith, ltb, ltb→lt, Bool-cases,
  get_elem?, All,
}
use cipher_post.Prelude.Classes.{nat_eq, string_eq}
use cipher_post.Rules.{Severity, Finding}
use cipher_post.Rules.Run.{rank, max_from, max_severity}

-- `s` is the severity of one of the findings, and none of them ranks higher.
pub record Worst (fs : List Finding) (s : Severity) : Type 0 where
  pub at : ℕ
  pub which : Finding
  pub found : get_elem? fs at ≡ some which
  pub attained : which.severity ≡ s
  pub bound : All (λ f. rank f.severity ≤ rank s) fs

-- The same of a fold that starts from `best`.
record WorstFrom (best : Severity) (fs : List Finding) (s : Severity) : Type 0 where
  from : (best ≡ s) ⊎ ((n : ℕ) × (f : Finding) × (get_elem? fs n ≡ some f) × (f.severity ≡ s))
  above_best : rank best ≤ rank s
  bound : All (λ f. rank f.severity ≤ rank s) fs

max_from-Worst : (best : Severity) (fs : List Finding) → WorstFrom best fs (max_from best fs)
unfolding max_from
max_from-Worst best [] = record { from = inl refl; above_best = omega arith; bound = tt }
max_from-Worst best (f ∷ fs) = elim (Bool-cases (ltb (rank best) (rank f.severity))) [
  | inl e ↦
      let step : WorstFrom f.severity fs (max_from f.severity fs) = max_from-Worst f.severity fs in
      rw e (record {
        from = elim step.from [
          | inl same ↦ inr (0, f, refl, same)
          | inr (n, g, at, same) ↦ inr (suc n, g, at, same)
        ];
        above_best = omega (arith, ltb→lt (rank best) (rank f.severity) e, step.above_best);
        bound = (step.above_best, step.bound);
      })
  | inr e ↦
      let step : WorstFrom best fs (max_from best fs) = max_from-Worst best fs in
      rw e (record {
        from = elim step.from [
          | inl same ↦ inl same
          | inr (n, g, at, same) ↦ inr (suc n, g, at, same)
        ];
        above_best = step.above_best;
        bound = (ground (arith, e, step.above_best), step.bound);
      })
]

-- `max_severity` returns the severity of one of the findings, above which none of them ranks, and
-- nothing only if there are none.
pub max_severity-Worst :
    (fs : List Finding)
    → ((fs ≡ []) × (max_severity fs ≡ none))
      ⊎ ((s : Severity) × (max_severity fs ≡ some s) × Worst fs s)
unfolding max_severity
max_severity-Worst [] = inl (refl, refl)
max_severity-Worst (f ∷ fs) =
    let fold : WorstFrom f.severity fs (max_from f.severity fs) = max_from-Worst f.severity fs in
    inr (
      max_from f.severity fs,
      refl,
      elim fold.from [
        | inl same ↦ record {
          at = 0;
          which = f;
          found = refl;
          attained = same;
          bound = (fold.above_best, fold.bound);
        }
        | inr (n, g, at, same) ↦ record {
          at = suc n;
          which = g;
          found = at;
          attained = same;
          bound = (fold.above_best, fold.bound);
        }
      ],
    )
