-- ===== src/Prelude/Dict.antt =====
-- Python's `dict`: an association list in insertion order. Writing to a key that is there keeps
-- its place.
use Prim.Native.Nat.{◌+◌, ◌≤◌, ◌<◌}
use mathlib.Core.Path.{◌≡◌, refl, subst}
use mathlib.Core.Logic.{◌⊎◌, inl, inr}
use mathlib.Core.Bool.{true, false}
use mathlib.Core.Option.{Option, none, some}
use mathlib.Core.List.{List, [], ◌∷◌}
use native.Mathlib.Omega.{arith}
use cipher_post.Prelude.Tests.{Bool-cases, if◌then◌else◌}
use cipher_post.Prelude.Lists.{length, All}
use cipher_post.Prelude.Classes.{Eq, eqb, eqb_refl}

abbrev pub Dict {ℓ κ} : Type ℓ → Type κ → Type (ℓ ⊔ κ)
Dict K V = List (K × V)

module _ {ℓ κ} {K : Type ℓ} {V : Type κ} ⦃e : Eq K⦄ where
  -- d.get(k)
  unfoldable pub get : K → Dict K V → Option V
  get k [] = none
  get k ((j, v) ∷ d) = if eqb j k then some v else get k d

  -- d[k] = v
  unfoldable pub put : K → V → Dict K V → Dict K V
  put k v [] = (k, v) ∷ []
  put k v ((j, w) ∷ d) = if eqb j k then (j, v) ∷ d else (j, w) ∷ put k v d

  -- del d[k], d.pop(k, None)
  unfoldable pub pop : K → Dict K V → Dict K V
  pop k [] = []
  pop k ((j, w) ∷ d) = let rest = pop k d in if eqb j k then rest else (j, w) ∷ rest

  pub get-put :
      (k j : K) (v : V) (d : Dict K V) → get j (put k v d) ≡ (if eqb k j then some v else get j d)
  unfolding get put
  get-put k j v [] = refl
  get-put k j v ((i, w) ∷ d) =
      ground (arith, e.beq_iff i k, e.beq_iff i j, e.beq_iff k j, get-put k j v d)

  pub get-pop : (k j : K) (d : Dict K V) → get j (pop k d) ≡ (if eqb k j then none else get j d)
  unfolding get pop
  get-pop k j [] = ground arith
  get-pop k j ((i, w) ∷ d) =
      ground (arith, e.beq_iff i k, e.beq_iff i j, e.beq_iff k j, get-pop k j d)

  pub length-pop-le : (k : K) (d : Dict K V) → length (pop k d) ≤ length d
  unfolding pop
  length-pop-le k [] = omega arith
  length-pop-le k ((i, w) ∷ d) = ground (arith, length-pop-le k d)

  pub length-pop-lt :
      (k : K) (v : V) (d : Dict K V) → get k d ≡ some v → length (pop k d) < length d
  unfolding get pop
  length-pop-lt k v [] h = cc
  length-pop-lt k v ((i, w) ∷ d) h = ground (arith, length-pop-le k d, length-pop-lt k v d)

  pub length-put-le : (k : K) (v : V) (d : Dict K V) → length (put k v d) ≤ length d + 1
  unfolding put
  length-put-le k v [] = omega arith
  length-put-le k v ((i, w) ∷ d) = ground (arith, length-put-le k v d)

  pub get-put_self : (k : K) (v : V) (d : Dict K V) → get k (put k v d) ≡ some v
  get-put_self k v d = ground (arith, get-put k k v d, eqb_refl k)

  pub get-pop_self : (k : K) (d : Dict K V) → get k (pop k d) ≡ none
  get-pop_self k d = ground (arith, get-pop k k d, eqb_refl k)

  pub get-put-none :
      (k j : K) (v : V) (d : Dict K V)
      → get j (put k v d) ≡ none
      → (eqb k j ≡ false) × (get j d ≡ none)
  get-put-none k j v d h = elim (Bool-cases (eqb k j)) [
    | inl e ↦ absurd (ground (arith, get-put k j v d))
    | inr e ↦ (e, ground (arith, get-put k j v d))
  ]

  pub get-put_other :
      (k j : K) (v : V) (d : Dict K V) → eqb k j ≡ false → get j (put k v d) ≡ get j d
  get-put_other k j v d e = ground (arith, get-put k j v d)

  pub get-pop_keeps : (k j : K) (d : Dict K V) → get j d ≡ none → get j (pop k d) ≡ none
  get-pop_keeps k j d h = ground (arith, get-pop k j d)

  pub get-pop-none :
      (k j : K) (d : Dict K V) → get j (pop k d) ≡ none → (eqb k j ≡ true) ⊎ (get j d ≡ none)
  get-pop-none k j d h = elim (Bool-cases (eqb k j)) [
    | inl e ↦ inl e
    | inr e ↦ inr (ground (arith, get-pop k j d))
  ]

  pub pop_missing : (k : K) (d : Dict K V) → get k d ≡ none → pop k d ≡ d
  unfolding get pop
  pop_missing k [] h = refl
  pop_missing k ((i, w) ∷ d) h = ground (arith, pop_missing k d)

  -- A predicate on the values, over a read, a write and a removal.
  pub All-get {μ} :
      (P : V → Type μ) (k : K) (v : V) (d : Dict K V) → get k d ≡ some v → All (λ e. P e.1) d → P v
  unfolding get
  All-get P k v [] e h = absurd (ground arith)
  All-get P k v ((j, w) ∷ d) e h = elim (Bool-cases (eqb j k)) [
    | inl f ↦ let same : w ≡ v = ground arith in subst P same h.0
    | inr f ↦ All-get P k v d (ground arith) h.1
  ]

  pub All-put {μ} :
      (P : V → Type μ) (k : K) (v : V) (d : Dict K V)
      → P v
      → All (λ e. P e.1) d
      → All (λ e. P e.1) (put k v d)
  unfolding put
  All-put P k v [] p h = (p, tt)
  All-put P k v ((j, w) ∷ d) p h = elim (Bool-cases (eqb j k)) [
    | inl f ↦ rw f (p, h.1)
    | inr f ↦ rw f (h.0, All-put P k v d p h.1)
  ]

  pub All-pop {μ} :
      (P : V → Type μ) (k : K) (d : Dict K V) → All (λ e. P e.1) d → All (λ e. P e.1) (pop k d)
  unfolding pop
  All-pop P k [] h = tt
  All-pop P k ((j, w) ∷ d) h = elim (Bool-cases (eqb j k)) [
    | inl f ↦ rw f (All-pop P k d h.1)
    | inr f ↦ rw f (h.0, All-pop P k d h.1)
  ]
