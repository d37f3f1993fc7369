-- ===== src/Prelude/Sort.antt =====
-- Python's stable `sorted(xs, key=f)` by a number, and how many elements pass a test.
use Prim.Native.Nat.{ℕ, suc, ◌+◌, ◌≤◌}
use mathlib.Core.Path.{◌≡◌, refl}
use mathlib.Core.Bool.{Bool}
use mathlib.Core.List.{List, [], ◌∷◌, ◌++◌}
use native.Mathlib.Omega.{arith}
use mathlib.Core.Logic.{inl, inr}
use cipher_post.Prelude.Tests.{leb, leb→le, Bool-cases, if◌then◌else◌}
use cipher_post.Prelude.Lists.{length, All, All-imp}

module _ {ℓ} {A : Type ℓ} where
  unfoldable pub count : (A → Bool) → List A → ℕ
  count p [] = 0
  count p (x ∷ xs) = if p x then suc (count p xs) else count p xs

  unfoldable pub insert_by : (A → ℕ) → A → List A → List A
  insert_by f x [] = x ∷ []
  insert_by f x (y ∷ ys) =
      let rest = insert_by f x ys in if leb (f x) (f y) then x ∷ y ∷ ys else y ∷ rest

  -- sorted(xs, key=f): of elements with the same key, the first stays first.
  unfoldable pub sorted : (A → ℕ) → List A → List A
  sorted f [] = []
  sorted f (x ∷ xs) = insert_by f x (sorted f xs)

  pub count-append : (p : A → Bool) (xs ys : List A) → count p (xs ++ ys) ≡ count p xs + count p ys
  unfolding count
  count-append p [] ys = omega arith
  count-append p (x ∷ xs) ys = ground (arith, count-append p xs ys)

  pub count-le : (p : A → Bool) (xs : List A) → count p xs ≤ length xs
  unfolding count
  count-le p [] = omega arith
  count-le p (x ∷ xs) = ground (arith, count-le p xs)

  count-insert_by :
      (p : A → Bool) (f : A → ℕ) (x : A) (ys : List A)
      → count p (insert_by f x ys) ≡ count p (x ∷ ys)
  unfolding count insert_by
  count-insert_by p f x [] = refl
  count-insert_by p f x (y ∷ ys) = ground (arith, count-insert_by p f x ys)

  pub count-sorted : (p : A → Bool) (f : A → ℕ) (xs : List A) → count p (sorted f xs) ≡ count p xs
  unfolding count sorted
  count-sorted p f [] = refl
  count-sorted p f (x ∷ xs) =
      ground (arith, count-insert_by p f x (sorted f xs), count-sorted p f xs)

  length-insert_by : (f : A → ℕ) (x : A) (ys : List A) → length (insert_by f x ys) ≡ suc (length ys)
  unfolding insert_by
  length-insert_by f x [] = refl
  length-insert_by f x (y ∷ ys) = ground (arith, length-insert_by f x ys)

  pub length-sorted : (f : A → ℕ) (xs : List A) → length (sorted f xs) ≡ length xs
  unfolding sorted
  length-sorted f [] = refl
  length-sorted f (x ∷ xs) = omega (arith, length-insert_by f x (sorted f xs), length-sorted f xs)

  pub All-insert_by {κ} :
      (P : A → Type κ) (f : A → ℕ) (x : A) (ys : List A) → P x → All P ys → All P (insert_by f x ys)
  unfolding insert_by
  All-insert_by P f x [] h k = (h, tt)
  All-insert_by P f x (y ∷ ys) h k = ground (arith, All-insert_by P f x ys h k.1)

  pub All-sorted {κ} : (P : A → Type κ) (f : A → ℕ) (xs : List A) → All P xs → All P (sorted f xs)
  unfolding sorted
  All-sorted P f [] h = tt
  All-sorted P f (x ∷ xs) h = All-insert_by P f x (sorted f xs) h.0 (All-sorted P f xs h.1)

  -- No element has a smaller key than one before it.
  abbrev pub IsSortedBy : (A → ℕ) → List A → Type 0
  IsSortedBy f [] = Unit
  IsSortedBy f (x ∷ xs) = All (λ y. f x ≤ f y) xs × IsSortedBy f xs

  le_trans_by :
      (f : A → ℕ) (x y : A) (ys : List A)
      → f x ≤ f y
      → All (λ z. f y ≤ f z) ys
      → All (λ z. f x ≤ f z) ys
  le_trans_by f x y ys h k = All-imp (λ z. f y ≤ f z) (λ z. f x ≤ f z) ys (λ z le. omega arith) k

  IsSortedBy-insert_by :
      (f : A → ℕ) (x : A) (ys : List A) → IsSortedBy f ys → IsSortedBy f (insert_by f x ys)
  unfolding insert_by
  IsSortedBy-insert_by f x [] h = (tt, tt)
  IsSortedBy-insert_by f x (y ∷ ys) h = elim (Bool-cases (leb (f x) (f y))) [
    | inl e ↦ rw e (((leb→le (f x) (f y) e), le_trans_by f x y ys (leb→le (f x) (f y) e) h.0), h)
    | inr e ↦
        rw e (
          All-insert_by (λ z. f y ≤ f z) f x ys (ground arith) h.0,
          IsSortedBy-insert_by f x ys h.1,
        )
  ]

  pub sorted-IsSortedBy : (f : A → ℕ) (xs : List A) → IsSortedBy f (sorted f xs)
  unfolding sorted
  sorted-IsSortedBy f [] = tt
  sorted-IsSortedBy f (x ∷ xs) = IsSortedBy-insert_by f x (sorted f xs) (sorted-IsSortedBy f xs)
