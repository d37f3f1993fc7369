-- ===== src/Prelude/Removal.antt =====
-- Membership by an equality test, and what is left of a dictionary once some keys are removed.
use Prim.Native.Nat.{ℕ, ◌+◌, ◌-◌, ◌≤◌}
use mathlib.Core.Path.{◌≡◌, refl, sym, ap, ◌∙◌}
use mathlib.Core.Logic.{◌⊎◌, inl, inr}
use mathlib.Core.Bool.{Bool, true, false, not, ◌||◌}
use mathlib.Core.List.{List, [], ◌∷◌, map}
use native.Mathlib.Omega.{arith}
use cipher_post.Prelude.Tests.{Bool-cases}
use cipher_post.Prelude.Lists.{length, take, drop, take-append-drop, length-drop, All, All-imp}
use cipher_post.Prelude.Classes.{Eq, eqb, eqb_refl}
use cipher_post.Prelude.Dict.{Dict, pop}
use cipher_post.Prelude.Sort.{count, sorted, count-append, count-le, count-sorted, length-sorted}

module _ {ℓ} {A : Type ℓ} where
  pub count-none : (p : A → Bool) (xs : List A) → All (λ x. p x ≡ false) xs → count p xs ≡ 0
  unfolding count
  count-none p [] h = refl
  count-none p (x ∷ xs) h = ground (arith, count-none p xs)

  -- If a test holds of the first `n` in order, it fails for `length xs - n` at most.
  pub count-taken :
      (q : A → Bool) (f : A → ℕ) (n : ℕ) (xs : List A)
      → All (λ x. q x ≡ true) (take n (sorted f xs))
      → count (λ x. not (q x)) xs ≤ length xs - n
  count-taken q f n xs h =
      let p : A → Bool = λ x. not (q x) in
      let ks : List A = take n (sorted f xs) in
      let inside : count p ks ≡ 0 =
        count-none p ks (All-imp (λ x. q x ≡ true) (λ x. p x ≡ false) ks (λ x e. ap not e) h) in
      let split : count p (sorted f xs) ≡ count p ks + count p (drop n (sorted f xs)) =
        sym (ap (λ l. count p l) (take-append-drop n (sorted f xs)))
        ∙ count-append p ks (drop n (sorted f xs)) in
      omega (
        arith,
        inside,
        split,
        count-sorted p f xs,
        count-le p (drop n (sorted f xs)),
        length-drop n (sorted f xs),
        length-sorted f xs,
      )

module _ {ℓ} {K : Type ℓ} ⦃e : Eq K⦄ where
  unfoldable pub member : K → List K → Bool
  member x [] = false
  member x (k ∷ ks) = eqb x k || member x ks

  pub All-member : (ks : List K) → All (λ x. member x ks ≡ true) ks
  unfolding member
  All-member [] = tt
  All-member (k ∷ ks) = (
    ground (arith, eqb_refl k),
    All-imp (λ x. member x ks ≡ true) (λ x. (eqb x k || member x ks) ≡ true) ks
        (λ x h. ground arith) (All-member ks),
  )

  -- Of the elements that are none of the first `n` in order, there are `length xs - n` at most.
  pub count-outside :
      (f : K → ℕ) (n : ℕ) (xs : List K)
      → count (λ x. not (member x (take n (sorted f xs)))) xs ≤ length xs - n
  count-outside f n xs =
      count-taken (λ x. member x (take n (sorted f xs))) f n xs (All-member (take n (sorted f xs)))

module _ {ℓ κ} {K : Type ℓ} {V : Type κ} ⦃e : Eq K⦄ where
  -- The keys are popped one after the other.
  unfoldable pub remove : List K → Dict K V → Dict K V
  remove [] d = d
  remove (k ∷ ks) d = remove ks (pop k d)

  pop-left {μ} :
      (Q : K × V → Type μ) (k : K) (ks : List K) (d : Dict K V)
      → All (λ e. Q e ⊎ (member e.0 (k ∷ ks) ≡ true)) d
      → All (λ e. Q e ⊎ (member e.0 ks ≡ true)) (pop k d)
  unfolding pop member
  pop-left Q k ks [] h = tt
  pop-left Q k ks ((j, w) ∷ d) h = elim (Bool-cases (eqb j k)) [
    | inl e ↦ rw e (pop-left Q k ks d h.1)
    | inr e ↦ rw e (outside e h.0, pop-left Q k ks d h.1)
  ]
    where
      outside :
          eqb j k ≡ false
          → Q (j, w) ⊎ ((eqb j k || member j ks) ≡ true)
          → Q (j, w) ⊎ (member j ks ≡ true)
      outside ne (inl q) = inl q
      outside ne (inr m) = inr (ground arith)

  pub All-remove {μ} :
      (Q : K × V → Type μ) (ks : List K) (d : Dict K V)
      → All (λ e. Q e ⊎ (member e.0 ks ≡ true)) d
      → All Q (remove ks d)
  unfolding remove member
  All-remove Q [] d h =
      All-imp (λ e. Q e ⊎ (false ≡ true)) Q d
        (λ e q. elim q [ inl x ↦ x | inr x ↦ absurd (ground arith) ]) h
  All-remove Q (k ∷ ks) d h = All-remove Q ks (pop k d) (pop-left Q k ks d h)

  count-pop :
      (q : K → Bool) (k : K) (d : Dict K V)
      → count (λ e. not (q e.0)) (pop k d) ≡ count (λ e. not (eqb e.0 k || q e.0)) d
  unfolding count pop
  count-pop q k [] = refl
  count-pop q k ((j, w) ∷ d) = ground (arith, count-pop q k d)

  count_all : (d : Dict K V) → length d ≡ count (λ e. not false) d
  unfolding count
  count_all [] = refl
  count_all (x ∷ d) = omega (arith, count_all d)

  pub length-remove :
      (ks : List K) (d : Dict K V) → length (remove ks d) ≡ count (λ e. not (member e.0 ks)) d
  unfolding remove member
  length-remove [] d = count_all d
  length-remove (k ∷ ks) d = length-remove ks (pop k d) ∙ count-pop (λ j. member j ks) k d

  pub count-keys : (p : K → Bool) (d : Dict K V) → count p (map (λ e. e.0) d) ≡ count (λ e. p e.0) d
  unfolding count
  count-keys p [] = refl
  count-keys p (x ∷ d) = ground (arith, count-keys p d)

  member-keys : (xs : List (K × V)) → All (λ e. member e.0 (map (λ e. e.0) xs) ≡ true) xs
  member-keys xs = All-keys xs (map (λ e. e.0) xs) (All-member (map (λ e. e.0) xs))
    where
      All-keys :
          (xs : List (K × V)) (ks : List K)
          → All (λ k. member k ks ≡ true) (map (λ e. e.0) xs)
          → All (λ e. member e.0 ks ≡ true) xs
      All-keys [] ks h = tt
      All-keys (x ∷ xs) ks h = (h.0, All-keys xs ks h.1)

  -- Removing the keys of the first `n` entries in order leaves `length d - n` entries at most.
  pub length-remove_first :
      (f : K × V → ℕ) (n : ℕ) (d : Dict K V)
      → length (remove (map (λ e. e.0) (take n (sorted f d))) d) ≤ length d - n
  length-remove_first f n d =
      let ks : List K = map (λ e. e.0) (take n (sorted f d)) in
      omega (
        arith,
        length-remove ks d,
        count-taken (λ e. member e.0 ks) f n d (member-keys (take n (sorted f d))),
      )
