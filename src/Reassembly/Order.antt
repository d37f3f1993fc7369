-- ===== src/Reassembly/Order.antt =====
-- Reassembly is complete: the pieces of a stream, in any order and any number of times, give the
-- stream.
use cipher_post.Prelude.{
  ℕ, ◌+◌, ◌≤◌, ◌<◌, ◌≡◌, refl, sym, ap, ◌∙◌, ◌⊎◌, inl, inr, Option, none, some, List, [], ◌∷◌, ◌++◌,
  append-nil, append_assoc, arith, ◌==◌, if◌then◌else◌, ==_refl, Bool-cases, length, length-append,
}
use mathlib.Core.Path.{subst}
use native.Mathlib.Nat.{add-zero, add_assoc}
use cipher_post.Prelude.Bytes.{Bytes}
use cipher_post.Prelude.Classes.{nat_eq, string_eq}
use cipher_post.Prelude.Dict.{Dict, get, pop, get-pop}
use cipher_post.Reassembly.HalfStream.{HalfStream, advance, store}

-- One packet's payload, rest it reaches `_store`.
pub record Arrival : Type 0 where
  pub seq : ℕ
  pub payload : Bytes
  pub ts : ℕ

abbrev pub store_all : HalfStream → List Arrival → HalfStream
store_all hs [] = hs
store_all hs (a ∷ rest) = store_all (store hs a.seq a.payload a.ts) rest

abbrev pub concat : List Bytes → Bytes
concat [] = []
concat (d ∷ ds) = d ++ concat ds

-- The piece that starts at `s`, where the pieces `ds` follow one another from `b` on.
abbrev pub piece_at : ℕ → List Bytes → ℕ → Option Bytes
piece_at b [] s = none
piece_at b (d ∷ ds) s = if s == b then some d else piece_at (b + length d) ds s

abbrev pub NonEmpty : Bytes → Type 0
NonEmpty d = 0 < length d

pub data Arrived (s : ℕ) (d : Bytes) : List Arrival → Type 0 where
  here : {a : Arrival} {rest : List Arrival} → a.seq ≡ s → a.payload ≡ d → Arrived s d (a ∷ rest)
  later : {a : Arrival} {rest : List Arrival} → Arrived s d rest → Arrived s d (a ∷ rest)

concat-append : (xs ys : List Bytes) → concat (xs ++ ys) ≡ concat xs ++ concat ys
concat-append [] ys = refl
concat-append (x ∷ xs) ys = rw (concat-append xs ys, append_assoc)

-- A piece lies among the first ones, or at or behind their end among the others.
pub piece_at-append :
    (b : ℕ) (xs ys : List Bytes) (s : ℕ) (d : Bytes)
    → piece_at b (xs ++ ys) s ≡ some d
    → (s + length d ≤ b + length (concat xs)) ⊎ (piece_at (b + length (concat xs)) ys s ≡ some d)
piece_at-append b [] ys s d h = inr (rw add-zero h)
piece_at-append b (x ∷ xs) ys s d h = elim (Bool-cases (s == b)) [
  | inl e ↦ inl (ground (arith, length-append x (concat xs)))
  | inr e ↦ elim (piece_at-append (b + length x) xs ys s d (rw e at h)) [
    | inl k ↦ inl (omega (arith, length-append x (concat xs)))
    | inr k ↦
        inr (rw (length-append x (concat xs), ← add_assoc b (length x) (length (concat xs))) k)
  ]
]

pub piece_at-le : (b : ℕ) (ds : List Bytes) (s : ℕ) (d : Bytes) → piece_at b ds s ≡ some d → b ≤ s
piece_at-le b [] s d h = cc
piece_at-le b (x ∷ xs) s d h = ground (arith, piece_at-le (b + length x) xs s d)

-- How far a half stream has got with the pieces `ds` that start at `b`.
pub record Progress (b : ℕ) (ds : List Bytes) (hs : HalfStream) : Type 0 where
  pub done : List Bytes
  pub todo : List Bytes
  pub whole : ds ≡ done ++ todo
  pub emitted : hs.buf ≡ concat done
  pub front : hs.frontier ≡ some (b + length (concat done))
  pub waiting :
      (s : ℕ) (d : Bytes)
      → get s hs.pending ≡ some d
      → piece_at (b + length (concat done)) todo s ≡ some d

first_piece :
    (f : ℕ) (todo : List Bytes) (d : Bytes)
    → piece_at f todo f ≡ some d
    → (rest : List Bytes) × (todo ≡ d ∷ rest)
first_piece f [] d h = cc
first_piece f (x ∷ xs) d h = (xs, ground (arith, ==_refl f))

-- With the first piece gone, what waits is among the others.
waiting_on :
    (f : ℕ) (todo rest : List Bytes) (seg : Bytes) (pending : Dict ℕ Bytes)
    → todo ≡ seg ∷ rest
    → ((s : ℕ) (d : Bytes) → get s pending ≡ some d → piece_at f todo s ≡ some d)
    → (s : ℕ) (d : Bytes) → get s (pop f pending) ≡ some d
    → piece_at (f + length seg) rest s ≡ some d
waiting_on f todo rest seg pending e w s d h =
    ground (arith, get-pop f s pending, w s d, ap (λ t. piece_at f t s) e)

module _ (b : ℕ) (ds : List Bytes) where
  pub advance-Progress :
      (hs : HalfStream) (f : ℕ) (seg : Bytes)
      → hs.frontier ≡ some f
      → get f hs.pending ≡ some seg
      → Progress b ds hs
      → Progress b ds (advance hs f seg)
  unfolding advance
  advance-Progress hs f seg at found p = record {
    done = p.done ++ seg ∷ [];
    todo = rest;
    whole = p.whole ∙ ap (λ t. p.done ++ t) e ∙ sym (append_assoc p.done (seg ∷ []) rest);
    emitted = rw (concat-append p.done (seg ∷ []), append-nil, p.emitted);
    front = ground (arith, len, same);
    waiting = λ s d h.
        subst (λ n. piece_at n rest s ≡ some d) (omega (arith, len))
          (waiting_on (b + length (concat p.done)) p.todo rest seg hs.pending e p.waiting s d
            (subst (λ n. get s (pop n hs.pending) ≡ some d) same h));
  }
    where
      same : f ≡ b + length (concat p.done)
      same = ground (arith, p.front)

      first : (rest : List Bytes) × (p.todo ≡ seg ∷ rest)
      first = first_piece (b + length (concat p.done)) p.todo seg (
          p.waiting (b + length (concat p.done)) seg
            (subst (λ n. get n hs.pending ≡ some seg) same found))

      rest : List Bytes
      rest = first.0

      e : p.todo ≡ seg ∷ rest
      e = first.1

      len : length (concat (p.done ++ seg ∷ [])) ≡ length (concat p.done) + length seg
      len = rw (concat-append p.done (seg ∷ []), append-nil) (length-append (concat p.done) seg)
