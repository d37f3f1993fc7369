-- ===== src/Handshake/Grease.antt =====
-- Which values `is_grease` takes for GREASE, and that the post-quantum status passes over them.
use cipher_post.Prelude.{
  ℕ, zero, suc, ◌+◌, ◌*◌, ◌%◌, ◌<◌, ◌≡◌, refl, sym, ◌↔◌, inl, inr, Bool, true, false, not, ◌&&◌,
  Option, List, [], ◌∷◌, ◌++◌, arith, ◌==◌, Bool-cases,
}
use cipher_post.Prelude.Classes.{nat_eq, string_eq}
use cipher_post.Handshake.Groups.{is_grease, strip_grease, pq_status}

all_below : ℕ → (ℕ → Bool) → Bool
all_below zero test = true
all_below (suc n) test = test n && all_below n test

all_below_sound :
    (n : ℕ) (test : ℕ → Bool) → all_below n test ≡ true → (i : ℕ) → i < n → test i ≡ true
unfolding all_below
all_below_sound zero test h i small = absurd (omega arith)
all_below_sound (suc n) test h i small = elim (Bool-cases (i == n)) [
  | inl e ↦ ground (arith)
  | inr e ↦ all_below_sound n test (ground arith) i (ground arith)
]

same_bool : Bool → Bool → Bool
same_bool true b = b
same_bool false b = not b

-- The test on one value of two bytes: both bytes end in the digit A.
as_nibbles : ℕ → ℕ → Bool
unfolding is_grease same_bool
as_nibbles hi lo = same_bool (is_grease (256 * hi + lo)) (hi % 16 == 10 && lo % 16 == 10)

table : all_below 256 (λ hi. all_below 256 (λ lo. as_nibbles hi lo)) ≡ true
unfolding all_below as_nibbles
table = refl

same_bool→eq : (a b : Bool) → same_bool a b ≡ true → a ≡ b
unfolding same_bool
same_bool→eq true true h = refl
same_bool→eq true false h = sym h
same_bool→eq false true h = h
same_bool→eq false false h = refl

entry :
    (hi lo : ℕ) → hi < 256 → lo < 256 → is_grease (256 * hi + lo) ≡ (hi % 16 == 10 && lo % 16 == 10)
entry hi lo h l =
    let row : all_below 256 (as_nibbles hi) ≡ true =
      all_below_sound 256 (λ n. all_below 256 (as_nibbles n)) table hi h in
    let cell : as_nibbles hi lo ≡ true = all_below_sound 256 (as_nibbles hi) row lo l in
    same_bool→eq (is_grease (256 * hi + lo)) (hi % 16 == 10 && lo % 16 == 10)
      (unfold as_nibbles in cell)

-- A value of two bytes counts as GREASE exactly if both its bytes end in the hexadecimal digit A;
-- the two bytes need not be the same, as they are in RFC 8701.
pub is_grease-nibbles :
    (hi lo : ℕ)
    → hi < 256
    → lo < 256
    → (is_grease (256 * hi + lo) ≡ true) ↔ ((hi % 16 ≡ 10) × (lo % 16 ≡ 10))
is_grease-nibbles hi lo h l = rw (entry hi lo h l) (λ e. ground arith, λ p. ground arith)

strip_grease-skip :
    (before after : List ℕ) (v : ℕ)
    → is_grease v ≡ true
    → strip_grease (before ++ v ∷ after) ≡ strip_grease (before ++ after)
unfolding strip_grease
strip_grease-skip [] after v h = rw (h)
strip_grease-skip (b ∷ before) after v h = rw (strip_grease-skip before after v h)

-- A GREASE value among the offered groups changes nothing in the post-quantum status, whatever else
-- is offered and selected.
pub pq_status-grease :
    (before after : List ℕ) (v : ℕ) (selected : Option ℕ)
    → is_grease v ≡ true
    → pq_status (before ++ v ∷ after) selected ≡ pq_status (before ++ after) selected
unfolding pq_status
pq_status-grease before after v selected h = rw (strip_grease-skip before after v h)
