-- ===== src/Prelude/Bytes.antt =====
-- Python's `bytes`, as lists of numbers, and the operations on them that the program uses.
use Prim.Native.Char.{code}
use Prim.Native.String.{String}
use mathlib.Core.Path.{◌≡◌, refl, ap}
use mathlib.Core.Bool.{Bool, true, false, ◌&&◌}
use mathlib.Core.Logic.{inl, inr}
use mathlib.Core.Option.{Option, none, some}
use mathlib.Core.List.{List, [], ◌∷◌, ◌++◌}
use native.Mathlib.Omega.{arith}
use Prim.Native.Nat.{ℕ, suc, ◌<◌, ◌+◌, ◌-◌}
use cipher_post.Prelude.Tests.{◌==◌, leb, if◌then◌else◌, Bool-cases}
use cipher_post.Prelude.Lists.{All, length, drop}

abbrev pub Bytes : Type 0
Bytes = List ℕ

-- What a `bytes` object guarantees of its items.
abbrev pub IsBytes : Bytes → Type 0
IsBytes = All (λ b. b < 256)

-- The code points of a literal: its bytes, since the literals of the program are ASCII.
abbrev pub codes : String → Bytes
codes String.[] = []
codes (String.◌∷◌ c s) = code c ∷ codes s

-- xs == ys
unfoldable pub bytes_eq : Bytes → Bytes → Bool
bytes_eq [] [] = true
bytes_eq (x ∷ xs) (y ∷ ys) = x == y && bytes_eq xs ys
bytes_eq _ _ = false

pub bytes_eq_refl : (xs : Bytes) → bytes_eq xs xs ≡ true
unfolding bytes_eq
bytes_eq_refl [] = refl
bytes_eq_refl (x ∷ xs) = ground (arith, bytes_eq_refl xs)

pub bytes_eq→eq : (xs ys : Bytes) → bytes_eq xs ys ≡ true → xs ≡ ys
unfolding bytes_eq
bytes_eq→eq [] [] h = refl
bytes_eq→eq [] (y ∷ ys) h = ground arith
bytes_eq→eq (x ∷ xs) [] h = ground arith
bytes_eq→eq (x ∷ xs) (y ∷ ys) h = ground (arith, bytes_eq→eq xs ys)

-- bs.startswith(sub)
unfoldable pub starts_with : Bytes → Bytes → Bool
starts_with [] bs = true
starts_with (x ∷ sub) [] = false
starts_with (x ∷ sub) (y ∷ bs) = x == y && starts_with sub bs

-- The least position, from `pos` on, at which `sub` stands in `bs`, whose first byte has position
-- `pos`. `none` is Python's -1.
unfoldable pub find_at : Bytes → ℕ → Bytes → Option ℕ
find_at sub pos [] = if starts_with sub [] then some pos else none
find_at sub pos (b ∷ bs) =
    let rest = find_at sub (suc pos) bs in if starts_with sub (b ∷ bs) then some pos else rest

-- bs.find(sub)
unfoldable pub find : Bytes → Bytes → Option ℕ
find sub bs = find_at sub 0 bs

-- bs.find(sub, start)
unfoldable pub find_from : Bytes → Bytes → ℕ → Option ℕ
find_from sub bs start = find_at sub start (drop start bs)

-- sub in bs
unfoldable pub contains : Bytes → Bytes → Bool
contains sub bs = elim (find sub bs) [ none ↦ false | some i ↦ true ]

-- bs.upper(), which changes ASCII letters only
unfoldable pub upper_byte : ℕ → ℕ
upper_byte b = if leb b'a' b && leb b b'z' then b - 32 else b

pub starts_with-append :
    (sub bs : Bytes) → starts_with sub bs ≡ true → (post : Bytes) × (bs ≡ sub ++ post)
unfolding starts_with
starts_with-append [] bs h = (bs, refl)
starts_with-append (x ∷ sub) [] h = cc
starts_with-append (x ∷ sub) (y ∷ bs) h =
    let (post, e) = starts_with-append sub bs (ground arith) in (post, ground arith)

-- `sub` stands in `bs` behind `pre`.
pub record Occurs (sub bs pre : Bytes) : Type 0 where
  pub post : Bytes
  pub same : bs ≡ pre ++ sub ++ post

pub find_at-Occurs :
    (sub : Bytes) (pos : ℕ) (bs : Bytes) (i : ℕ)
    → find_at sub pos bs ≡ some i
    → (pre : Bytes) × Occurs sub bs pre × (i ≡ pos + length pre)
unfolding find_at
find_at-Occurs sub pos [] i h = elim (Bool-cases (starts_with sub [])) [
  | inl e ↦ (
    [],
    record { post = (starts_with-append sub [] e).0; same = (starts_with-append sub [] e).1 },
    ground arith,
  )
  | inr e ↦ ground arith
]
find_at-Occurs sub pos (b ∷ bs) i h = elim (Bool-cases (starts_with sub (b ∷ bs))) [
  | inl e ↦ (
    [],
    record {
      post = (starts_with-append sub (b ∷ bs) e).0;
      same = (starts_with-append sub (b ∷ bs) e).1;
    },
    ground arith,
  )
  | inr e ↦
      let (pre, o, k) = find_at-Occurs sub (suc pos) bs i (rw e at h) in
      (b ∷ pre, record { post = o.post; same = ap (λ r. b ∷ r) o.same }, omega (arith, k))
]
