-- ===== src/Prelude/Digits.antt =====
-- How many characters numbers take, and which.
use Prim.Native.Nat.{ℕ, zero, suc, ◌+◌, ◌-◌, ◌/◌, ◌%◌, ◌≤◌, ◌<◌}
use mathlib.Core.Path.{◌≡◌, refl}
use mathlib.Core.Logic.{inl, inr}
use mathlib.Core.Bool.{Bool, true, ◌&&◌, ◌||◌}
use mathlib.Core.List.{[], ◌∷◌}
use native.Mathlib.Omega.{arith}
use cipher_post.Prelude.Tests.{ltb, leb, Bool-cases}
use cipher_post.Prelude.Lists.{length, All}
use cipher_post.Prelude.Bytes.{Bytes}
use cipher_post.Prelude.Text.{decimal, decimal_loop, decimal2, hex_digit, hex_loop, hex, hex2, pad}

abbrev pub is_alnum : ℕ → Bool
is_alnum b = (leb 48 b && leb b 57) || (leb 65 b && leb b 90) || (leb 97 b && leb b 122)

abbrev IsAlnum : ℕ → Type 0
IsAlnum c = is_alnum c ≡ true

pub length-pad : (n : ℕ) (s : Bytes) → length (pad n s) ≡ n + length s
unfolding pad
length-pad zero s = omega arith
length-pad (suc n) s = omega (arith, length-pad n s)

length-decimal_loop : (n : ℕ) → n < 100 → length (decimal_loop (suc n) n []) ≤ 2
unfolding decimal_loop
length-decimal_loop zero h = omega arith
length-decimal_loop (suc m) h = ground arith

pub length-decimal2 : (n : ℕ) → n < 100 → length (decimal2 n) ≡ 2
unfolding decimal2 decimal
length-decimal2 n h = omega (
  arith,
  length-pad (2 - length (decimal_loop (suc n) n [])) (decimal_loop (suc n) n []),
  length-decimal_loop n h,
)

hex_loop-IsAlnum : (fuel n : ℕ) (ds : Bytes) → All IsAlnum ds → All IsAlnum (hex_loop fuel n ds)
unfolding hex_loop hex_digit
hex_loop-IsAlnum zero n ds h = h
hex_loop-IsAlnum (suc fuel) n ds h = elim (Bool-cases (ltb n 16)) [
  | inl e ↦ rw e (ground arith, h)
  | inr e ↦ rw e (hex_loop-IsAlnum fuel (n / 16) (hex_digit (n % 16) ∷ ds) (ground arith, h))
]

pad-IsAlnum : (n : ℕ) (s : Bytes) → All IsAlnum s → All IsAlnum (pad n s)
unfolding pad
pad-IsAlnum zero s h = h
pad-IsAlnum (suc n) s h = (refl, pad-IsAlnum n s h)

pub hex2-IsAlnum : (n : ℕ) → All IsAlnum (hex2 n)
unfolding hex2 hex
hex2-IsAlnum n = pad-IsAlnum (2 - length (hex n)) (hex n) (hex_loop-IsAlnum (suc n) n [] tt)

pub length-hex2 : (n : ℕ) → 2 ≤ length (hex2 n)
unfolding hex2
length-hex2 n = omega (arith, length-pad (2 - length (hex n)) (hex n))
