-- ===== src/Auth/Codes.antt =====
-- Codes have six digits.
use cipher_post.Prelude.{
  ℕ, zero, suc, ◌+◌, ◌-◌, ◌*◌, ◌/◌, ◌%◌, ◌^◌, ◌≤◌, ◌<◌, ◌≡◌, refl, inl, inr, Bool, true, some, [],
  ◌∷◌, arith, ltb, Bool-cases, length, take, drop, All, length-take, length-drop,
}
use cipher_post.Prelude.Bytes.{Bytes}
use cipher_post.Prelude.Classes.{nat_eq, string_eq}
use cipher_post.Prelude.Text.{decimal, decimal_loop, pad}
use cipher_post.Prelude.Digits.{length-pad}
use cipher_post.Flows.{bytes_key, lstrip, rstrip, is_space}
use cipher_post.Auth.Mfa.{
  returns, drop_spaces, clean_code, is_ascii, unpack, zfill, last_byte, truncate, is_digits,
}

-- The number has at most so many digits.
abbrev Fits : ℕ → ℕ → Type 0
Fits zero n = ⊥
Fits (suc zero) n = n < 10
Fits (suc (suc k)) n = Fits (suc k) (n / 10)

length-decimal_loop :
    (fuel k n : ℕ) (ds : Bytes) → Fits k n → length (decimal_loop fuel n ds) ≤ k + length ds
unfolding decimal_loop
length-decimal_loop fuel zero n ds h = absurd h
length-decimal_loop zero (suc k) n ds h = omega arith
length-decimal_loop (suc fuel) (suc zero) n ds h = ground (arith, h)
length-decimal_loop (suc fuel) (suc (suc k)) n ds h =
    ground (arith, length-decimal_loop fuel (suc k) (n / 10) ((48 + n % 10) ∷ ds) h)

abbrev pub IsDigit : ℕ → Type 0
IsDigit b = (48 ≤ b) × (b ≤ 57)

decimal_loop-IsDigit :
    (fuel n : ℕ) (ds : Bytes) → All IsDigit ds → All IsDigit (decimal_loop fuel n ds)
unfolding decimal_loop
decimal_loop-IsDigit zero n ds h = h
decimal_loop-IsDigit (suc fuel) n ds h = elim (Bool-cases (ltb n 10)) [
  | inl e ↦ rw e (ground arith, h)
  | inr e ↦ rw e (decimal_loop-IsDigit fuel (n / 10) ((48 + n % 10) ∷ ds) (omega arith, h))
]

pad-IsDigit : (n : ℕ) (s : Bytes) → All IsDigit s → All IsDigit (pad n s)
unfolding pad
pad-IsDigit zero s h = h
pad-IsDigit (suc n) s h = (omega arith, pad-IsDigit n s h)

-- Six digits.
abbrev pub IsCode : Bytes → Type 0
IsCode c = (length c ≡ 6) × All IsDigit c

zfill-IsCode : (n : ℕ) → n < 1000000 → IsCode (zfill 6 (decimal n))
unfolding decimal
zfill-IsCode n h =
    let text : Bytes = decimal_loop (suc n) n [] in
    (
      omega (
        arith,
        length-pad (6 - length text) text,
        length-decimal_loop (suc n) 6 n [] (omega (arith, h)),
      ),
      pad-IsDigit (6 - length text) text (decimal_loop-IsDigit (suc n) n [] tt),
    )

unpack_four : (bs : Bytes) → length bs ≡ 4 → (n : ℕ) × (unpack bs ≡ some n)
unfolding unpack
unpack_four [] h = absurd (omega (arith, h))
unpack_four (a ∷ []) h = absurd (omega (arith, h))
unpack_four (a ∷ b ∷ []) h = absurd (omega (arith, h))
unpack_four (a ∷ b ∷ c ∷ []) h = absurd (omega (arith, h))
unpack_four (a ∷ b ∷ c ∷ d ∷ []) h = (((a * 256 + b) * 256 + c) * 256 + d, refl)
unpack_four (a ∷ b ∷ c ∷ d ∷ e ∷ bs) h = absurd (omega (arith, h))

four_left :
    (digest : Bytes)
    → length digest ≡ 20
    → length (take 4 (drop (last_byte digest % 16) digest)) ≡ 4
four_left digest h =
    let k : ℕ = last_byte digest % 16 in
    omega (arith, length-take 4 (drop k digest), length-drop k digest, h)

truncate-some :
    (digest : Bytes) (n : ℕ)
    → unpack (take 4 (drop (last_byte digest % 16) digest)) ≡ some n
    → truncate digest ≡ returns (zfill 6 (decimal (n % 2 ^ 31 % 10 ^ 6)))
unfolding truncate
truncate-some digest n e = rw (e, truncate) refl

-- A digest of twenty bytes gives a code.
pub truncate-IsCode :
    (digest : Bytes) → length digest ≡ 20 → (c : Bytes) × (truncate digest ≡ returns c) × IsCode c
truncate-IsCode digest h =
    let (n, e) = unpack_four (take 4 (drop (last_byte digest % 16) digest)) (four_left digest h) in
    (
      zfill 6 (decimal (n % 2 ^ 31 % 10 ^ 6)),
      truncate-some digest n e,
      zfill-IsCode (n % 2 ^ 31 % 10 ^ 6) (omega arith),
    )

drop_spaces-digits : (c : Bytes) → All IsDigit c → drop_spaces c ≡ c
unfolding drop_spaces
drop_spaces-digits [] h = refl
drop_spaces-digits (b ∷ bs) h = ground (arith, drop_spaces-digits bs h.1, h.0)

lstrip-digits : (c : Bytes) → All IsDigit c → lstrip c ≡ c
unfolding lstrip is_space
lstrip-digits [] h = refl
lstrip-digits (b ∷ bs) h = ground (arith, h.0)

rstrip-digits : (c : Bytes) → All IsDigit c → rstrip c ≡ c
unfolding rstrip is_space
rstrip-digits [] h = refl
rstrip-digits (b ∷ bs) h = ground (arith, rstrip-digits bs h.1, h.0)

pub clean_code-digits : (c : Bytes) → All IsDigit c → clean_code c ≡ c
clean_code-digits c h = rw (lstrip-digits c h, rstrip-digits c h) (drop_spaces-digits c h)

pub is_ascii-digits : (c : Bytes) → All IsDigit c → is_ascii c ≡ true
unfolding is_ascii
is_ascii-digits [] h = refl
is_ascii-digits (b ∷ bs) h = ground (arith, is_ascii-digits bs h.1, h.0)

pub is_digits-digits : (p : ℕ → Bool) (c : Bytes) → All IsDigit c → is_digits p c ≡ true
unfolding is_digits
is_digits-digits p [] h = refl
is_digits-digits p (b ∷ bs) h = ground (arith, is_digits-digits p bs h.1, h.0)
