-- ===== src/Auth/Mfa.antt =====
-- The second factor of a login: backend/app/core/mfa.py, and mfa_verify of backend/app/api/main.py. The
-- HMAC, the hash, the base-32 reader, the unwrapping of secrets and the digits of str.isdigit beyond
-- ASCII are parameters; what Redis answers is an argument. Times are whole seconds.
use cipher_post.Prelude.{
  ℕ, ◌+◌, ◌-◌, ◌*◌, ◌/◌, ◌%◌, ◌^◌, Bool, true, false, not, ◌&&◌, Option, none, some, List, [], ◌∷◌,
  ◌++◌, map, ltb, leb, ◌==◌, if◌then◌else◌, length, take, drop,
}
use cipher_post.Prelude.Bytes.{Bytes, codes, bytes_eq}
use cipher_post.Prelude.Classes.{nat_eq, string_eq}
use cipher_post.Prelude.Text.{decimal, pad}
use cipher_post.Flows.{bytes_key, lstrip, rstrip}

pub data Raised : Type 0 where
  value_error struct_error type_error : Raised

pub data Result (A : Type 0) : Type 0 where
  returns : A → Result A
  raises : Raised → Result A

infixl 5 ◌>>=◌
abbrev pub ◌>>=◌ : {A B : Type 0} → Result A → (A → Result B) → Result B
returns a >>= f = f a
raises e >>= f = raises e

-- code.replace(" ", "")
unfoldable pub drop_spaces : Bytes → Bytes
drop_spaces [] = []
drop_spaces (c ∷ cs) = let rest = drop_spaces cs in if c == 32 then rest else c ∷ rest

-- (code or "").strip().replace(" ", "")
abbrev pub clean_code : Bytes → Bytes
clean_code code = drop_spaces (rstrip (lstrip code))

unfoldable pub is_ascii : Bytes → Bool
is_ascii [] = true
is_ascii (c ∷ cs) = ltb c 128 && is_ascii cs

-- struct.unpack(">I", bs)[0]; `none` unless there are four bytes
unfoldable pub unpack : Bytes → Option ℕ
unpack (a ∷ b ∷ c ∷ d ∷ []) = some (((a * 256 + b) * 256 + c) * 256 + d)
unpack bs = none

-- text.zfill(n), of text without a sign
abbrev pub zfill : ℕ → Bytes → Bytes
zfill n text = pad (n - length text) text

-- digest[-1]
abbrev pub last_byte : Bytes → ℕ
last_byte [] = 0
last_byte (b ∷ []) = b
last_byte (b ∷ c ∷ bs) = last_byte (c ∷ bs)

-- The code in a digest.
unfoldable pub truncate : Bytes → Result Bytes
unfolding unpack decimal pad
truncate digest = elim (unpack (take 4 (drop (last_byte digest % 16) digest))) [
  | none ↦ raises struct_error
  | some n ↦ returns (zfill 6 (decimal (n % 2 ^ 31 % 10 ^ 6)))
]

-- "=" * (-len(secret) % 8)
abbrev pub padding : Bytes → Bytes
padding secret = map (λ _. 61) (take ((8 - length secret % 8) % 8) (codes "========"))

-- The counter base + delta for each delta from -1 to 1; `none` is a negative one.
abbrev pub counters : ℕ → List (Option ℕ)
counters base = (if base == 0 then none else some (base - 1)) ∷ some base ∷ some (base + 1) ∷ []

-- str.isdigit, of text that is not empty
unfoldable pub is_digits : (ℕ → Bool) → Bytes → Bool
is_digits other_digit [] = true
is_digits other_digit (c ∷ cs) =
    (if ltb c 128 then leb 48 c && leb c 57 else other_digit c) && is_digits other_digit cs

module _ (hmac_sha1 : Bytes → ℕ → Bytes) (b32decode : Bytes → Option Bytes) where
  -- struct.pack raises for a negative counter.
  unfoldable pub hotp : Bytes → Option ℕ → Result Bytes
  unfolding truncate
  hotp secret counter = elim (b32decode (secret ++ padding secret)) [
    | none ↦ raises value_error
    | some key ↦ elim counter [ none ↦ raises struct_error | some n ↦ truncate (hmac_sha1 key n) ]
  ]

  abbrev pub totp_now : Bytes → ℕ → Result Bytes
  totp_now secret at = hotp secret (some (at / 30))

  module _ (other_digit : ℕ → Bool) where
    -- The loop of `verify_code`. hmac.compare_digest raises for text beyond ASCII.
    unfoldable pub try_counters : Bytes → Bytes → List (Option ℕ) → Result Bool
    unfolding hotp is_ascii
    try_counters secret code [] = returns false
    try_counters secret code (k ∷ ks) =
        let rest = try_counters secret code ks in
        hotp secret k >>= λ h.
        if not (is_ascii code)
        then raises type_error
        else if bytes_eq h code
        then returns true
        else rest

    unfoldable pub verify_code : Bytes → Bytes → ℕ → Result Bool
    unfolding try_counters is_digits drop_spaces lstrip rstrip
    verify_code secret text at =
        let code = clean_code text in
        if length code == 6 && is_digits other_digit code
        then try_counters secret code (counters (at / 30))
        else returns false
