-- ===== src/Auth/Steps.antt =====
-- Which codes are accepted when.
use cipher_post.Prelude.{
  ℕ, ◌+◌, ◌-◌, ◌/◌, ◌≤◌, ◌≡◌, refl, sym, ap, ◌∙◌, inl, inr, Bool, true, false, Option, none, some,
  List, [], ◌∷◌, ◌++◌, arith, ◌==◌, Bool-cases, Option-cases, length,
}
use cipher_post.Prelude.Bytes.{Bytes, bytes_eq, bytes_eq_refl}
use cipher_post.Prelude.Classes.{nat_eq, string_eq}
use mathlib.Core.Path.{subst}
use cipher_post.Flows.{bytes_key}
use cipher_post.Auth.Mfa.{
  value_error, type_error, Result, returns, raises, clean_code, is_ascii, truncate, padding,
  counters, hotp, totp_now, is_digits, try_counters, verify_code,
}
use cipher_post.Auth.Codes.{
  IsCode, truncate-IsCode, clean_code-digits, is_ascii-digits, is_digits-digits,
}

module _ (hmac_sha1 : Bytes → ℕ → Bytes) (b32decode : Bytes → Option Bytes) where
  -- An HMAC is twenty bytes long.
  abbrev pub HasLength : Type 0
  HasLength = (key : Bytes) (n : ℕ) → length (hmac_sha1 key n) ≡ 20

  hotp_undecoded :
      (secret : Bytes) (n : ℕ)
      → b32decode (secret ++ padding secret) ≡ none
      → hotp hmac_sha1 b32decode secret (some n) ≡ raises value_error
  unfolding hotp
  hotp_undecoded secret n e = rw (e, hotp) refl

  hotp_decoded :
      (secret key : Bytes) (n : ℕ)
      → b32decode (secret ++ padding secret) ≡ some key
      → hotp hmac_sha1 b32decode secret (some n) ≡ truncate (hmac_sha1 key n)
  unfolding hotp
  hotp_decoded secret key n e = rw (e, hotp) refl

  -- Where one code can be made, each can, and it has six digits.
  hotp-IsCode :
      (secret : Bytes) (n m : ℕ) (c : Bytes)
      → HasLength
      → hotp hmac_sha1 b32decode secret (some n) ≡ returns c
      → (d : Bytes) × (hotp hmac_sha1 b32decode secret (some m) ≡ returns d) × IsCode d
  hotp-IsCode secret n m c h e = elim (Option-cases (b32decode (secret ++ padding secret))) [
    | inl f ↦ absurd (cc (e, hotp_undecoded secret n f))
    | inr (key, f) ↦
        let (d, t, i) = truncate-IsCode (hmac_sha1 key m) (h key m) in
        (d, hotp_decoded secret key m f ∙ t, i)
  ]

  module _ (other_digit : ℕ → Bool) where
    abbrev tries : Bytes → Bytes → List (Option ℕ) → Result Bool
    tries secret c ks = try_counters hmac_sha1 b32decode other_digit secret c ks

    try_hit :
        (secret c : Bytes) (k : Option ℕ) (ks : List (Option ℕ))
        → IsCode c
        → hotp hmac_sha1 b32decode secret k ≡ returns c
        → tries secret c (k ∷ ks) ≡ returns true
    unfolding try_counters
    try_hit secret c k ks i e = rw (e, is_ascii-digits c i.1, bytes_eq_refl c) refl

    try_next :
        (secret c d : Bytes) (k : Option ℕ) (ks : List (Option ℕ))
        → IsCode c
        → hotp hmac_sha1 b32decode secret k ≡ returns d
        → tries secret c ks ≡ returns true
        → tries secret c (k ∷ ks) ≡ returns true
    unfolding try_counters
    try_next secret c d k ks i e h =
        rw (e, is_ascii-digits c i.1)
          (elim (Bool-cases (bytes_eq d c)) [ inl f ↦ rw f refl | inr f ↦ rw f h ])

    verify_tries :
        (secret c : Bytes) (at : ℕ)
        → IsCode c
        → verify_code hmac_sha1 b32decode other_digit secret c at
          ≡ tries secret c (counters (at / 30))
    unfolding verify_code
    verify_tries secret c at i =
        rw (clean_code-digits c i.1, i.0, is_digits-digits other_digit c i.1) refl

    tries_three :
        (secret c : Bytes) (n base : ℕ)
        → HasLength
        → IsCode c
        → hotp hmac_sha1 b32decode secret (some n) ≡ returns c
        → 1 ≤ base
        → base ≤ n + 1
        → n ≤ base + 1
        → tries secret c (counters base) ≡ returns true
    tries_three secret c n base h i e one up down =
        let returned : (m : ℕ)
            → (d : Bytes) × (hotp hmac_sha1 b32decode secret (some m) ≡ returns d) × IsCode d =
          λ m. hotp-IsCode secret n m c h e in
        let hit : (m : ℕ) (ks : List (Option ℕ))
            → n ≡ m
            → tries secret c (some m ∷ ks) ≡ returns true =
          λ m ks same.
            try_hit secret c (some m) ks i
              (ap (λ k. hotp hmac_sha1 b32decode secret (some k)) (sym same) ∙ e) in
        let next : (m : ℕ) (ks : List (Option ℕ))
            → tries secret c ks ≡ returns true
            → tries secret c (some m ∷ ks) ≡ returns true =
          λ m ks. try_next secret c (returned m).0 (some m) ks i (returned m).1 in
        let later : List (Option ℕ) = some base ∷ some (base + 1) ∷ [] in
        let positive : (base == 0) ≡ false = ground (arith, one) in
        rw positive (elim (Bool-cases (n == base - 1)) [
          | inl f ↦ hit (base - 1) later (ground (arith, f))
          | inr f ↦ next (base - 1) later (elim (Bool-cases (n == base)) [
            | inl g ↦ hit base (some (base + 1) ∷ []) (ground (arith, g))
            | inr g ↦
                next base (some (base + 1) ∷ [])
                  (hit (base + 1) [] (ground (arith, f, g, up, down)))
          ])
        ])

    -- The code that an authenticator shows is six digits and is accepted in its own step of thirty
    -- seconds, in the one before and in the one after, except in the first step of the epoch.
    pub verify_code-totp_now :
        (secret c : Bytes) (at later : ℕ)
        → HasLength
        → totp_now hmac_sha1 b32decode secret at ≡ returns c
        → 30 ≤ later
        → later / 30 ≤ at / 30 + 1
        → at / 30 ≤ later / 30 + 1
        → (length c ≡ 6)
          × (verify_code hmac_sha1 b32decode other_digit secret c later ≡ returns true)
    verify_code-totp_now secret c at later h e first up down =
        let (d, t, i) = hotp-IsCode secret (at / 30) (at / 30) c h e in
        let same : d ≡ c = cc (e, t) in
        let code : IsCode c = subst IsCode same i in
        (
          code.0,
          verify_tries secret c later code
              ∙ tries_three secret c (at / 30) (later / 30) h code e (omega (arith, first)) up down,
        )

    -- Six digits of another script pass the test of the code, and then its comparison raises.
    pub verify_code-type_error :
        (secret code c : Bytes) (at : ℕ)
        → HasLength
        → totp_now hmac_sha1 b32decode secret at ≡ returns c
        → 30 ≤ at
        → length (clean_code code) ≡ 6
        → is_digits other_digit (clean_code code) ≡ true
        → is_ascii (clean_code code) ≡ false
        → verify_code hmac_sha1 b32decode other_digit secret code at ≡ raises type_error
    unfolding verify_code try_counters
    verify_code-type_error secret code c at h e first six digits other =
        let (d, t, _) = hotp-IsCode secret (at / 30) (at / 30 - 1) c h e in
        let one : 1 ≤ at / 30 = omega (arith, first) in
        let positive : (at / 30 == 0) ≡ false = ground (arith, one) in
        rw (six, digits, positive, t, other) refl
