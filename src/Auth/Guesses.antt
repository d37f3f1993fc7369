-- ===== src/Auth/Guesses.antt =====
-- How often codes are checked, and how often recovery codes are accepted.
use cipher_post.Prelude.{
  ℕ, ◌+◌, ◌≤◌, ◌<◌, ◌≡◌, refl, sym, ap, ◌∙◌, inl, inr, Bool, true, false, none, some, List, [], ◌∷◌,
  ◌++◌, arith, if◌then◌else◌, Bool-cases, Option-cases, length, length-append,
}
use cipher_post.Prelude.Bytes.{Bytes, codes, bytes_eq, bytes_eq→eq}
use cipher_post.Prelude.Classes.{nat_eq, string_eq}
use cipher_post.Prelude.Dict.{get, get-put_self}
use mathlib.Core.Path.{subst}
use cipher_post.Prelude.Sort.{count}
use cipher_post.Flows.{bytes_key}
use cipher_post.Auth.{times_of, in_window}
use cipher_post.Auth.Lockout.{in_window-append, in_window-in_window, in_window_now}
use cipher_post.Auth.MfaVerify.{
  remove_one, Failures, mfa_locked, record_mfa_failure, hash_recovery_code, consume_recovery_code,
}

in_window_shrinks :
    (start now : ℕ) (ts : List ℕ)
    → start ≤ now
    → length (in_window now ts) ≤ length (in_window start ts)
unfolding in_window
in_window_shrinks start now [] h = omega arith
in_window_shrinks start now (t ∷ ts) h = ground (arith, h, in_window_shrinks start now ts h)

module _ (key : Bytes) where
  -- The times at which a wrong code was checked, if one is tried at each of these times: a locked
  -- account is refused before the check.
  abbrev pub checked : List ℕ → List ℕ → Failures → List ℕ
  checked past [] failures = past
  checked past (now ∷ times) failures = elim (mfa_locked none key now failures) [
    | true ↦ checked past times failures
    | false ↦ checked (past ++ now ∷ []) times (record_mfa_failure false key now failures)
  ]

  -- The times do not decrease, from the first to the last.
  abbrev pub IsOrdered : ℕ → List ℕ → ℕ → Type 0
  IsOrdered first [] last = first ≤ last
  IsOrdered first (t ∷ ts) last = (first ≤ t) × IsOrdered t ts last

  -- From `start` on, the memory knows what was checked within the window, five times at most.
  record IsKnown (start : ℕ) (past : List ℕ) (failures : Failures) : Type 0 where
    windows :
        (now : ℕ) → start ≤ now → in_window now (times_of (get key failures)) ≡ in_window now past
    few : (now : ℕ) → start ≤ now → length (in_window now past) ≤ 5

  IsKnown-failure :
      (start now : ℕ) (past : List ℕ) (failures : Failures)
      → start ≤ now
      → mfa_locked none key now failures ≡ false
      → IsKnown start past failures
      → IsKnown now (past ++ now ∷ []) (record_mfa_failure false key now failures)
  unfolding mfa_locked record_mfa_failure
  IsKnown-failure start now past failures le e k =
      let hits : List ℕ = in_window now (times_of (get key failures)) ++ now ∷ [] in
      let all : List ℕ = past ++ now ∷ [] in
      let same : hits ≡ in_window now all =
        ap (λ ts. ts ++ now ∷ []) (k.windows now le)
        ∙ ap (λ ts. in_window now past ++ ts) (sym (in_window_now now))
        ∙ sym (in_window-append now past (now ∷ [])) in
      let unlocked : length (in_window now past) < 5 =
        ground (arith, e, ap (λ ts. length ts) (k.windows now le)) in
      record {
        windows = λ t later.
            ap (λ o. in_window t (times_of o)) (get-put_self key hits failures)
            ∙ ap (λ ts. in_window t ts) same
            ∙ in_window-in_window now t all later;
        few = λ t later. omega (
          arith,
          unlocked,
          ap (λ ts. length ts) (in_window-append t past (now ∷ [])),
          length-append (in_window t past) (in_window t (now ∷ [])),
          in_window_shrinks now t past later,
          in_window_shrinks now t (now ∷ []) later,
          ap (λ ts. length ts) (in_window_now now),
        );
      }

  checked-few :
      (start last : ℕ) (past times : List ℕ) (failures : Failures)
      → IsOrdered start times last
      → IsKnown start past failures
      → length (in_window last (checked past times failures)) ≤ 5
  checked-few start last past [] failures o k = k.few last o
  checked-few start last past (now ∷ times) failures o k =
      elim (Bool-cases (mfa_locked none key now failures)) [
        | inl e ↦
            rw (e, checked)
              (checked-few now last past times failures o.1 (record {
                windows = λ t le. k.windows t (omega (arith, le, o.0));
                few = λ t le. k.few t (omega (arith, le, o.0));
              }))
        | inr e ↦
            rw (e, checked)
              (checked-few now last (past ++ now ∷ []) times
                (record_mfa_failure false key now failures) o.1
                (IsKnown-failure start now past failures o.0 e k))
      ]

  -- However often wrong codes are tried while Redis is away, in the order of the times, no more than
  -- five of them have been checked in the five minutes before any later moment.
  pub guesses_bounded :
      (times : List ℕ) (last : ℕ)
      → IsOrdered 0 times last
      → length (in_window last (checked [] times [])) ≤ 5
  unfolding get in_window
  guesses_bounded times last o =
      checked-few 0 last [] times [] o
        (record { windows = λ t le. refl; few = λ t le. omega arith })

module _ (sha256 : Bytes → Bytes) where
  abbrev pub is_hash : Bytes → Bytes → Bool
  is_hash w h = bytes_eq h w

  -- How often codes with this hash are accepted, and the hashes that are left.
  abbrev pub accepted_codes : Bytes → List Bytes → List Bytes → ℕ
  accepted_codes w [] stored = 0
  accepted_codes w (code ∷ codes) stored = elim (consume_recovery_code sha256 stored code) [
    | none ↦ accepted_codes w codes stored
    | some left ↦
        (if bytes_eq (hash_recovery_code sha256 code) w then 1 else 0) + accepted_codes w codes left
  ]

  abbrev pub left_codes : List Bytes → List Bytes → List Bytes
  left_codes [] stored = stored
  left_codes (code ∷ codes) stored = elim (consume_recovery_code sha256 stored code) [
    | none ↦ left_codes codes stored
    | some left ↦ left_codes codes left
  ]

  count-remove_one :
      (want w : Bytes) (hs left : List Bytes)
      → remove_one want hs ≡ some left
      → count (is_hash w) hs ≡ (if bytes_eq want w then 1 else 0) + count (is_hash w) left
  unfolding remove_one count
  count-remove_one want w [] left e = absurd (ground (arith, e))
  count-remove_one want w (h ∷ hs) left e = elim (Bool-cases (bytes_eq h want)) [
    | inl f ↦ ground (arith, e, bytes_eq→eq h want f)
    | inr f ↦ elim (Option-cases (remove_one want hs)) [
      | inl g ↦ absurd (ground (arith, e, f, g))
      | inr (l, g) ↦
          let same : h ∷ l ≡ left = ground (arith, e, f, g) in
          subst
            (λ k.
              count (is_hash w) (h ∷ hs) ≡ (if bytes_eq want w then 1 else 0) + count (is_hash w) k)
            same (ground (arith, count-remove_one want w hs l g))
    ]
  ]

  -- A recovery code is used up by being accepted: over any attempts, the acceptances of codes with
  -- one hash and the entries with that hash that are left are together those that were stored.
  pub accepted_codes-count :
      (w : Bytes) (codes stored : List Bytes)
      → accepted_codes w codes stored + count (is_hash w) (left_codes codes stored)
        ≡ count (is_hash w) stored
  accepted_codes-count w [] stored = omega arith
  accepted_codes-count w (code ∷ codes) stored =
      elim (Option-cases (consume_recovery_code sha256 stored code)) [
        | inl e ↦ rw (e, accepted_codes, left_codes) (accepted_codes-count w codes stored)
        | inr (left, e) ↦
            let taken : count (is_hash w) stored
                ≡ (if bytes_eq (hash_recovery_code sha256 code) w then 1 else 0)
                  + count (is_hash w) left =
              count-remove_one (hash_recovery_code sha256 code) w stored left
                (unfold consume_recovery_code in e) in
            rw (e, accepted_codes, left_codes)
              (omega (arith, taken, accepted_codes-count w codes left))
      ]
