-- ===== src/Auth/Tests.antt =====
-- Concrete logins and tickets.
use cipher_post.Prelude.{
  length, ℕ, Bool, true, ◌+◌, ◌≤◌, ◌≡◌, refl, false, ◌||◌, Option, none, some, List, [], ◌∷◌, arith,
}
use cipher_post.Prelude.Bytes.{Bytes, codes, bytes_eq}
use cipher_post.Prelude.Classes.{eqb, nat_eq, string_eq}
use cipher_post.Prelude.Dict.{get, put}
use cipher_post.Prelude.Removal.{member}
use cipher_post.Flows.{bytes_key}
use cipher_post.Auth.{
  no_logins, Claims, is_login_locked, is_before, in_window, consume_ticket, burn, remember,
}
use cipher_post.Auth.Lockout.{Attempt, fails, run, lock_after, IsOrderly, is_login_locked-history}
use cipher_post.Auth.Tickets.{accepted}
use cipher_post.Flows.{lstrip, rstrip, is_space}
use cipher_post.Prelude.Sort.{count}
use cipher_post.Prelude.Text.{decimal, decimal_loop, pad}
use cipher_post.Auth.Mfa.{
  returns, hotp, totp_now, truncate, unpack, verify_code, try_counters, is_digits, is_ascii,
  drop_spaces,
}
use cipher_post.Auth.Steps.{verify_code-totp_now}
use cipher_post.Auth.MfaVerify.{User, Store, Request, Answers, mfa_locked, record_mfa_failure}
use cipher_post.Auth.Guesses.{
  checked, is_hash, accepted_codes, left_codes, guesses_bounded, accepted_codes-count,
}

abbrev home : Bytes
home = codes "ip"

-- Five failures within a minute.
abbrev guesses : List Attempt
guesses =
    fails home 1000 ∷ fails home 1010 ∷ fails home 1020 ∷ fails home 1030 ∷ fails home 1040 ∷ []

other_key : eqb home (codes "user") ≡ false
unfolding bytes_eq
other_key = refl

guesses-IsOrderly : IsOrderly (codes "user") 0 guesses
guesses-IsOrderly = (
  omega arith,
  other_key,
  (
    omega arith,
    other_key,
    (omega arith, other_key, (omega arith, other_key, (omega arith, other_key, tt))),
  ),
)

is_login_locked-history_example :
    is_login_locked none (codes "user") home 1500 (run (codes "user") guesses no_logins) ≡ (
      is_before 1500 (lock_after [] none guesses)
      || is_before 1500 (get home (run (codes "user") guesses no_logins).locks))
is_login_locked-history_example =
    is_login_locked-history (codes "user") home guesses 1500 guesses-IsOrderly

locked_until : lock_after [] none guesses ≡ some 1940
unfolding in_window
locked_until = refl

-- Every token is its own ticket for streams.
abbrev decode : Bytes → Option Claims
decode token =
    some
      (record { sub = []; org = []; role = []; scope = some (codes "live:read"); jti = some token })

accepted_both :
    accepted decode (codes "live:read") (codes "t") (codes "t" ∷ codes "u" ∷ codes "t" ∷ []) [] ≡ 1
unfolding consume_ticket burn remember member bytes_eq
accepted_both = refl

abbrev digest : Bytes → ℕ → Bytes
digest key n =
    0 ∷ n ∷ 2 ∷ 3 ∷ 4 ∷ 5 ∷ 6 ∷ 7 ∷ 8 ∷ 9 ∷ 10 ∷ 11 ∷ 12 ∷ 13 ∷ 14 ∷ 15 ∷ 16 ∷ 17 ∷ 18 ∷ 0 ∷ []

abbrev no_digit : ℕ → Bool
no_digit c = false

shown_code : totp_now digest (λ s. some s) (codes "MZXW6") 61 ≡ returns (codes "131587")
unfolding hotp truncate unpack decimal decimal_loop pad
shown_code = refl

verify_code-totp_now_example :
    (length (codes "131587") ≡ 6)
    × (verify_code digest (λ s. some s) no_digit (codes "MZXW6") (codes "131587") 119
        ≡ returns true)
verify_code-totp_now_example =
    verify_code-totp_now digest (λ s. some s) no_digit (codes "MZXW6") (codes "131587") 61 119
      (λ _ _. refl) shown_code (omega arith) (omega arith) (omega arith)

too_late :
    verify_code digest (λ s. some s) no_digit (codes "MZXW6") (codes "131587") 120 ≡ returns false
unfolding verify_code try_counters hotp truncate unpack decimal decimal_loop pad is_digits is_ascii
    drop_spaces lstrip rstrip is_space bytes_eq
too_late = refl

abbrev guess_times : List ℕ
guess_times = 1 ∷ 2 ∷ 3 ∷ 4 ∷ 5 ∷ 6 ∷ 302 ∷ []

guesses_bounded_example : length (in_window 302 (checked (codes "mfa:ann") [] guess_times [])) ≤ 5
guesses_bounded_example = guesses_bounded (codes "mfa:ann") guess_times 302 (
  omega arith,
  (
    omega arith,
    (omega arith, (omega arith, (omega arith, (omega arith, (omega arith, omega arith))))),
  ),
)

sixth_refused : checked (codes "mfa:ann") [] guess_times [] ≡ 1 ∷ 2 ∷ 3 ∷ 4 ∷ 5 ∷ 302 ∷ []
unfolding mfa_locked record_mfa_failure in_window get put bytes_eq
sixth_refused = refl

abbrev stored_hashes : List Bytes
stored_hashes = codes "a1" ∷ codes "b2" ∷ []

abbrev attempts_made : List Bytes
attempts_made = codes " B2 " ∷ codes "b 2" ∷ []

accepted_codes-count_example :
    accepted_codes (λ t. t) (codes "b2") attempts_made stored_hashes
      + count (is_hash (λ t. t) (codes "b2")) (left_codes (λ t. t) attempts_made stored_hashes)
    ≡ count (is_hash (λ t. t) (codes "b2")) stored_hashes
accepted_codes-count_example =
    accepted_codes-count (λ t. t) (codes "b2") attempts_made stored_hashes

abbrev ann : User
ann = record {
  is_active = true;
  mfa_secret_enc = none;
  mfa_recovery = stored_hashes;
  last_login = none;
}

abbrev store_of_ann : Store
store_of_ann = record { users = (codes "ann", ann) ∷ []; mfa_failures = []; used_tickets = [] }

abbrev ann_asks : Request
ann_asks = record { mfa_ticket = codes "t"; code = []; recovery_code = some (codes "B2") }

abbrev away : Answers
away = record { ticket = none; lock = none; recorded = false }

abbrev ticket_of_ann : Bytes → Option Claims
ticket_of_ann token = some (record {
  sub = codes "ann";
  org = [];
  role = [];
  scope = some (codes "mfa-verify");
  jti = some (codes "j");
})
