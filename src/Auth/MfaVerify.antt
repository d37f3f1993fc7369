-- ===== src/Auth/MfaVerify.antt =====
-- Recovery codes and the lock of the second factor (backend/app/core/mfa.py), and the handler of
-- /api/v1/auth/mfa/verify (mfa_verify of backend/app/api/main.py). What Redis answers is an argument,
-- `none` where it cannot be reached. The session token that is made in the end is not modelled.
use cipher_post.Prelude.{
  ℕ, Bool, true, false, not, Option, none, some, List, [], ◌∷◌, ◌++◌, leb, if◌then◌else◌, length,
}
use cipher_post.Prelude.Bytes.{Bytes, codes, bytes_eq}
use cipher_post.Prelude.Classes.{nat_eq, string_eq}
use cipher_post.Prelude.Dict.{Dict, get, put, pop}
use cipher_post.Flows.{bytes_key, lstrip, rstrip}
use cipher_post.Certificates.{lower}
use cipher_post.Alerts.{or_text}
use cipher_post.Auth.{Claims, times_of, in_window, consume_ticket, consume_mfa_ticket}
use cipher_post.Auth.Mfa.{
  Raised, value_error, struct_error, type_error, Result, returns, raises, drop_spaces,
}

-- The remaining hashes without the first that is `want`; `none` if there is none.
unfoldable pub remove_one : Bytes → List Bytes → Option (List Bytes)
remove_one want [] = none
remove_one want (h ∷ hs) =
    let rest = remove_one want hs in
    if bytes_eq h want then some hs else elim rest [ none ↦ none | some left ↦ some (h ∷ left) ]

abbrev pub mfa_max_attempts : ℕ
mfa_max_attempts = 5

abbrev pub Failures : Type 0
Failures = Dict Bytes (List ℕ)

-- The window of five minutes is that of the logins.
unfoldable pub mfa_locked : Option Bool → Bytes → ℕ → Failures → Bool
unfolding in_window
mfa_locked (some locked) user_key now failures = locked
mfa_locked none user_key now failures =
    leb mfa_max_attempts (length (in_window now (times_of (get user_key failures))))

-- `answered` tells whether Redis has counted the failure.
unfoldable pub record_mfa_failure : Bool → Bytes → ℕ → Failures → Failures
unfolding in_window
record_mfa_failure true user_key now failures = failures
record_mfa_failure false user_key now failures =
    put user_key (in_window now (times_of (get user_key failures)) ++ now ∷ []) failures

unfoldable pub record_mfa_success : Bool → Bytes → Failures → Failures
record_mfa_success true user_key failures = failures
record_mfa_success false user_key failures = pop user_key failures

pub record User : Type 0 where
  pub is_active : Bool
  pub mfa_secret_enc : Option Bytes
  pub mfa_recovery : List Bytes
  pub last_login : Option ℕ

pub record Store : Type 0 where
  pub users : Dict Bytes User
  pub mfa_failures : Failures
  pub used_tickets : List Bytes

pub record Request : Type 0 where
  pub mfa_ticket : Bytes
  pub code : Bytes
  pub recovery_code : Option Bytes

-- What Redis answers to one request: SET with NX for the ticket, the lock, and whether the failure
-- or the success is recorded there.
pub record Answers : Type 0 where
  pub ticket : Option Bool
  pub lock : Option Bool
  pub recorded : Bool

pub data Verdict : Type 0 where
  invalid_ticket inactive invalid_code verified : Verdict
  crashed : Raised → Verdict

-- except ValueError: ok = False
abbrev pub caught : Result Bool → Result Bool
caught (returns ok) = returns ok
caught (raises value_error) = returns false
caught (raises struct_error) = raises struct_error
caught (raises type_error) = raises type_error

abbrev pub user_key_of : Bytes → Bytes
user_key_of sub = codes "mfa:" ++ sub

abbrev pub refuse : Answers → Bytes → ℕ → Store → Verdict × Store
refuse answers sub now self = (
  invalid_code,
  record self {
    mfa_failures = record_mfa_failure answers.recorded (user_key_of sub) now self.mfa_failures;
  },
)

abbrev pub accept : Answers → Bytes → User → ℕ → Store → Verdict × Store
accept answers sub user now self = (
  verified,
  record self {
    mfa_failures = record_mfa_success answers.recorded (user_key_of sub) self.mfa_failures;
    users = put sub (record user { last_login = some now }) self.users;
  },
)

module _ (sha256 : Bytes → Bytes) where
  unfoldable pub hash_recovery_code : Bytes → Bytes
  unfolding lower lstrip rstrip drop_spaces
  hash_recovery_code code = sha256 (drop_spaces (lower (rstrip (lstrip code))))

  unfoldable pub consume_recovery_code : List Bytes → Bytes → Option (List Bytes)
  unfolding remove_one hash_recovery_code
  consume_recovery_code stored_hashes code = remove_one (hash_recovery_code code) stored_hashes

  -- The recovery code of a request, if it names one.
  abbrev pub recover : Option Bytes → List Bytes → Option (List Bytes)
  recover none stored_hashes = none
  recover (some []) stored_hashes = none
  recover (some (c ∷ cs)) stored_hashes = consume_recovery_code stored_hashes (c ∷ cs)

  -- `check` is verify_code on the user's secret, `decrypt` gives `none` for ValueError.
  module _ (decrypt : Bytes → Option Bytes) (check : Bytes → Bytes → ℕ → Result Bool) where
    unfoldable pub code_ok : User → Bytes → ℕ → Result Bool
    code_ok user code now = elim (decrypt (or_text user.mfa_secret_enc [])) [
      | none ↦ returns false
      | some secret ↦ caught (check secret code now)
    ]

    -- What follows the check of the code.
    abbrev pub settle : Answers → Request → Bytes → User → ℕ → Store → Result Bool → Verdict × Store
    settle answers request sub user now self (raises e) = (crashed e, self)
    settle answers request sub user now self (returns true) = accept answers sub user now self
    settle answers request sub user now self (returns false) =
        elim (recover request.recovery_code user.mfa_recovery) [
          | none ↦ refuse answers sub now self
          | some remaining ↦ accept answers sub (record user { mfa_recovery = remaining }) now self
        ]

    unfoldable pub verify_user :
        Answers → Request → Bytes → Option User → ℕ → Store → Verdict × Store
    unfolding code_ok consume_recovery_code record_mfa_failure record_mfa_success mfa_locked
    verify_user answers request sub none now self = (inactive, self)
    verify_user answers request sub (some user) now self =
        if not user.is_active
        then (inactive, self)
        else if mfa_locked answers.lock (user_key_of sub) now self.mfa_failures
        then (invalid_code, self)
        else settle answers request sub user now self (code_ok user request.code now)

    module _ (decode : Bytes → Option Claims) where
      unfoldable pub mfa_verify : Answers → Request → ℕ → Store → Verdict × Store
      unfolding consume_ticket verify_user lstrip rstrip
      mfa_verify answers request now self =
          let (claims, used) =
            consume_mfa_ticket decode answers.ticket (rstrip (lstrip request.mfa_ticket))
              self.used_tickets in
          let next : Store = record self { used_tickets = used } in
          elim claims [
            | none ↦ (invalid_ticket, next)
            | some c ↦ verify_user answers request c.sub (get c.sub self.users) now next
          ]
