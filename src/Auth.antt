-- ===== src/Auth.antt =====
-- Limits on logins, revoked tokens and tickets for single use (backend/app/core/auth.py). What Redis
-- answers is an argument, `none` where it cannot be reached or the call fails; then the memory of the
-- process decides. `decode` is decode_token, which checks a signature and gives the claims. Times
-- are whole ticks, one to a second.
pub mod Lockout
pub mod Tickets
pub mod Mfa
pub mod Codes
pub mod Steps
pub mod MfaVerify
pub mod Guesses
pub mod Accepted
mod Tests
use cipher_post.Prelude.{
  ℕ, zero, suc, ◌+◌, ◌-◌, ◌*◌, ◌/◌, ◌%◌, ◌^◌, ◌≤◌, ◌<◌, min, max, ◌≡◌, refl, sym, ap, ◌∙◌, ◌≢◌, ◌↔◌,
  ◌⊎◌, inl, inr, Bool, true, false, not, ◌&&◌, ◌||◌, Option, none, some, List, [], ◌∷◌, ◌++◌, map,
  append-nil, append_assoc, arith, ltb, leb, ◌==◌, if◌then◌else◌, ltb→lt, lt→ltb, ge→ltb, leb→le,
  ==_iff, ==_refl, Bool-cases, Option-cases, length, get_elem?, take, drop, All, length-append,
  take-append-drop, length-take, length-drop, take-append, drop-append, drop_all, All-append,
  All-drop, All-take, All-imp,
}
use cipher_post.Prelude.Bytes.{Bytes, IsBytes, codes, bytes_eq, bytes_eq_refl, bytes_eq→eq}
use cipher_post.Prelude.Bytes.{
  starts_with, find_at, find, find_from, contains, upper_byte, Occurs, find_at-Occurs,
  starts_with-append,
}
use cipher_post.Prelude.Classes.{Eq, eqb, eqb_refl, nat_eq, string_eq}
use cipher_post.Prelude.Dict.{
  Dict, get, put, pop, get-put, get-pop, length-pop-le, length-pop-lt, get-put_self, get-pop_self,
}
use cipher_post.Prelude.Removal.{member}
use cipher_post.Flows.{bytes_key}

abbrev pub login_max_attempts : ℕ
login_max_attempts = 5

abbrev pub login_window_seconds : ℕ
login_window_seconds = 300

abbrev pub login_lock_seconds : ℕ
login_lock_seconds = 900

abbrev pub login_ip_max_attempts : ℕ
login_ip_max_attempts = 20

-- _mem_failures and _mem_locks
pub record Logins : Type 0 where
  pub failures : Dict Bytes (List ℕ)
  pub locks : Dict Bytes ℕ

abbrev pub no_logins : Logins
no_logins = record { failures = []; locks = [] }

abbrev pub times_of : Option (List ℕ) → List ℕ
times_of none = []
times_of (some ts) = ts

-- [t for t in hits if now - t < _LOGIN_WINDOW_SECONDS]
unfoldable pub in_window : ℕ → List ℕ → List ℕ
in_window now [] = []
in_window now (t ∷ ts) =
    let rest = in_window now ts in if ltb now (t + login_window_seconds) then t ∷ rest else rest

-- One round of the loop of `record_login_failure`: prune, append and lock.
unfoldable pub fail_key : Bytes → ℕ → ℕ → Logins → Logins
unfolding in_window
fail_key key limit now self =
    let hits = in_window now (times_of (get key self.failures)) ++ now ∷ [] in
    record {
      failures = put key hits self.failures;
      locks =
          if leb limit (length hits)
          then put key (now + login_lock_seconds) self.locks
          else self.locks;
    }

-- `answered` tells whether Redis has counted the failure.
unfoldable pub record_login_failure : Bool → Bytes → Bytes → ℕ → Logins → Logins
unfolding fail_key
record_login_failure true account_key ip_key now self = self
record_login_failure false account_key ip_key now self =
    fail_key ip_key login_ip_max_attempts now (fail_key account_key login_max_attempts now self)

unfoldable pub record_login_success : Bool → Bytes → Logins → Logins
record_login_success true account_key self = self
record_login_success false account_key self = record self {
  failures = pop account_key self.failures;
}

-- until and now < until
abbrev pub is_before : ℕ → Option ℕ → Bool
is_before now none = false
is_before now (some until) = not (until == 0) && ltb now until

-- `answer` tells whether Redis has a lock for one of the keys.
unfoldable pub is_login_locked : Option Bool → Bytes → Bytes → ℕ → Logins → Bool
is_login_locked (some locked) account_key ip_key now self = locked
is_login_locked none account_key ip_key now self =
    is_before now (get account_key self.locks) || is_before now (get ip_key self.locks)

abbrev pub max_remembered : ℕ
max_remembered = 10000

-- Adds to a set in memory, which is emptied when it grows too large.
unfoldable pub remember : Bytes → List Bytes → List Bytes
unfolding member
remember jti seen =
    let more = if member jti seen then seen else jti ∷ seen in
    if ltb max_remembered (length more) then jti ∷ [] else more

-- `answered` tells whether Redis has stored the entry.
unfoldable pub revoke_token : Bool → Bytes → List Bytes → List Bytes
unfolding remember
revoke_token answered [] revoked = revoked
revoke_token true (c ∷ cs) revoked = revoked
revoke_token false (c ∷ cs) revoked = remember (c ∷ cs) revoked

-- `found` tells whether Redis has the entry; it has not, where it cannot be reached.
unfoldable pub is_token_revoked : Bool → Bytes → List Bytes → Bool
unfolding member
is_token_revoked found [] revoked = false
is_token_revoked found (c ∷ cs) revoked = found || member (c ∷ cs) revoked

pub record Claims : Type 0 where
  pub sub : Bytes
  pub org : Bytes
  pub role : Bytes
  pub scope : Option Bytes
  pub jti : Option Bytes

-- claims.get("jti") or ""
abbrev pub jti_of : Claims → Bytes
jti_of claims = elim claims.jti [ none ↦ [] | some jti ↦ jti ]

abbrev pub has_scope : Bytes → Claims → Bool
has_scope scope claims = elim claims.scope [ none ↦ false | some s ↦ bytes_eq s scope ]

-- A ticket with these claims is used up: the claims, or `none` for ValueError, and the set of used
-- tickets. `answer` is what SET with NX returns.
unfoldable pub burn : Option Bool → Bytes → Claims → List Bytes → Option Claims × List Bytes
unfolding remember member
burn answer [] claims used = (none, used)
burn (some ok) (c ∷ cs) claims used = (if ok then some claims else none, used)
burn none (c ∷ cs) claims used =
    if member (c ∷ cs) used then (none, used) else (some claims, remember (c ∷ cs) used)

module _ (decode : Bytes → Option Claims) where
  unfoldable pub consume_ticket :
      Bytes → Option Bool → Bytes → List Bytes → Option Claims × List Bytes
  unfolding burn
  consume_ticket scope answer token used = elim (decode token) [
    | none ↦ (none, used)
    | some claims ↦
        if has_scope scope claims then burn answer (jti_of claims) claims used else (none, used)
  ]

  abbrev pub consume_mfa_ticket : Option Bool → Bytes → List Bytes → Option Claims × List Bytes
  consume_mfa_ticket = consume_ticket (codes "mfa-verify")

  abbrev pub consume_sse_ticket : Option Bool → Bytes → List Bytes → Option Claims × List Bytes
  consume_sse_ticket = consume_ticket (codes "live:read")
