-- ===== src/Auth/Lockout.antt =====
-- When an account is locked, against the whole history of its failures.
use cipher_post.Prelude.{
  ℕ, ◌+◌, ◌≤◌, ◌≡◌, refl, sym, ap, ◌∙◌, inl, inr, false, ◌||◌, Option, none, some, List, [], ◌∷◌,
  ◌++◌, arith, leb, if◌then◌else◌, Bool-cases, length,
}
use cipher_post.Prelude.Bytes.{Bytes}
use cipher_post.Prelude.Classes.{eqb, nat_eq, string_eq}
use cipher_post.Prelude.Dict.{get, put, get-put_self, get-pop_self}
use mathlib.Core.Path.{subst}
use cipher_post.Prelude.Dict.{get-put_other}
use cipher_post.Flows.{bytes_key}
use cipher_post.Auth.{
  Logins, no_logins, login_max_attempts, login_lock_seconds, login_ip_max_attempts, times_of,
  in_window, fail_key, record_login_failure, record_login_success, is_before, is_login_locked,
}

-- Attempts to log in to one account: a failure from an address at a time, or a success.
pub data Attempt : Type 0 where
  fails : Bytes → ℕ → Attempt
  succeeds : Attempt

abbrev pub attempt : Bytes → Attempt → Logins → Logins
attempt account (fails ip now) self = record_login_failure false account ip now self
attempt account succeeds self = record_login_success false account self

abbrev pub run : Bytes → List Attempt → Logins → Logins
run account [] self = self
run account (a ∷ attempts) self = run account attempts (attempt account a self)

-- The lock of the account, by all failures since the last success, `history`: a failure locks it
-- if there are five within the window.
abbrev pub lock_after : List ℕ → Option ℕ → List Attempt → Option ℕ
lock_after history lock [] = lock
lock_after history lock (fails ip now ∷ attempts) =
    lock_after (history ++ now ∷ [])
      (if leb login_max_attempts (length (in_window now (history ++ now ∷ [])))
        then some (now + login_lock_seconds)
        else lock)
      attempts
lock_after history lock (succeeds ∷ attempts) = lock_after [] lock attempts

-- The times do not decrease, from `start` on, and no address has the account's key.
abbrev pub IsOrderly : Bytes → ℕ → List Attempt → Type 0
IsOrderly account start [] = Unit
IsOrderly account start (fails ip now ∷ attempts) =
    (start ≤ now) × (eqb ip account ≡ false) × IsOrderly account now attempts
IsOrderly account start (succeeds ∷ attempts) = IsOrderly account start attempts

pub in_window-append :
    (now : ℕ) (xs ys : List ℕ) → in_window now (xs ++ ys) ≡ in_window now xs ++ in_window now ys
unfolding in_window
in_window-append now [] ys = refl
in_window-append now (x ∷ xs) ys = ground (arith, in_window-append now xs ys)

-- What has left the window does not come back.
pub in_window-in_window :
    (start now : ℕ) (ts : List ℕ)
    → start ≤ now
    → in_window now (in_window start ts) ≡ in_window now ts
unfolding in_window
in_window-in_window start now [] h = refl
in_window-in_window start now (t ∷ ts) h = ground (arith, in_window-in_window start now ts h)

pub in_window_now : (now : ℕ) → in_window now (now ∷ []) ≡ now ∷ []
unfolding in_window
in_window_now now = ground arith

-- From `start` on, the memory and the whole history agree about the account.
record Agrees (account : Bytes) (start : ℕ) (history : List ℕ) (lock : Option ℕ) (self : Logins)
    : Type 0 where
  windows :
      (now : ℕ)
      → start ≤ now
      → in_window now (times_of (get account self.failures)) ≡ in_window now history
  locked : get account self.locks ≡ lock

fail_key-other :
    (key account : Bytes) (limit now start : ℕ) (history : List ℕ) (lock : Option ℕ) (self : Logins)
    → eqb key account ≡ false
    → Agrees account start history lock self
    → Agrees account start history lock (fail_key key limit now self)
unfolding fail_key
fail_key-other key account limit now start history lock self ne a =
    let hits : List ℕ = in_window now (times_of (get key self.failures)) ++ now ∷ [] in
    record {
      windows = λ t le.
          ap (λ o. in_window t (times_of o)) (get-put_other key account hits self.failures ne)
          ∙ a.windows t le;
      locked = elim (Bool-cases (leb limit (length hits))) [
        | inl e ↦
            rw e (get-put_other key account (now + login_lock_seconds) self.locks ne ∙ a.locked)
        | inr e ↦ rw e a.locked
      ];
    }

fail_key-same :
    (account : Bytes) (now start : ℕ) (history : List ℕ) (lock : Option ℕ) (self : Logins)
    → start ≤ now
    → Agrees account start history lock self
    → Agrees account now
        (history ++ now ∷ [])
        (if leb login_max_attempts (length (in_window now (history ++ now ∷ [])))
          then some (now + login_lock_seconds)
          else lock)
        (fail_key account login_max_attempts now self)
unfolding fail_key
fail_key-same account now start history lock self le a =
    let hits : List ℕ = in_window now (times_of (get account self.failures)) ++ now ∷ [] in
    let all : List ℕ = history ++ now ∷ [] in
    let same : hits ≡ in_window now all =
      ap (λ ts. ts ++ now ∷ []) (a.windows now le)
      ∙ ap (λ ts. in_window now history ++ ts) (sym (in_window_now now))
      ∙ sym (in_window-append now history (now ∷ [])) in
    record {
      windows = λ t later.
          ap (λ o. in_window t (times_of o)) (get-put_self account hits self.failures)
          ∙ ap (λ ts. in_window t ts) same
          ∙ in_window-in_window now t all later;
      locked =
          subst
            (λ ts.
              get account (
                if leb login_max_attempts (length hits)
                then put account (now + login_lock_seconds) self.locks
                else self.locks)
              ≡ (if leb login_max_attempts (length ts)
                  then some (now + login_lock_seconds)
                  else lock))
            same
            (elim (Bool-cases (leb login_max_attempts (length hits))) [
              | inl e ↦ rw e (get-put_self account (now + login_lock_seconds) self.locks)
              | inr e ↦ rw e a.locked
            ]);
    }

run-Agrees :
    (account : Bytes) (start : ℕ) (history : List ℕ) (lock : Option ℕ) (attempts : List Attempt)
    (self : Logins)
    → IsOrderly account start attempts
    → Agrees account start history lock self
    → get account (run account attempts self).locks ≡ lock_after history lock attempts
run-Agrees account start history lock [] self o a = a.locked
run-Agrees account start history lock (fails ip now ∷ attempts) self o a =
    let once : Logins = fail_key account login_max_attempts now self in
    let all : List ℕ = history ++ now ∷ [] in
    let lock2 : Option ℕ =
      if leb login_max_attempts (length (in_window now all))
      then some (now + login_lock_seconds)
      else lock in
    run-Agrees account now all lock2 attempts (record_login_failure false account ip now self) o.2 (
      unfold record_login_failure in
      fail_key-other ip account login_ip_max_attempts now now all lock2 once o.1
        (fail_key-same account now start history lock self o.0 a))
run-Agrees account start history lock (succeeds ∷ attempts) self o a =
    run-Agrees account start [] lock attempts (record_login_success false account self) o (
      unfold record_login_success in
      record {
        windows = λ t le. ap (λ o. in_window t (times_of o)) (get-pop_self account self.failures);
        locked = a.locked;
      })

-- While Redis is away, an account that is tried from any addresses in the order of the times is
-- locked exactly as its whole history since the last success says, from a failure that is the
-- fifth within the window for the time of a lock, or as the address is. What the memory forgets
-- makes no difference, and a success does not lift a lock.
pub is_login_locked-history :
    (account ip : Bytes) (attempts : List Attempt) (now : ℕ)
    → IsOrderly account 0 attempts
    → let self = run account attempts no_logins in
      is_login_locked none account ip now self
      ≡ (is_before now (lock_after [] none attempts) || is_before now (get ip self.locks))
unfolding is_login_locked get
is_login_locked-history account ip attempts now o =
    let self : Logins = run account attempts no_logins in
    let lock : get account self.locks ≡ lock_after [] none attempts =
      run-Agrees account 0 [] none attempts no_logins o
        (record { windows = λ t le. refl; locked = refl }) in
    rw lock refl
