-- ===== src/Alerts/Dedup.antt =====
-- The memory of alerts that were sent, while Redis is away.
use cipher_post.Prelude.{
  ℕ, ◌+◌, ◌≤◌, ◌<◌, ◌≡◌, refl, sym, inl, inr, Bool, true, false, ◌&&◌, none, List, [], ◌∷◌, arith,
  ltb, if◌then◌else◌, ltb→lt, ge→ltb, Bool-cases, length,
}
use cipher_post.Prelude.Bytes.{Bytes}
use cipher_post.Prelude.Classes.{eqb, nat_eq, string_eq}
use cipher_post.Prelude.Dict.{Dict, get, put}
use mathlib.Core.Path.{subst}
use cipher_post.Flows.{bytes_key}
use cipher_post.Prelude.Dict.{length-put-le}
use cipher_post.Prelude.Removal.{length-remove_first}
use cipher_post.Alerts.Budget.{
  RedisAlertState, new_state, last_alert, bound_dedup, mem_check_dedup, check_and_set_dedup,
}

length-bound_dedup : (d : Dict Bytes ℕ) → length d ≤ 5001 → length (bound_dedup d) ≤ 5000
unfolding bound_dedup
length-bound_dedup d h = elim (Bool-cases (ltb 5000 (length d))) [
  | inl e ↦
      let large : 5000 < length d = ltb→lt 5000 (length d) e in
      rw e (omega (arith, length-remove_first (λ e. e.1) 1000 d, h, large))
  | inr e ↦ rw e (ground arith)
]

pub bound_dedup_small : (d : Dict Bytes ℕ) → length d ≤ 5000 → bound_dedup d ≡ d
unfolding bound_dedup
bound_dedup_small d h = rw (ge→ltb 5000 (length d) h) refl

-- The two outcomes of a call.
pub check_dedup-rule :
    (P : Bool × RedisAlertState → Type 0) (key : Bytes) (now : ℕ) (self : RedisAlertState)
    → (now < last_alert (get key self.mem_dedup) + self.dedup_window → P (false, self))
    → (last_alert (get key self.mem_dedup) + self.dedup_window ≤ now
        → P (true, record self { mem_dedup = bound_dedup (put key now self.mem_dedup) }))
    → P (check_and_set_dedup none key now self)
unfolding check_and_set_dedup
check_dedup-rule P key now self duplicate fresh =
    elim (Bool-cases (ltb now (last_alert (get key self.mem_dedup) + self.dedup_window))) [
      | inl e ↦ subst P (sym (rw (e, mem_check_dedup) refl)) (duplicate (ground arith))
      | inr e ↦ subst P (sym (rw (e, mem_check_dedup) refl)) (fresh (ground arith))
    ]

abbrev pub Call : Type 0
Call = Bytes × ℕ

-- The state after the calls, without Redis.
abbrev pub run : List Call → RedisAlertState → RedisAlertState
run [] self = self
run ((key, now) ∷ calls) self = run calls (check_and_set_dedup none key now self).1

-- The times at which the key was fresh.
abbrev pub fresh : Bytes → List Call → RedisAlertState → List ℕ
fresh j [] self = []
fresh j ((key, now) ∷ calls) self =
    let (ok, next) = check_and_set_dedup none key now self in
    let more = fresh j calls next in if ok && eqb key j then now ∷ more else more

check_dedup-bounded :
    (key : Bytes) (now : ℕ) (self : RedisAlertState)
    → length self.mem_dedup ≤ 5000
    → length (check_and_set_dedup none key now self).1.mem_dedup ≤ 5000
check_dedup-bounded key now self h =
    check_dedup-rule (λ r. length r.1.mem_dedup ≤ 5000) key now self (λ _. h)
      (λ _.
        length-bound_dedup (put key now self.mem_dedup)
          (omega (arith, h, length-put-le key now self.mem_dedup)))

run-bounded :
    (calls : List Call) (self : RedisAlertState)
    → length self.mem_dedup ≤ 5000
    → length (run calls self).mem_dedup ≤ 5000
run-bounded [] self h = h
run-bounded ((key, now) ∷ calls) self h =
    run-bounded calls (check_and_set_dedup none key now self).1 (check_dedup-bounded key now self h)

-- Each time comes at least `window` after the one before it, the first after `last`.
abbrev pub IsSpaced : ℕ → ℕ → List ℕ → Type 0
IsSpaced window last [] = Unit
IsSpaced window last (t ∷ ts) = (last + window ≤ t) × IsSpaced window t ts

-- Without Redis the memory never holds more than five thousand keys.
pub memory_bounded :
    (window rate : ℕ) (calls : List Call)
    → length (run calls (new_state window rate)).mem_dedup ≤ 5000
unfolding new_state
memory_bounded window rate calls = run-bounded calls (new_state window rate) (omega arith)
