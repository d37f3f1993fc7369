-- ===== src/Alerts/Rate.antt =====
-- The limit on the rate of alerts, while Redis is away.
use cipher_post.Prelude.{
  ℕ, ◌+◌, ◌≤◌, ◌<◌, ◌≡◌, refl, sym, inl, inr, Bool, true, false, ◌&&◌, none, List, [], ◌∷◌, ◌++◌,
  arith, ltb, leb, if◌then◌else◌, ltb→lt, Bool-cases, length, length-append,
}
use cipher_post.Prelude.Classes.{nat_eq, string_eq}
use mathlib.Core.Path.{subst}
use cipher_post.Prelude.Sort.{count, count-append, count-le}
use cipher_post.Alerts.Budget.{RedisAlertState, new_state, recent, mem_check_rate, check_rate}

-- The calls of `check_rate` at these times without Redis: the times that were allowed.
abbrev pub allowed : List ℕ → RedisAlertState → List ℕ
allowed [] self = []
allowed (now ∷ times) self =
    let (ok, next) = check_rate none now self in
    let more = allowed times next in if ok then now ∷ more else more

-- The time lies in the minute that ends at `t`.
abbrev pub in_minute : ℕ → ℕ → Bool
in_minute t s = ltb t (s + 60) && leb s t

abbrev pub Ordered : ℕ → List ℕ → Type 0
Ordered t [] = Unit
Ordered t (s ∷ ss) = (t ≤ s) × Ordered s ss

recent-count :
    (now t : ℕ) (ts : List ℕ)
    → now ≤ t
    → count (in_minute t) (recent now ts) ≡ count (in_minute t) ts
unfolding recent count
recent-count now t [] h = refl
recent-count now t (s ∷ ts) h = ground (arith, recent-count now t ts h)

length-recent : (now : ℕ) (ts : List ℕ) → length (recent now ts) ≤ length ts
unfolding recent
length-recent now [] = omega arith
length-recent now (s ∷ ts) = ground (arith, length-recent now ts)

-- The two outcomes of a call.
mem_check_rate-rule :
    (P : Bool × RedisAlertState → Type 0) (now : ℕ) (self : RedisAlertState)
    → P (false, record self { mem_rate = recent now self.mem_rate })
    → (length (recent now self.mem_rate) < self.rate_per_minute
        → P (true, record self { mem_rate = recent now self.mem_rate ++ now ∷ [] }))
    → P (check_rate none now self)
unfolding check_rate mem_check_rate
mem_check_rate-rule P now self full free =
    elim (Bool-cases (leb self.rate_per_minute (length (recent now self.mem_rate)))) [
      | inl e ↦ subst P (sym (rw (e, mem_check_rate) refl)) full
      | inr e ↦ subst P (sym (rw (e, mem_check_rate) refl)) (free (ground arith))
    ]

check-length :
    (now : ℕ) (self : RedisAlertState)
    → length self.mem_rate ≤ self.rate_per_minute
    → length (check_rate none now self).1.mem_rate ≤ (check_rate none now self).1.rate_per_minute
check-length now self h =
    mem_check_rate-rule (λ r. length r.1.mem_rate ≤ r.1.rate_per_minute) now self
      (omega (arith, h, length-recent now self.mem_rate))
      (λ room. omega (arith, room, length-append (recent now self.mem_rate) (now ∷ [])))

allowed-before :
    (start t : ℕ) (times : List ℕ) (self : RedisAlertState)
    → t < start
    → Ordered start times
    → count (in_minute t) (allowed times self) ≡ 0
unfolding count
allowed-before start t [] self h o = refl
allowed-before start t (now ∷ times) self h o =
    ground
      (arith, allowed-before now t times (check_rate none now self).1 (omega (arith, h, o.0)) o.1)

Within : ℕ → List ℕ → RedisAlertState → Type 0
Within t times self =
    count (in_minute t) self.mem_rate + count (in_minute t) (allowed times self)
    ≤ self.rate_per_minute

-- What the first call leaves, for the minutes that end at it or later.
check-Within :
    (now t : ℕ) (times : List ℕ) (self : RedisAlertState)
    → now ≤ t
    → Within t times (check_rate none now self).1
    → Within t (now ∷ times) self
unfolding Within
check-Within now t times self le =
    mem_check_rate-rule
      (λ r.
        (count (in_minute t) r.1.mem_rate + count (in_minute t) (allowed times r.1)
          ≤ r.1.rate_per_minute)
        → count (in_minute t) self.mem_rate
            + count (in_minute t) (let more = allowed times r.1 in if r.0 then now ∷ more else more)
          ≤ self.rate_per_minute)
      now self (λ w. omega (arith, recent-count now t self.mem_rate le, w))
      (λ room w.
        let live : List ℕ = recent now self.mem_rate in
        let acc : List ℕ = allowed times (record self { mem_rate = live ++ now ∷ [] }) in
        omega (
          arith,
          w,
          recent-count now t self.mem_rate le,
          count-append (in_minute t) live (now ∷ []),
          count-append (in_minute t) (now ∷ []) acc,
        ))

run-Within :
    (start t : ℕ) (times : List ℕ) (self : RedisAlertState)
    → Ordered start times
    → length self.mem_rate ≤ self.rate_per_minute
    → Within t times self
unfolding Within count
run-Within start t [] self o h = omega (arith, h, count-le (in_minute t) self.mem_rate)
run-Within start t (now ∷ times) self o h = elim (Bool-cases (ltb t now)) [
  | inl e ↦ omega (
    arith,
    h,
    count-le (in_minute t) self.mem_rate,
    allowed-before now t (now ∷ times) self (ltb→lt t now e) (omega arith, o.1),
  )
  | inr e ↦
      check-Within now t times self (ground arith)
        (run-Within now t times (check_rate none now self).1 o.1 (check-length now self h))
]

-- Whenever the calls come, in the order of their times and without Redis, no more than
-- `rate_per_minute` of those in any one minute are allowed.
pub allowed-rate :
    (window rate t : ℕ) (times : List ℕ)
    → Ordered 0 times
    → count (in_minute t) (allowed times (new_state window rate)) ≤ rate
unfolding new_state Within
allowed-rate window rate t times o =
    let w : Within t times (new_state window rate) =
      run-Within 0 t times (new_state window rate) o (omega arith) in
    omega (arith, w)
