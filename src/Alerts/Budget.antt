-- ===== src/Alerts/Budget.antt =====
-- The budget of alerts: RedisAlertState of backend/app/live/alert_state.py. What Redis answers is an
-- argument, `none` where it cannot be reached or the call fails; then the memory of the process
-- decides. Times are whole ticks, sixty to a minute.
use cipher_post.Prelude.{
  ℕ, ◌+◌, Bool, true, false, Option, none, some, List, [], ◌∷◌, ◌++◌, map, ltb, leb, if◌then◌else◌,
  length, take,
}
use cipher_post.Prelude.Bytes.{Bytes}
use cipher_post.Prelude.Classes.{nat_eq, string_eq}
use cipher_post.Prelude.Dict.{Dict, get, put}
use cipher_post.Prelude.Sort.{sorted}
use cipher_post.Prelude.Removal.{remove}
use cipher_post.Flows.{bytes_key}

pub record RedisAlertState : Type 0 where
  pub dedup_window : ℕ
  pub rate_per_minute : ℕ
  pub mem_dedup : Dict Bytes ℕ
  pub mem_rate : List ℕ

unfoldable pub new_state : ℕ → ℕ → RedisAlertState
new_state dedup_window rate_per_minute = record {
  dedup_window = dedup_window;
  rate_per_minute = rate_per_minute;
  mem_dedup = [];
  mem_rate = [];
}

-- self._mem_dedup.get(key, 0)
abbrev pub last_alert : Option ℕ → ℕ
last_alert none = 0
last_alert (some t) = t

-- The keys of the thousand entries with the oldest times.
abbrev pub oldest_keys : Dict Bytes ℕ → List Bytes
oldest_keys d = map (λ e. e.0) (take 1000 (sorted (λ e. e.1) d))

-- Once there are more than five thousand entries, the oldest are dropped.
unfoldable pub bound_dedup : Dict Bytes ℕ → Dict Bytes ℕ
unfolding remove
bound_dedup d = if ltb 5000 (length d) then remove (oldest_keys d) d else d

-- The fallback of `check_and_set_dedup`.
unfoldable pub mem_check_dedup : Bytes → ℕ → RedisAlertState → Bool × RedisAlertState
unfolding bound_dedup
mem_check_dedup key now self =
    if ltb now (last_alert (get key self.mem_dedup) + self.dedup_window)
    then (false, self)
    else (true, record self { mem_dedup = bound_dedup (put key now self.mem_dedup) })

-- Is the key fresh? `answer` is what SET with NX returns.
unfoldable pub check_and_set_dedup :
    Option Bool → Bytes → ℕ → RedisAlertState → Bool × RedisAlertState
unfolding mem_check_dedup
check_and_set_dedup (some ok) key now self = (ok, self)
check_and_set_dedup none key now self = mem_check_dedup key now self

-- [t for t in self._mem_rate if t > now - 60]
unfoldable pub recent : ℕ → List ℕ → List ℕ
recent now [] = []
recent now (t ∷ ts) = let rest = recent now ts in if ltb now (t + 60) then t ∷ rest else rest

-- The fallback of `check_rate`.
unfoldable pub mem_check_rate : ℕ → RedisAlertState → Bool × RedisAlertState
unfolding recent
mem_check_rate now self =
    let live = recent now self.mem_rate in
    if leb self.rate_per_minute (length live)
    then (false, record self { mem_rate = live })
    else (true, record self { mem_rate = live ++ now ∷ [] })

-- Is there budget left? `count` is what ZCARD returns once the call itself has been added.
unfoldable pub check_rate : Option ℕ → ℕ → RedisAlertState → Bool × RedisAlertState
unfolding mem_check_rate
check_rate (some count) now self = (leb count self.rate_per_minute, self)
check_rate none now self = mem_check_rate now self
