-- ===== src/Transport/TtlCache.antt =====
-- TTLCache of backend/app/proactive/mta_sts.py, the cache of DNS answers. The clock is an argument.
use cipher_post.Prelude.{
  ℕ, ◌+◌, ◌/◌, max, Option, none, some, List, map, ltb, leb, ◌==◌, if◌then◌else◌, length, take,
}
use cipher_post.Prelude.Bytes.{Bytes}
use cipher_post.Prelude.Classes.{nat_eq, string_eq}
use cipher_post.Prelude.Dict.{Dict, get, put, pop}
use cipher_post.Prelude.Sort.{sorted}
use cipher_post.Prelude.Removal.{remove}
use cipher_post.Flows.{bytes_key}

-- The entries hold when they end, and the value.
pub record TtlCache {ℓ} (V : Type ℓ) : Type ℓ where
  pub max_entries : ℕ
  pub data_of : Dict Bytes (ℕ × V)

module _ {ℓ} {V : Type ℓ} where
  unfoldable pub get_cached : Bytes → ℕ → TtlCache V → Option V × TtlCache V
  get_cached key now self = elim (get key self.data_of) [
    | none ↦ (none, self)
    | some (exp, val) ↦
        if ltb exp now
        then (none, record self { data_of = pop key self.data_of })
        else (some val, self)
  ]

  -- The keys that are evicted from a full cache: a tenth, those that end first.
  abbrev pub evicted_keys : TtlCache V → List Bytes
  evicted_keys self =
      map (λ e. e.0) (take (max 1 (self.max_entries / 10)) (sorted (λ e. e.1.0) self.data_of))

  unfoldable pub make_room : TtlCache V → Dict Bytes (ℕ × V)
  unfolding remove
  make_room self =
      if leb self.max_entries (length self.data_of)
      then remove (evicted_keys self) self.data_of
      else self.data_of

  unfoldable pub put_cached : Bytes → V → ℕ → ℕ → TtlCache V → TtlCache V
  unfolding make_room
  put_cached key value ttl now self =
      if ttl == 0
      then self
      else record self { data_of = put key (now + ttl, value) (make_room self) }
