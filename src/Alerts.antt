-- ===== src/Alerts.antt =====
-- Grouping of findings into alerts: `server_host_of`, `group_key_of` and GroupBuffer of
-- backend/app/live/alert_state.py. A finding is a dictionary; a field is `none` where its key is
-- missing. Times are whole ticks.
pub mod Groups
pub mod Budget
pub mod Dispatch
pub mod Handling
pub mod Rate
pub mod Dedup
pub mod Worst
pub mod Deadlines
mod Tests
use cipher_post.Prelude.{
  ℕ, zero, suc, ◌+◌, ◌-◌, ◌*◌, ◌/◌, ◌%◌, ◌^◌, ◌≤◌, ◌<◌, min, max, ◌≡◌, refl, sym, ap, ◌∙◌, ◌≢◌, ◌↔◌,
  ◌⊎◌, inl, inr, Bool, true, false, not, ◌&&◌, ◌||◌, Option, none, some, List, [], ◌∷◌, ◌++◌, map,
  append-nil, append_assoc, arith, ltb, leb, ◌==◌, if◌then◌else◌, ltb→lt, lt→ltb, ge→ltb, leb→le,
  ==_iff, ==_refl, Bool-cases, Option-cases, length, get_elem?, take, drop, All, length-append,
  take-append-drop, length-take, length-drop, take-append, drop-append, drop_all, All-append,
  All-drop, All-take, All-imp,
}
use cipher_post.Prelude.Bytes.{Bytes, IsBytes, codes, bytes_eq, bytes_eq_refl, bytes_eq→eq}
use cipher_post.Prelude.Bytes.{
  starts_with, find_at, find, find_from, contains, upper_byte, Occurs, find_at-Occurs,
  starts_with-append,
}
use cipher_post.Prelude.Classes.{Eq, eqb, eqb_refl, nat_eq, string_eq}
use cipher_post.Prelude.Dict.{
  Dict, get, put, pop, get-put, get-pop, length-pop-le, length-pop-lt, get-put_self, get-pop_self,
}
use cipher_post.Reassembly.FiveTuple.{split_five_tuple}
use cipher_post.Flows.{bytes_key}

pub record Finding : Type 0 where
  pub rule_id : Option Bytes
  pub server : Option Bytes
  pub mx_host : Option Bytes
  pub host : Option Bytes
  pub dst_ip : Option Bytes
  pub five_tuple : Option Bytes
  pub max_severity : Option Bytes
  pub severity : Option Bytes
  pub title : Option Bytes
  pub description : Option Bytes
  pub protocol : Option Bytes
  pub org_id : Option Bytes
  pub risk_score : Option ℕ

-- v or w, where `v` may be missing or the empty text
abbrev pub or_else : Option Bytes → Option Bytes → Option Bytes
or_else none w = w
or_else (some []) w = w
or_else (some (c ∷ cs)) w = some (c ∷ cs)

-- v or text
abbrev pub or_text : Option Bytes → Bytes → Bytes
or_text none text = text
or_text (some []) text = text
or_text (some (c ∷ cs)) text = c ∷ cs

-- finding.get(key, text)
abbrev pub get_or : Option Bytes → Bytes → Bytes
get_or none text = text
get_or (some v) text = v

-- The server of the five-tuple, unless it has none; then the five-tuple itself.
unfoldable pub host_in : Bytes → Bytes
host_in ft =
    if contains (codes ":") ft
    then or_text (some (split_five_tuple ft).2) (or_text (some ft) (codes "unknown"))
    else or_text (some ft) (codes "unknown")

unfoldable pub server_host_of : Finding → Bytes
unfolding host_in
server_host_of finding =
    or_text (or_else finding.server (or_else finding.mx_host (or_else finding.host finding.dst_ip)))
      (host_in (or_text finding.five_tuple []))

unfoldable pub group_key_of : Finding → Bytes
unfolding server_host_of
group_key_of finding =
    get_or finding.rule_id (codes "unknown") ++ codes ":" ++ server_host_of finding

pub record Bucket : Type 0 where
  pub key : Bytes
  pub rule_id : Bytes
  pub server : Bytes
  pub severity : Bytes
  pub title : Bytes
  pub description : Bytes
  pub protocol : Bytes
  pub org_id : Option Bytes
  pub risk_score : Option ℕ
  pub count : ℕ
  pub first_seen : ℕ
  pub last_seen : ℕ
  pub sample : Finding
  pub deadline : ℕ

-- finding.get("max_severity") or finding.get("severity")
abbrev pub severity_of : Finding → Option Bytes
severity_of finding = or_else finding.max_severity finding.severity

-- order.get(str(severity), 0)
unfoldable pub order : Bytes → ℕ
order s =
    if bytes_eq s (codes "low")
    then 1
    else if bytes_eq s (codes "medium")
    then 2
    else if bytes_eq s (codes "high")
    then 3
    else if bytes_eq s (codes "critical")
    then 4
    else 0

-- str(None) is none of the names.
abbrev pub order_of : Option Bytes → ℕ
order_of none = 0
order_of (some s) = order s

unfoldable pub new_bucket : ℕ → Finding → ℕ → Bucket
unfolding server_host_of group_key_of
new_bucket hold_seconds finding now = record {
  key = group_key_of finding;
  rule_id = get_or finding.rule_id (codes "unknown");
  server = server_host_of finding;
  severity = or_text (severity_of finding) (codes "info");
  title = or_text finding.title [];
  description = or_text finding.description [];
  protocol = get_or finding.protocol [];
  org_id = finding.org_id;
  risk_score = finding.risk_score;
  count = 1;
  first_seen = now;
  last_seen = now;
  sample = finding;
  deadline = now + hold_seconds;
}

-- The branch of `add` on a bucket that is there.
unfoldable pub update_bucket : Finding → ℕ → Bucket → Bucket
unfolding order
update_bucket finding now b =
    let raised : Bool = ltb (order b.severity) (order_of (severity_of finding)) in
    record b {
      count = b.count + 1;
      last_seen = now;
      severity = if raised then get_or (severity_of finding) b.severity else b.severity;
      title = if raised then or_text finding.title b.title else b.title;
    }

abbrev pub Buckets : Type 0
Buckets = Dict Bytes Bucket

unfoldable pub add : ℕ → Finding → ℕ → Buckets → Buckets
unfolding new_bucket update_bucket group_key_of
add hold_seconds finding now buckets = elim (get (group_key_of finding) buckets) [
  | none ↦ put (group_key_of finding) (new_bucket hold_seconds finding now) buckets
  | some b ↦ put (group_key_of finding) (update_bucket finding now b) buckets
]

pub record Alert : Type 0 where
  pub group_key : Bytes
  pub rule_id : Bytes
  pub server : Bytes
  pub severity : Bytes
  pub title : Bytes
  pub description : Bytes
  pub protocol : Bytes
  pub org_id : Option Bytes
  pub risk_score : Option ℕ
  pub occurrence_count : ℕ
  pub first_seen : ℕ
  pub last_seen : ℕ
  pub sample : Finding

unfoldable pub alert_of : Bytes → Bucket → Alert
alert_of key b = record {
  group_key = key;
  rule_id = b.rule_id;
  server = b.server;
  severity = b.severity;
  title = b.title;
  description = b.description;
  protocol = b.protocol;
  org_id = b.org_id;
  risk_score = b.risk_score;
  occurrence_count = b.count;
  first_seen = b.first_seen;
  last_seen = b.last_seen;
  sample = b.sample;
}

-- [k for k, b in self._buckets.items() if b["deadline"] <= now]
unfoldable pub expired_keys : ℕ → Buckets → List Bytes
expired_keys now [] = []
expired_keys now ((key, b) ∷ rest) =
    let more = expired_keys now rest in if leb b.deadline now then key ∷ more else more

-- The loop of `flush_expired`. The keys are those of the table, so none of them is missing.
unfoldable pub flush_keys : List Bytes → Buckets → List Alert × Buckets
unfolding alert_of
flush_keys [] buckets = ([], buckets)
flush_keys (key ∷ keys) buckets =
    let (ready, left) = flush_keys keys (pop key buckets) in
    elim (get key buckets) [ none ↦ (ready, left) | some b ↦ (alert_of key b ∷ ready, left) ]

unfoldable pub flush_expired : ℕ → Buckets → List Alert × Buckets
unfolding expired_keys flush_keys
flush_expired now buckets = flush_keys (expired_keys now buckets) buckets
