-- ===== src/Alerts/Dispatch.antt =====
-- What the dispatcher of alerts does with a finding (AlertDispatcher of backend/app/live/alerts.py):
-- the gate on severity, quiet hours and digests, grouping, and the dispatch of a group. The policy
-- of the organisation, the hour in its time zone and whether a suppression applies are arguments;
-- the channels, the tickets and the database are not modelled.
use cipher_post.Prelude.{
  ℕ, Bool, true, false, not, ◌&&◌, ◌||◌, Option, none, some, List, [], map, ltb, leb, ◌==◌,
  if◌then◌else◌,
}
use cipher_post.Prelude.Bytes.{Bytes, codes, bytes_eq}
use cipher_post.Prelude.Classes.{nat_eq, string_eq}
use cipher_post.Flows.{bytes_key}
use cipher_post.Alerts.{
  Finding, or_text, group_key_of, severity_of, order, Buckets, add, Alert, flush_expired,
}
use cipher_post.Alerts.Budget.{RedisAlertState, check_and_set_dedup, check_rate}

pub record Policy : Type 0 where
  pub min_severity : Bytes
  pub digest : Bytes
  pub quiet_start_hour : Option ℕ
  pub quiet_end_hour : Option ℕ

-- SEV_ORDER.get(severity, default)
unfoldable pub order_or : Bytes → ℕ → ℕ
unfolding order
order_or s default = if order s == 0 && not (bytes_eq s (codes "info")) then default else order s

-- finding.get("max_severity") or finding.get("severity") or "info"
abbrev pub severity_text : Finding → Bytes
severity_text finding = or_text (severity_of finding) (codes "info")

-- _should_alert, with the severity that is set for all organisations
unfoldable pub should_alert : ℕ → Policy → Finding → Bool
unfolding order_or
should_alert min_sev policy finding =
    leb (order_or policy.min_severity min_sev) (order (severity_text finding))

-- The hour lies between the two, over midnight if the first is the later one.
unfoldable pub hour_between : ℕ → ℕ → ℕ → Bool
hour_between start end hour =
    if start == end
    then false
    else if ltb start end
    then leb start hour && ltb hour end
    else leb start hour || ltb hour end

-- _in_quiet
unfoldable pub in_quiet : Policy → ℕ → Bool
unfolding hour_between
in_quiet policy hour = elim policy.quiet_start_hour [
  | none ↦ false
  | some start ↦ elim policy.quiet_end_hour [
    | none ↦ false
    | some end ↦ hour_between start end hour
  ]
]

abbrev pub has_digest : Policy → Bool
has_digest policy =
    bytes_eq policy.digest (codes "daily") || bytes_eq policy.digest (codes "weekly")

-- What becomes of a finding.
pub data Disposition : Type 0 where
  below_threshold suppressed quiet_held digested grouped : Disposition

-- The branch of `_handle_entry` on findings that are not critical.
unfoldable pub held_back : Policy → ℕ → Disposition
unfolding in_quiet
held_back policy hour =
    if in_quiet policy hour then quiet_held else if has_digest policy then digested else grouped

-- The guards of `_handle_entry`, up to the grouping.
unfoldable pub disposition : ℕ → Policy → Bool → ℕ → Finding → Disposition
unfolding should_alert held_back
disposition min_sev policy is_suppressed hour finding =
    if not (should_alert min_sev policy finding)
    then below_threshold
    else if is_suppressed
    then suppressed
    else if ltb (order (severity_text finding)) 4
    then held_back policy hour
    else grouped

-- The finding at hand with the fields of a group that is due written over it.
unfoldable pub merge : Finding → Alert → Finding
merge finding group = record finding {
  rule_id = some group.rule_id;
  severity = some group.severity;
  title = some group.title;
  description = some group.description;
  protocol = some group.protocol;
  org_id = group.org_id;
  risk_score = group.risk_score;
  server = some group.server;
}

-- self.groups.add(finding), and the findings that are dispatched for the groups that are due
unfoldable pub group_finding : ℕ → Finding → ℕ → Buckets → List Finding × Buckets
unfolding add flush_expired merge
group_finding hold_seconds finding now buckets =
    let (due, left) = flush_expired now (add hold_seconds finding now buckets) in
    (map (λ group. merge finding group) due, left)

-- What `_dispatch` does with a finding; `sent` goes to all channels.
pub data Decision : Type 0 where
  gated duplicate limited sent : Decision

-- A ticket that is due for an alert: its key, the time at which the key is asked for, once the
-- channels are through, and what Redis answers.
pub record Ticket : Type 0 where
  pub key : Bytes
  pub time : ℕ
  pub answer : Option Bool

abbrev pub open_ticket : Option Ticket → RedisAlertState → RedisAlertState
open_ticket none self = self
open_ticket (some t) self = (check_and_set_dedup t.answer t.key t.time self).1

-- The rate is asked for only if the key is fresh, a ticket only for an alert that was sent.
unfoldable pub spend :
    Option ℕ → Option Ticket → ℕ → Bool × RedisAlertState → Decision × RedisAlertState
spend count ticket now (false, marked) = (duplicate, marked)
spend count ticket now (true, marked) =
    let (allowed, spent) = check_rate count now marked in
    (if allowed then sent else limited, if allowed then open_ticket ticket spent else spent)

-- `_dispatch`, with what Redis answers for the key and for the rate
unfoldable pub dispatch :
    ℕ
    → Policy
    → Option Bool
    → Option ℕ
    → Option Ticket
    → Finding
    → ℕ
    → RedisAlertState
    → Decision × RedisAlertState
unfolding should_alert group_key_of spend
dispatch min_sev policy answer count ticket finding now self =
    if should_alert min_sev policy finding
    then spend count ticket now (check_and_set_dedup answer (group_key_of finding) now self)
    else (gated, self)

-- The finding that `_dispatch_digest` makes of the items of an organisation.
unfoldable pub digest_finding : Option Bytes → Bytes → Bytes → Finding
digest_finding org_id top_severity title = record {
  rule_id = some (codes "digest-summary");
  server = none;
  mx_host = none;
  host = none;
  dst_ip = none;
  five_tuple = some [];
  max_severity = none;
  severity = some top_severity;
  title = some title;
  description = some (
      codes
        " Rolled-up non-critical findings for the period. Critical alerts always bypass digests and quiet hours.");
  protocol = some [];
  org_id = org_id;
  risk_score = none;
}
