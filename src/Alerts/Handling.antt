-- ===== src/Alerts/Handling.antt =====
-- What the dispatcher lets through.
use cipher_post.Prelude.{
  ℕ, ◌+◌, ◌≤◌, ◌<◌, ◌≡◌, refl, sym, ap, ◌∙◌, ◌≢◌, inl, inr, Bool, true, false, Option, none, some,
  ◌∷◌, arith, Bool-cases, length,
}
use cipher_post.Prelude.Bytes.{Bytes, codes, bytes_eq→eq}
use cipher_post.Prelude.Bytes.{starts_with, find_at, find, contains}
use cipher_post.Prelude.Classes.{eqb, nat_eq, string_eq}
use cipher_post.Prelude.Dict.{Dict, get, put, get-put_self}
use cipher_post.Flows.{bytes_key}
use cipher_post.Alerts.{Finding, host_in, server_host_of, group_key_of, order, Alert}
use mathlib.Core.Path.{subst}
use cipher_post.Prelude.Dict.{length-put-le, get-put_other}
use cipher_post.Alerts.Budget.{
  RedisAlertState, last_alert, check_and_set_dedup, check_rate, mem_check_rate,
}
use cipher_post.Alerts.Dedup.{check_dedup-rule, bound_dedup_small}
use cipher_post.Alerts.Dispatch.{
  Policy, order_or, severity_text, should_alert, grouped, disposition, merge, gated, duplicate,
  Ticket, open_ticket, spend, dispatch, digest_finding,
}

order-le : (s : Bytes) → order s ≤ 4
unfolding order
order-le s = ground arith

order_or-le : (s : Bytes) (default : ℕ) → default ≤ 4 → order_or s default ≤ 4
unfolding order_or
order_or-le s default h = ground (arith, order-le s)

-- A critical finding that no suppression covers is grouped for an alert, whatever the policy of
-- its organisation and the hour are: no threshold, no quiet hours and no digest hold it back.
pub disposition-critical :
    (min_sev : ℕ) (policy : Policy) (hour : ℕ) (finding : Finding)
    → min_sev ≤ 4
    → order (severity_text finding) ≡ 4
    → disposition min_sev policy false hour finding ≡ grouped
unfolding disposition should_alert
disposition-critical min_sev policy hour finding h e =
    ground (arith, order_or-le policy.min_severity min_sev h)

check_rate-keeps :
    (count : Option ℕ) (now : ℕ) (self : RedisAlertState)
    → ((check_rate count now self).1.mem_dedup ≡ self.mem_dedup)
      × ((check_rate count now self).1.dedup_window ≡ self.dedup_window)
unfolding check_rate mem_check_rate
check_rate-keeps (some n) now self = (refl, refl)
check_rate-keeps none now self = ground arith

-- The key was last alerted about at the time or later.
abbrev IsMarked : Bytes → ℕ → ℕ → RedisAlertState → Type 0
IsMarked key now window self =
    (now ≤ last_alert (get key self.mem_dedup)) × (self.dedup_window ≡ window)

put-IsMarked :
    (j key : Bytes) (now time : ℕ) (d : Dict Bytes ℕ)
    → now ≤ time
    → now ≤ last_alert (get j d)
    → now ≤ last_alert (get j (put key time d))
put-IsMarked j key now time d h m = elim (Bool-cases (eqb key j)) [
  | inl e ↦
      subst (λ o. now ≤ last_alert o)
        (sym (get-put_self key time d) ∙ ap (λ k. get k (put key time d)) (bytes_eq→eq key j e)) h
  | inr e ↦ subst (λ o. now ≤ last_alert o) (sym (get-put_other key j time d e)) m
]

-- The state after a fresh key, while there is room.
abbrev remembered : Bytes → ℕ → RedisAlertState → RedisAlertState
remembered key now self = record self { mem_dedup = put key now self.mem_dedup }

check_dedup-room :
    (P : Bool × RedisAlertState → Type 0) (key : Bytes) (now : ℕ) (self : RedisAlertState)
    → length self.mem_dedup < 5000
    → P (false, self)
    → P (true, remembered key now self)
    → P (check_and_set_dedup none key now self)
check_dedup-room P key now self room seen fresh =
    check_dedup-rule P key now self (λ _. seen)
      (λ _.
        subst (λ d. P (true, record self { mem_dedup = d }))
          (sym (
            bound_dedup_small (put key now self.mem_dedup)
              (omega (arith, room, length-put-le key now self.mem_dedup))))
          fresh)

-- A ticket that is asked for at the time or later, while Redis is away.
abbrev pub IsLater : ℕ → Option Ticket → Type 0
IsLater now none = Unit
IsLater now (some t) = (t.answer ≡ none) × (now ≤ t.time)

open_ticket-IsMarked :
    (ticket : Option Ticket) (key : Bytes) (now window : ℕ) (self : RedisAlertState)
    → IsLater now ticket
    → length self.mem_dedup < 5000
    → IsMarked key now window self
    → IsMarked key now window (open_ticket ticket self)
open_ticket-IsMarked none key now window self _ _ m = m
open_ticket-IsMarked (some t) key now window self h room m =
    subst (λ a. IsMarked key now window (check_and_set_dedup a t.key t.time self).1) (sym h.0)
      (check_dedup-room (λ r. IsMarked key now window r.1) t.key t.time self room m
        (put-IsMarked key t.key now t.time self.mem_dedup h.1 m.0, m.1))

spend-IsMarked :
    (count : Option ℕ) (ticket : Option Ticket) (key : Bytes) (now : ℕ) (self : RedisAlertState)
    → length self.mem_dedup < 4999
    → IsLater now ticket
    → (spend count ticket now (check_and_set_dedup none key now self)).0 ≢ duplicate
    → IsMarked key now self.dedup_window
        (spend count ticket now (check_and_set_dedup none key now self)).1
unfolding spend
spend-IsMarked count ticket key now self room later =
    check_dedup-room
      (λ r.
        (spend count ticket now r).0 ≢ duplicate
        → IsMarked key now self.dedup_window (spend count ticket now r).1)
      key now self (omega (arith, room)) (λ h. absurd (h refl))
      (λ _.
        let marked : RedisAlertState = remembered key now self in
        let spent : RedisAlertState = (check_rate count now marked).1 in
        let keeps : (spent.mem_dedup ≡ marked.mem_dedup)
            × (spent.dedup_window ≡ self.dedup_window) =
          check_rate-keeps count now marked in
        let put_there : IsMarked key now self.dedup_window spent = (
          omega (
            arith,
            ap (λ d. last_alert (get key d)) keeps.0,
            ap (λ o. last_alert o) (get-put_self key now self.mem_dedup),
          ),
          keeps.1,
        ) in
        elim (Bool-cases (check_rate count now marked).0) [
          | inl e ↦ rw e (
              open_ticket-IsMarked ticket key now self.dedup_window spent later
                (omega
                  (arith, room, length-put-le key now self.mem_dedup, ap (λ d. length d) keeps.0))
                put_there)
          | inr e ↦ rw e put_there
        ])

marked_duplicate :
    (count : Option ℕ) (ticket : Option Ticket) (key : Bytes) (now later window : ℕ)
    (self : RedisAlertState)
    → IsMarked key now window self
    → later < now + window
    → (spend count ticket later (check_and_set_dedup none key later self)).0 ≡ duplicate
unfolding spend
marked_duplicate count ticket key now later window self m h =
    check_dedup-rule (λ r. (spend count ticket later r).0 ≡ duplicate) key later self (λ _. refl)
      (λ due. absurd (omega (arith, due, h, m.0, m.1)))

dispatch_open :
    (min_sev : ℕ) (policy : Policy) (answer : Option Bool) (count : Option ℕ)
    (ticket : Option Ticket) (finding : Finding) (now : ℕ) (self : RedisAlertState)
    → should_alert min_sev policy finding ≡ true
    → dispatch min_sev policy answer count ticket finding now self
      ≡ spend count ticket now (check_and_set_dedup answer (group_key_of finding) now self)
unfolding dispatch
dispatch_open min_sev policy answer count ticket finding now self e = rw e refl

dispatch_closed :
    (min_sev : ℕ) (policy : Policy) (answer : Option Bool) (count : Option ℕ)
    (ticket : Option Ticket) (finding : Finding) (now : ℕ) (self : RedisAlertState)
    → should_alert min_sev policy finding ≡ false
    → dispatch min_sev policy answer count ticket finding now self ≡ (gated, self)
unfolding dispatch
dispatch_closed min_sev policy answer count ticket finding now self e = rw e refl

-- While Redis is away and fewer than 4999 keys are in memory, let a finding pass the gate on
-- severity and not be a duplicate, and let its ticket, if one is due, be asked for no earlier.
-- Then any finding that has the same group key, passes the gate and is dispatched next, before the
-- window since the first is over, is a duplicate. This holds whether the first one was sent or
-- refused by the limit on the rate, and whichever organisations they belong to.
pub dispatch-duplicate :
    (min_sev : ℕ) (policy other : Policy) (count again : Option ℕ) (ticket another : Option Ticket)
    (first next : Finding) (now later : ℕ) (self : RedisAlertState)
    → length self.mem_dedup < 4999
    → IsLater now ticket
    → should_alert min_sev policy first ≡ true
    → should_alert min_sev other next ≡ true
    → group_key_of next ≡ group_key_of first
    → (dispatch min_sev policy none count ticket first now self).0 ≢ duplicate
    → later < now + self.dedup_window
    → (dispatch min_sev other none again another next later
        (dispatch min_sev policy none count ticket first now self).1).0
      ≡ duplicate
dispatch-duplicate min_sev policy other count again ticket another first next now later self room
      asked p q same h soon =
    let key : Bytes = group_key_of first in
    let opened : dispatch min_sev policy none count ticket first now self
        ≡ spend count ticket now (check_and_set_dedup none key now self) =
      dispatch_open min_sev policy none count ticket first now self p in
    let state : RedisAlertState = (dispatch min_sev policy none count ticket first now self).1 in
    let marked : IsMarked key now self.dedup_window state =
      subst (λ r. r.0 ≢ duplicate → IsMarked key now self.dedup_window r.1) (sym opened)
        (spend-IsMarked count ticket key now self room asked) h in
    ap (λ r. r.0) (dispatch_open min_sev other none again another next later state q)
    ∙ ap (λ k. (spend again another later (check_and_set_dedup none k later state)).0) same
    ∙ marked_duplicate again another key now later self.dedup_window state marked soon

-- A group that is due is sent under the severity that the finding at hand was given over all: if
-- that one is below the threshold of the group's organisation, the group is not sent at all,
-- however severe its own findings are.
pub merged_gated :
    (min_sev : ℕ) (policy : Policy) (answer : Option Bool) (count : Option ℕ)
    (ticket : Option Ticket) (finding : Finding) (group : Alert) (c : ℕ) (cs : Bytes) (now : ℕ)
    (self : RedisAlertState)
    → finding.max_severity ≡ some (c ∷ cs)
    → order (c ∷ cs) < order_or policy.min_severity min_sev
    → dispatch min_sev policy answer count ticket (merge finding group) now self ≡ (gated, self)
unfolding should_alert merge
merged_gated min_sev policy answer count ticket finding group c cs now self e h =
    dispatch_closed min_sev policy answer count ticket (merge finding group) now self
      (rw e (ground (arith, h)))

-- All digests share one key, whichever organisation they are for.
pub digest_key :
    (org_id : Option Bytes) (top_severity title : Bytes)
    → group_key_of (digest_finding org_id top_severity title) ≡ codes "digest-summary:unknown"
unfolding group_key_of server_host_of host_in contains find find_at starts_with digest_finding
digest_key org_id top_severity title = refl
