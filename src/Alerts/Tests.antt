-- ===== src/Alerts/Tests.antt =====
-- Concrete runs of the grouping and the budget of alerts, and the theorems at them.
use cipher_post.Prelude.{
  true, false, ◌≢◌, ◌∙◌, sym, ◌+◌, ◌≤◌, ◌≡◌, refl, inl, inr, none, some, List, [], ◌∷◌, ◌++◌, arith,
}
use cipher_post.Prelude.Bytes.{Bytes, codes, bytes_eq}
use cipher_post.Prelude.Bytes.{starts_with, find_at, find, contains}
use cipher_post.Prelude.Classes.{nat_eq, string_eq}
use cipher_post.Prelude.Dict.{get}
use cipher_post.Flows.{bytes_key}
use cipher_post.Alerts.{order, Finding, host_in, server_host_of, group_key_of, flush_expired}
use cipher_post.Reassembly.FiveTuple.{
  split_five_tuple, sides, rpartition, int, skip_spaces, is_space, read_digits, ports_read,
  lstrip_arrow,
}
use cipher_post.Prelude.Sort.{count}
use cipher_post.Alerts.Groups.{Op, run, added, reported, waiting, run-waiting}
use cipher_post.Alerts.Deadlines.{run-reported}
use cipher_post.Alerts.Worst.{add_all, worst, order_in, add_all-worst}
use cipher_post.Alerts.Budget.{
  check_and_set_dedup, mem_check_dedup, bound_dedup, new_state, recent, check_rate, mem_check_rate,
}
use cipher_post.Alerts.Rate.{allowed, in_minute, allowed-rate}
use cipher_post.Alerts.Dispatch.{
  Policy, order_or, should_alert, hour_between, in_quiet, below_threshold, quiet_held, digested,
  grouped, held_back, disposition, duplicate, sent, spend, dispatch, digest_finding,
}
use cipher_post.Alerts.Handling.{disposition-critical, dispatch-duplicate, digest_key}
use cipher_post.Alerts.Dedup.{Call}

abbrev weak : Bytes → Finding
weak severity = record {
  rule_id = some (codes "weak-cipher");
  server = none;
  mx_host = none;
  host = none;
  dst_ip = none;
  five_tuple = some (codes "a:5->b:25");
  max_severity = none;
  severity = some severity;
  title = none;
  description = none;
  protocol = none;
  org_id = none;
  risk_score = none;
}

abbrev group : Bytes
group = codes "weak-cipher:b"

group_of : group_key_of (weak (codes "high")) ≡ group
unfolding group_key_of server_host_of host_in contains find find_at starts_with split_five_tuple
    sides rpartition int skip_spaces is_space read_digits ports_read lstrip_arrow
group_of = refl

abbrev ops : List Op
ops = inl (weak (codes "low"), 3) ∷ inr 5 ∷ inl (weak (codes "high"), 6) ∷ []

run-waiting_example :
    added group ops + waiting group []
    ≡ reported group (run 10 ops []).0 + waiting group (run 10 ops []).1
run-waiting_example = run-waiting 10 ops group []

run-reported_example :
    let before = run 10 ops [] in
    let final = flush_expired 16 before.1 in
    (added group ops ≡ reported group (before.0 ++ final.0)) × (final.1 ≡ [])
run-reported_example = run-reported 10 16 ops group (omega arith, (omega arith, tt))

add_all-worst_example :
    order_in (get group (add_all 10 ((weak (codes "low"), 3) ∷ (weak (codes "high"), 6) ∷ []) []))
    ≡ worst group ((weak (codes "low"), 3) ∷ (weak (codes "high"), 6) ∷ [])
add_all-worst_example =
    add_all-worst 10 ((weak (codes "low"), 3) ∷ (weak (codes "high"), 6) ∷ []) group

allowed-rate_example : count (in_minute 70) (allowed (5 ∷ 20 ∷ 66 ∷ 70 ∷ []) (new_state 300 2)) ≤ 2
allowed-rate_example =
    allowed-rate 300 2 70 (5 ∷ 20 ∷ 66 ∷ 70 ∷ [])
      (omega arith, (omega arith, (omega arith, (omega arith, tt))))

allowed_three : allowed (5 ∷ 20 ∷ 30 ∷ 66 ∷ []) (new_state 300 2) ≡ 5 ∷ 20 ∷ 66 ∷ []
unfolding check_rate mem_check_rate recent new_state
allowed_three = refl

abbrev calls : List Call
calls = (group, 1000) ∷ (group, 1100) ∷ (group, 1400) ∷ []

abbrev strict : Policy
strict = record {
  min_severity = codes "high";
  digest = codes "daily";
  quiet_start_hour = some 22;
  quiet_end_hour = some 6;
}

disposition-critical_example : disposition 3 strict false 23 (weak (codes "critical")) ≡ grouped
disposition-critical_example =
    disposition-critical 3 strict 23 (weak (codes "critical")) (omega arith)
      (unfold order bytes_eq in refl)

disposition_high :
    (disposition 3 strict false 23 (weak (codes "high")) ≡ quiet_held)
    × (disposition 3 strict false 6 (weak (codes "high")) ≡ digested)
    × (disposition 3 strict false 6 (weak (codes "low")) ≡ below_threshold)
unfolding disposition should_alert order_or order bytes_eq held_back in_quiet hour_between
disposition_high = (refl, refl, refl)

abbrev digest_for : Bytes → Finding
digest_for org = digest_finding (some org) (codes "high") (codes "Alert digest: 2 findings")

digest_passes : (org : Bytes) → should_alert 3 strict (digest_for org) ≡ true
unfolding should_alert order_or order bytes_eq digest_finding
digest_passes org = refl

first_sent :
    (dispatch 3 strict none none none (digest_for (codes "one")) 1000 (new_state 300 2)).0 ≡ sent
unfolding dispatch should_alert order_or order bytes_eq digest_finding spend check_and_set_dedup
    mem_check_dedup bound_dedup check_rate mem_check_rate recent new_state group_key_of
    server_host_of host_in contains find find_at starts_with get
first_sent = refl

sent_not_duplicate : sent ≢ duplicate
sent_not_duplicate e = cc e

-- The digest of the second organisation is lost.
dispatch-duplicate_example :
    (dispatch 3 strict none none none
      (digest_for (codes "two"))
      1001
      (dispatch 3 strict none none none (digest_for (codes "one")) 1000 (new_state 300 2)).1).0
    ≡ duplicate
dispatch-duplicate_example =
    dispatch-duplicate 3 strict strict none none none none (digest_for (codes "one"))
      (digest_for (codes "two")) 1000 1001 (new_state 300 2) (unfold new_state in omega arith) tt
      (digest_passes (codes "one")) (digest_passes (codes "two"))
      (digest_key (some (codes "two")) (codes "high") (codes "Alert digest: 2 findings")
        ∙ sym (digest_key (some (codes "one")) (codes "high") (codes "Alert digest: 2 findings")))
      (λ e. sent_not_duplicate (sym first_sent ∙ e)) (unfold new_state in omega arith)
