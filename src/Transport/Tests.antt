-- ===== src/Transport/Tests.antt =====
-- Concrete runs of the checks of a domain, and the theorems at them.
use cipher_post.Prelude.{ℕ, ◌≡◌, refl, ◌↔◌, false, none, some, List, [], ◌∷◌}
use cipher_post.Prelude.Bytes.{codes, bytes_eq}
use cipher_post.Prelude.Bytes.{starts_with, find_at, find, contains}
use cipher_post.Prelude.Classes.{nat_eq, string_eq}
use cipher_post.Prelude.Dict.{get, put, pop}
use cipher_post.Prelude.Removal.{remove}
use cipher_post.Prelude.Sort.{sorted, insert_by}
use cipher_post.Flows.{bytes_key, lstrip, rstrip, is_space}
use cipher_post.Prelude.Text.{hex2}
use cipher_post.Certificates.{lower}
use cipher_post.Transport.TtlCache.{get_cached, make_room, put_cached}
use cipher_post.Transport.Cache.{
  Op, store, read, run, new_cache, last_stored, IsCurrent, get_cached-IsCurrent,
}
use cipher_post.Transport.Policy.{Sts, read_policy, read_lines, read_line, set_key, split_colon}
use cipher_post.Transport.TlsaRecords.{
  Tlsa, secure, tlsa_matches, any_matches, selected, matches_data,
}
use cipher_post.Transport.Posture.{
  Mismatch, mta_sts_enforce_plaintext, dane_tlsa_mismatch, SessionInfo, check_domain,
  evaluate_session, judge_policy, judge_hosts, mismatches, fetch_all, any_rejected, strip_dots,
  policy_status, misconfigured,
}
use cipher_post.Transport.Rejected.{IsIn}
use cipher_post.Transport.Proven.{IsProven, evaluate_session-IsProven}

abbrev history : List (Op ℕ)
history = store (codes "MX:b") 2 5 12 ∷ read (codes "MX:a") 11 ∷ store (codes "MX:a") 1 5 10 ∷ []

get_cached-IsCurrent_example :
    IsCurrent 14
      (last_stored (codes "MX:a") history)
      (get_cached (codes "MX:a") 14 (run history (new_cache 2))).0
get_cached-IsCurrent_example = get_cached-IsCurrent 2 history (codes "MX:a") 14

cached : (get_cached (codes "MX:a") 14 (run history (new_cache 2))).0 ≡ some 1
unfolding get_cached put_cached make_room get put bytes_eq
cached = refl

-- A full cache evicts the entry that ends first.
evicted : (get_cached (codes "MX:a") 14 (run history (new_cache 1))).0 ≡ none
unfolding get_cached put_cached make_room get put pop bytes_eq remove sorted insert_by
evicted = refl

abbrev empty_answer : Sts
empty_answer = record {
  mx_hosts = codes "mx.b.org" ∷ [];
  txt = some (codes "v=STSv1; id=1");
  mode = none;
  max_age = none;
  mx_patterns = [];
  error = none;
}

abbrev policy_read : Sts
policy_read =
    read_policy (λ v. v) (codes "version: STSv1" ∷ codes "mode: Enforce" ∷ codes "mx: *.b.org" ∷ [])
      empty_answer

policy_mode : policy_read.mode ≡ some (codes "enforce")
unfolding read_policy read_lines read_line set_key split_colon lstrip rstrip is_space lower bytes_eq
    starts_with
policy_mode = refl

abbrev rejecting : Tlsa
rejecting = record {
  records = record { usage = 3; selector = 0; mtype = 0; cert = codes "aa" } ∷ [];
  dnssec = secure;
  error = none;
}

abbrev session : SessionInfo
session = record { used_tls = false; mx_host = none; cert_der = some (1 ∷ []); cert_ok = none }

abbrev findings : List Mismatch
findings =
    evaluate_session (λ d. some d) (λ d. d) (λ d. d) (λ _. some policy_read) (λ _. rejecting)
      (codes "b.org") session

evaluate_session-IsProven_example :
    IsIn (dane_tlsa_mismatch (codes "mx.b.org")) findings
    ↔ IsProven
        (λ d. some d)
        (λ d. d)
        (λ d. d)
        (check_domain (λ _. some policy_read) (λ _. rejecting) (codes "b.org"))
        session
        (dane_tlsa_mismatch (codes "mx.b.org"))
evaluate_session-IsProven_example =
    evaluate_session-IsProven (λ d. some d) (λ d. d) (λ d. d) (λ _. some policy_read)
      (λ _. rejecting) (codes "b.org") session (dane_tlsa_mismatch (codes "mx.b.org"))

found_both : findings ≡ mta_sts_enforce_plaintext ∷ dane_tlsa_mismatch (codes "mx.b.org") ∷ []
unfolding evaluate_session judge_policy judge_hosts mismatches check_domain fetch_all any_rejected
    strip_dots any_matches tlsa_matches selected matches_data read_policy read_lines read_line
    set_key split_colon lstrip rstrip is_space lower bytes_eq starts_with contains find find_at put
    policy_status hex2
found_both = refl

-- A domain without mail hosts is taken for a misconfigured one if its name has this word.
name_misconfigured :
    policy_status (record empty_answer {
      error = some (codes "no MX: The DNS query name does not exist: policy.org.");
    })
    ≡ misconfigured
unfolding policy_status starts_with contains find find_at
name_misconfigured = refl
