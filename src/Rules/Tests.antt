-- ===== src/Rules/Tests.antt =====
-- Runs of the rules, and their theorems at concrete sessions.
use cipher_post.Prelude.{◌≡◌, refl, ◌⊎◌, true, false, none, some, List, [], ◌∷◌}
use cipher_post.Prelude.Bytes.{codes}
use cipher_post.Prelude.Classes.{nat_eq, string_eq}
use cipher_post.Handshake.Ciphers.{CipherMeta}
use cipher_post.Rules.{Severity, info, high, Finding, SessionAnalysis}
use cipher_post.Rules.Certs.{certs_usable, listed}
use cipher_post.Rules.Run.{run_rules, max_severity}
use cipher_post.Handshake.ClientHello.{empty_client_hello}
use cipher_post.Handshake.ServerHello.{empty_server_hello}
use cipher_post.Handshake.Ciphers.{meta}
use cipher_post.Rules.Effect.{Effect}
use cipher_post.Rules.Frame.{rule_ids, run_rules-Effect}
use cipher_post.Rules.Observable.{Skipped, run_rules-Skipped}
use cipher_post.Rules.Worst.{Worst, max_severity-Worst}

abbrev nothing_seen : SessionAnalysis
nothing_seen = record {
  protocol = "SMTP";
  five_tuple = codes "10.0.0.1:40000->10.0.0.2:25";
  is_starttls = false;
  tls_version = none;
  negotiated_version_name = none;
  cipher = none;
  cipher_meta = none;
  cipher_iana = none;
  cipher_strength = none;
  client_hello = none;
  server_hello = none;
  certificate = none;
  certs = [];
  chain_result = "no-cert";
  chain_error = [];
  started_tls = false;
  tls_bytes = 0;
  is_implicit_tls_port = false;
  port = 25;
  saw_starttls_offer = false;
  plaintext_bytes = 0;
  visibility = none;
  pq = none;
  not_observable = [];
  findings = [];
}

abbrev tls13 : SessionAnalysis
tls13 = record nothing_seen {
  tls_version = some 0x0304;
  started_tls = true;
  tls_bytes = 900;
  client_hello = some (empty_client_hello []);
  visibility = some (record {
    tls13 = true;
    cert_chain = "not_observable_tls13";
    sni = "absent";
    hrr = false;
    offered_groups = [];
    selected_group = none;
  });
}

run_rules-Effect_example :
    Effect
      (λ rule_id. listed rule_id rule_ids ≡ true)
      nothing_seen
      (run_rules 1700000000 nothing_seen)
run_rules-Effect_example = run_rules-Effect 1700000000 nothing_seen

run_rules-Skipped_example : Skipped tls13 (run_rules 1700000000 tls13)
run_rules-Skipped_example = run_rules-Skipped 1700000000 tls13 (unfold certs_usable in refl, refl)

abbrev greasy : SessionAnalysis
greasy = record nothing_seen {
  tls_version = some 0x0303;
  client_hello = some (record (empty_client_hello []) { offered_versions = 0x7A7A ∷ 0x0303 ∷ [] });
  server_hello = some (record (empty_server_hello []) { downgrade_sentinel = some "tls12" });
}

abbrev two_findings : List Finding
two_findings =
    record { rule_id = "rc4-cipher"; severity = high }
    ∷ record { rule_id = "ech-observed"; severity = info }
    ∷ []

max_severity-Worst_example :
    ((two_findings ≡ []) × (max_severity two_findings ≡ none))
    ⊎ ((s : Severity) × (max_severity two_findings ≡ some s) × Worst two_findings s)
max_severity-Worst_example = max_severity-Worst two_findings

abbrev null_md5 : CipherMeta
null_md5 = meta "TLS_RSA_WITH_NULL_MD5" 0 "none" false 0 "rsa" "rsa" (some "null")

abbrev in_the_clear : SessionAnalysis
in_the_clear = record nothing_seen {
  cipher_iana = some 1;
  cipher_meta = some null_md5;
  started_tls = true;
  tls_bytes = 900;
}
