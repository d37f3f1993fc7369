-- ===== src/Rules/Run.antt =====
-- `ALL_RULES`, `run_rules` and `max_severity` (backend/app/parsing/rules.py). A rule that raised
-- would be passed over; none does on the fields that the analysis sets.
use cipher_post.Prelude.{ℕ, Option, none, some, List, [], ◌∷◌, ltb, if◌then◌else◌}
use cipher_post.Prelude.Classes.{nat_eq, string_eq}
use cipher_post.Rules.{Severity, info, low, medium, high, critical, Finding, Rule}
use cipher_post.Rules.Ciphers.{
  rule_deprecated_version, rule_non_aead_cipher, rule_weak_cipher, rule_export_cipher, rule_non_pfs,
  rule_rc4, rule_3des, rule_unknown_cipher,
}
use cipher_post.Rules.Certs.{
  rule_cert_expired, rule_cert_not_yet_valid, rule_cert_self_signed, rule_chain_untrusted,
  rule_weak_signature, rule_short_key,
}
use cipher_post.Rules.Plaintext.{
  rule_ssl_in_plaintext, rule_starttls_strip, rule_no_tls_on_tls_port, rule_handshake_incomplete,
}
use cipher_post.Rules.Hellos.{
  rule_no_client_hello_pfs_capability, rule_legacy_groups, rule_no_modern_pfs_group,
  rule_downgrade_sentinel, rule_hrr_anomaly, rule_tls_version_downgrade, rule_ech_present,
  rule_outdated_client_stack, rule_legacy_compression,
}

abbrev pub all_rules : ℕ → List Rule
all_rules now =
    rule_deprecated_version
    ∷ rule_non_aead_cipher
    ∷ rule_weak_cipher
    ∷ rule_export_cipher
    ∷ rule_non_pfs
    ∷ rule_rc4
    ∷ rule_3des
    ∷ rule_cert_expired now
    ∷ rule_cert_not_yet_valid now
    ∷ rule_cert_self_signed
    ∷ rule_chain_untrusted
    ∷ rule_weak_signature
    ∷ rule_short_key
    ∷ rule_ssl_in_plaintext
    ∷ rule_starttls_strip
    ∷ rule_no_client_hello_pfs_capability
    ∷ rule_no_tls_on_tls_port
    ∷ rule_handshake_incomplete
    ∷ rule_unknown_cipher
    ∷ rule_legacy_groups
    ∷ rule_no_modern_pfs_group
    ∷ rule_downgrade_sentinel
    ∷ rule_hrr_anomaly
    ∷ rule_tls_version_downgrade
    ∷ rule_ech_present
    ∷ rule_legacy_compression
    ∷ rule_outdated_client_stack
    ∷ []

-- for rule in rules: rule(sa)
abbrev pub run_all : List Rule → Rule
run_all [] sa = sa
run_all (rule ∷ rules) sa = run_all rules (rule sa)

-- The session afterwards; its findings are what is returned.
unfoldable pub run_rules : ℕ → Rule
run_rules now sa = run_all (all_rules now) sa

abbrev pub rank : Severity → ℕ
rank info = 0
rank low = 1
rank medium = 2
rank high = 3
rank critical = 4

-- The fold of max(findings, key=...), which keeps the first of equals.
unfoldable pub max_from : Severity → List Finding → Severity
max_from best [] = best
max_from best (f ∷ fs) =
    max_from (if ltb (rank best) (rank f.severity) then f.severity else best) fs

unfoldable pub max_severity : List Finding → Option Severity
unfolding max_from
max_severity [] = none
max_severity (f ∷ fs) = some (max_from f.severity fs)
