-- ===== src/Rules/Adds.antt =====
-- The effect of each rule on versions, ciphers, plaintext and hellos: what it adds carries its own
-- name.
use Prim.Native.String.{String}
use cipher_post.Prelude.{ℕ, inl, inr, ◌==◌, Bool-cases}
use cipher_post.Prelude.Classes.{nat_eq, string_eq}
use cipher_post.Rules.{high, critical, SessionAnalysis, add, given}
use cipher_post.Rules.Ciphers.{
  weak_version, rule_deprecated_version, rule_non_aead_cipher, rule_weak_cipher, rule_export_cipher,
  rule_non_pfs, rule_rc4, rule_3des, rule_unknown_cipher,
}
use cipher_post.Rules.Plaintext.{
  rule_ssl_in_plaintext, rule_starttls_strip, rule_no_tls_on_tls_port, rule_handshake_incomplete,
}
use cipher_post.Rules.Hellos.{
  rule_no_client_hello_pfs_capability, rule_legacy_groups, rule_no_modern_pfs_group,
  rule_downgrade_sentinel, rule_hrr_anomaly, report_downgrade, rule_tls_version_downgrade,
  rule_ech_present, rule_outdated_client_stack, rule_legacy_compression, best_offer,
}
use cipher_post.Rules.Effect.{
  Effect, no-Effect, add-Effect, add_if-Effect, given-Effect, choose-Effect,
}

module _ (P : String → Type 0) (sa : SessionAnalysis) where
  pub deprecated_version-Effect :
      P "tls-version-sslv3"
      → P "tls-version-tls1-0"
      → P "tls-version-tls1-1"
      → Effect P sa (rule_deprecated_version sa)
  unfolding rule_deprecated_version weak_version given add
  deprecated_version-Effect p q r =
      given-Effect P sa.tls_version (λ v. given (weak_version v) (λ w. add w.0 w.1 sa) sa) sa
        (λ v. weak v)
    where
      weak : (v : ℕ) → Effect P sa (given (weak_version v) (λ w. add w.0 w.1 sa) sa)
      weak v = elim (Bool-cases (v == 0x0300)) [
        | inl e ↦ rw e (add-Effect P "tls-version-sslv3" critical sa p)
        | inr e ↦ elim (Bool-cases (v == 0x0301)) [
          | inl f ↦ rw (e, f) (add-Effect P "tls-version-tls1-0" high sa q)
          | inr f ↦ elim (Bool-cases (v == 0x0302)) [
            | inl g ↦ rw (e, f, g) (add-Effect P "tls-version-tls1-1" high sa r)
            | inr g ↦ rw (e, f, g) (no-Effect P sa)
          ]
        ]
      ]

  pub non_aead_cipher-Effect : P "non-aead-bulk-cipher" → Effect P sa (rule_non_aead_cipher sa)
  unfolding rule_non_aead_cipher
  non_aead_cipher-Effect p = given-Effect P sa.cipher_meta _ sa (λ m. add_if-Effect P _ _ _ sa p)

  pub weak_cipher-Effect : P "weak-cipher-suite" → Effect P sa (rule_weak_cipher sa)
  unfolding rule_weak_cipher
  weak_cipher-Effect p =
      given-Effect P sa.cipher_meta _ sa
        (λ m. choose-Effect P _ sa _ _ (no-Effect P sa) (add_if-Effect P _ _ _ sa p))

  pub non_pfs-Effect : P "non-pfs-key-exchange" → Effect P sa (rule_non_pfs sa)
  unfolding rule_non_pfs
  non_pfs-Effect p = add_if-Effect P _ _ _ sa p

  pub export_cipher-Effect : P "export-grade-cipher" → Effect P sa (rule_export_cipher sa)
  unfolding rule_export_cipher
  export_cipher-Effect p = add_if-Effect P _ _ _ sa p

  pub rc4-Effect : P "rc4-cipher" → Effect P sa (rule_rc4 sa)
  unfolding rule_rc4
  rc4-Effect p = add_if-Effect P _ _ _ sa p

  pub triple_des-Effect : P "3des-cipher" → Effect P sa (rule_3des sa)
  unfolding rule_3des
  triple_des-Effect p = add_if-Effect P _ _ _ sa p

  pub unknown_cipher-Effect : P "unknown-cipher-suite" → Effect P sa (rule_unknown_cipher sa)
  unfolding rule_unknown_cipher
  unknown_cipher-Effect p = add_if-Effect P _ _ _ sa p

  pub ssl_in_plaintext-Effect : P "plaintext-mail-protocol" → Effect P sa (rule_ssl_in_plaintext sa)
  unfolding rule_ssl_in_plaintext
  ssl_in_plaintext-Effect p = add_if-Effect P _ _ _ sa p

  pub starttls_strip-Effect : P "starttls-strip-attempt" → Effect P sa (rule_starttls_strip sa)
  unfolding rule_starttls_strip
  starttls_strip-Effect p = add_if-Effect P _ _ _ sa p

  pub no_tls_on_tls_port-Effect :
      P "no-tls-on-implicit-port" → Effect P sa (rule_no_tls_on_tls_port sa)
  unfolding rule_no_tls_on_tls_port
  no_tls_on_tls_port-Effect p = add_if-Effect P _ _ _ sa p

  pub handshake_incomplete-Effect :
      P "tls-handshake-incomplete" → Effect P sa (rule_handshake_incomplete sa)
  unfolding rule_handshake_incomplete
  handshake_incomplete-Effect p = add_if-Effect P _ _ _ sa p

  pub client_pfs-Effect :
      P "client-no-pfs-suites" → Effect P sa (rule_no_client_hello_pfs_capability sa)
  unfolding rule_no_client_hello_pfs_capability
  client_pfs-Effect p = given-Effect P sa.client_hello _ sa (λ ch. add_if-Effect P _ _ _ sa p)

  pub legacy_groups-Effect :
      P "deprecated-group-negotiated"
      → P "deprecated-group-offered"
      → Effect P sa (rule_legacy_groups sa)
  unfolding rule_legacy_groups
  legacy_groups-Effect p q =
      given-Effect P sa.client_hello _ sa
        (λ ch. choose-Effect P _ sa _ _ (add-Effect P _ _ sa p) (add_if-Effect P _ _ _ sa q))

  pub no_modern_pfs_group-Effect :
      P "no-modern-pfs-group" → Effect P sa (rule_no_modern_pfs_group sa)
  unfolding rule_no_modern_pfs_group
  no_modern_pfs_group-Effect p =
      given-Effect P sa.client_hello _ sa (λ ch. add_if-Effect P _ _ _ sa p)

  pub downgrade_sentinel-Effect :
      P "downgrade-attack-detected" → Effect P sa (rule_downgrade_sentinel sa)
  unfolding rule_downgrade_sentinel
  downgrade_sentinel-Effect p =
      given-Effect P sa.server_hello _ sa (λ sh. add_if-Effect P _ _ _ sa p)

  pub hrr_anomaly-Effect : P "hrr-group-mismatch" → Effect P sa (rule_hrr_anomaly sa)
  unfolding rule_hrr_anomaly
  hrr_anomaly-Effect p = given-Effect P sa.server_hello _ sa (λ sh. add_if-Effect P _ _ _ sa p)

  pub tls_version_downgrade-Effect :
      P "tls-version-downgrade-suspected"
      → P "tls13-not-negotiated"
      → Effect P sa (rule_tls_version_downgrade sa)
  unfolding rule_tls_version_downgrade report_downgrade
  tls_version_downgrade-Effect p q = given-Effect P (best_offer sa) _ sa (λ best.
      given-Effect P sa.tls_version _ sa (λ version.
        choose-Effect P _ sa _ _ (no-Effect P sa)
          (choose-Effect P _ sa _ _ (add-Effect P _ _ sa p) (add_if-Effect P _ _ _ sa q))))

  pub ech_present-Effect : P "ech-observed" → Effect P sa (rule_ech_present sa)
  unfolding rule_ech_present
  ech_present-Effect p = add_if-Effect P _ _ _ sa p

  pub outdated_client_stack-Effect :
      P "outdated-client-stack" → Effect P sa (rule_outdated_client_stack sa)
  unfolding rule_outdated_client_stack
  outdated_client_stack-Effect p =
      given-Effect P sa.client_hello _ sa (λ ch. add_if-Effect P _ _ _ sa p)

  pub legacy_compression-Effect :
      P "legacy-compression-offered" → Effect P sa (rule_legacy_compression sa)
  unfolding rule_legacy_compression
  legacy_compression-Effect p =
      given-Effect P sa.client_hello _ sa (λ ch. add_if-Effect P _ _ _ sa p)
