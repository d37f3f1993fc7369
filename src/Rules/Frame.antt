-- ===== src/Rules/Frame.antt =====
-- What a run of all the rules does to the session.
use Prim.Native.String.{String}
use cipher_post.Prelude.{ℕ, ◌≡◌, refl, true, List, [], ◌∷◌, All}
use cipher_post.Prelude.Classes.{nat_eq, string_eq}
use cipher_post.Rules.{SessionAnalysis}
use cipher_post.Rules.Certs.{listed}
use cipher_post.Rules.Run.{all_rules, run_rules}
use cipher_post.Rules.Effect.{Effect, Effects, run_all-Effect}
use cipher_post.Rules.Adds.{
  deprecated_version-Effect, non_aead_cipher-Effect, weak_cipher-Effect, non_pfs-Effect,
  export_cipher-Effect, rc4-Effect, triple_des-Effect, unknown_cipher-Effect,
  ssl_in_plaintext-Effect, starttls_strip-Effect, no_tls_on_tls_port-Effect,
  handshake_incomplete-Effect, client_pfs-Effect, legacy_groups-Effect, no_modern_pfs_group-Effect,
  downgrade_sentinel-Effect, hrr_anomaly-Effect, tls_version_downgrade-Effect, ech_present-Effect,
  outdated_client_stack-Effect, legacy_compression-Effect,
}
use cipher_post.Rules.CertEffects.{
  cert_expired-Effect, cert_not_yet_valid-Effect, cert_self_signed-Effect, chain_untrusted-Effect,
  weak_signature-Effect, short_key-Effect,
}

-- The names under which the rules report.
abbrev pub rule_ids : List String
rule_ids =
    "tls-version-sslv3" ∷ "tls-version-tls1-0" ∷ "tls-version-tls1-1" ∷ "non-aead-bulk-cipher"
    ∷ "weak-cipher-suite" ∷ "export-grade-cipher" ∷ "non-pfs-key-exchange" ∷ "rc4-cipher"
    ∷ "3des-cipher" ∷ "expired-certificate" ∷ "certificate-not-yet-valid"
    ∷ "self-signed-certificate" ∷ "untrusted-certificate-chain" ∷ "weak-signature-algorithm"
    ∷ "short-public-key" ∷ "plaintext-mail-protocol" ∷ "starttls-strip-attempt"
    ∷ "client-no-pfs-suites" ∷ "no-tls-on-implicit-port" ∷ "tls-handshake-incomplete"
    ∷ "unknown-cipher-suite" ∷ "deprecated-group-negotiated" ∷ "deprecated-group-offered"
    ∷ "no-modern-pfs-group" ∷ "downgrade-attack-detected" ∷ "hrr-group-mismatch"
    ∷ "tls-version-downgrade-suspected" ∷ "tls13-not-negotiated" ∷ "ech-observed"
    ∷ "legacy-compression-offered" ∷ "outdated-client-stack" ∷ []

abbrev pub Known : String → Type 0
Known rule_id = listed rule_id rule_ids ≡ true

abbrev pub Anything : SessionAnalysis → Type 0
Anything sa = Unit

pub All-Known : (now : ℕ) → All (Effects Known Anything) (all_rules now)
unfolding listed
All-Known now = (
  (λ sa g. deprecated_version-Effect Known sa refl refl refl),
  (
    (λ sa g. non_aead_cipher-Effect Known sa refl),
    (
      (λ sa g. weak_cipher-Effect Known sa refl),
      (
        (λ sa g. export_cipher-Effect Known sa refl),
        (
          (λ sa g. non_pfs-Effect Known sa refl),
          (
            (λ sa g. rc4-Effect Known sa refl),
            (
              (λ sa g. triple_des-Effect Known sa refl),
              (
                (λ sa g. cert_expired-Effect Known now sa refl),
                (
                  (λ sa g. cert_not_yet_valid-Effect Known now sa refl),
                  (
                    (λ sa g. cert_self_signed-Effect Known sa refl),
                    (
                      (λ sa g. chain_untrusted-Effect Known sa refl),
                      (
                        (λ sa g. weak_signature-Effect Known sa refl),
                        (
                          (λ sa g. short_key-Effect Known sa refl),
                          (
                            (λ sa g. ssl_in_plaintext-Effect Known sa refl),
                            (
                              (λ sa g. starttls_strip-Effect Known sa refl),
                              (
                                (λ sa g. client_pfs-Effect Known sa refl),
                                (
                                  (λ sa g. no_tls_on_tls_port-Effect Known sa refl),
                                  (
                                    (λ sa g. handshake_incomplete-Effect Known sa refl),
                                    (
                                      (λ sa g. unknown_cipher-Effect Known sa refl),
                                      (
                                        (λ sa g. legacy_groups-Effect Known sa refl refl),
                                        (
                                          (λ sa g. no_modern_pfs_group-Effect Known sa refl),
                                          (
                                            (λ sa g. downgrade_sentinel-Effect Known sa refl),
                                            (
                                              (λ sa g. hrr_anomaly-Effect Known sa refl),
                                              (
                                                (λ sa g.
                                                    tls_version_downgrade-Effect Known sa refl
                                                      refl),
                                                (
                                                  (λ sa g. ech_present-Effect Known sa refl),
                                                  (
                                                    (λ sa g.
                                                        legacy_compression-Effect Known sa refl),
                                                    (
                                                      (λ sa g.
                                                          outdated_client_stack-Effect Known sa
                                                            refl),
                                                      tt,
                                                    ),
                                                  ),
                                                ),
                                              ),
                                            ),
                                          ),
                                        ),
                                      ),
                                    ),
                                  ),
                                ),
                              ),
                            ),
                          ),
                        ),
                      ),
                    ),
                  ),
                ),
              ),
            ),
          ),
        ),
      ),
    ),
  ),
)

-- A run of the rules leaves the facts of the session as they are, keeps the findings that are there
-- and what is noted as not observable, and appends findings under the known names only.
pub run_rules-Effect :
    (now : ℕ) (sa : SessionAnalysis)
    → Effect (λ rule_id. listed rule_id rule_ids ≡ true) sa (run_rules now sa)
unfolding run_rules
run_rules-Effect now sa =
    run_all-Effect Known Anything (λ a b e g. tt) (all_rules now) (All-Known now) sa tt
