-- ===== src/Rules/Observable.antt =====
-- Certificates that cannot be observed are not judged.
use Prim.Native.String.{String}
use cipher_post.Prelude.{ℕ, ◌≡◌, refl, ap, ◌∙◌, true, false, some, get_elem?, All}
use cipher_post.Prelude.Classes.{nat_eq, string_eq}
use cipher_post.Rules.{SessionAnalysis, Rule}
use cipher_post.Rules.Certs.{
  cert_rule_ids, certs_usable, listed, saw_tls13, rule_cert_expired, rule_cert_not_yet_valid,
  rule_cert_self_signed, rule_chain_untrusted, rule_weak_signature, rule_short_key,
}
use cipher_post.Rules.Run.{all_rules, run_all, run_rules}
use cipher_post.Rules.Effect.{facts, Effect, Effects, run_all-Effect, run_all-keeps}
use cipher_post.Rules.Adds.{
  deprecated_version-Effect, non_aead_cipher-Effect, weak_cipher-Effect, non_pfs-Effect,
  export_cipher-Effect, rc4-Effect, triple_des-Effect, unknown_cipher-Effect,
  ssl_in_plaintext-Effect, starttls_strip-Effect, no_tls_on_tls_port-Effect,
  handshake_incomplete-Effect, client_pfs-Effect, legacy_groups-Effect, no_modern_pfs_group-Effect,
  downgrade_sentinel-Effect, hrr_anomaly-Effect, tls_version_downgrade-Effect, ech_present-Effect,
  outdated_client_stack-Effect, legacy_compression-Effect,
}
use cipher_post.Rules.CertEffects.{Unobserved, quiet-Effect, guarded-listed}

abbrev Other : String → Type 0
Other rule_id = listed rule_id cert_rule_ids ≡ false

stable : (sa out : SessionAnalysis) → facts out ≡ facts sa → Unobserved sa → Unobserved out
stable sa out e u = (ap (λ s. certs_usable s.certs) e ∙ u.0, ap (λ s. saw_tls13 s) e ∙ u.1)

All-Other : (now : ℕ) → All (Effects Other Unobserved) (all_rules now)
unfolding listed rule_cert_expired rule_cert_not_yet_valid rule_cert_self_signed
    rule_chain_untrusted rule_weak_signature rule_short_key
All-Other now = (
  (λ sa g. deprecated_version-Effect Other sa refl refl refl),
  (
    (λ sa g. non_aead_cipher-Effect Other sa refl),
    (
      (λ sa g. weak_cipher-Effect Other sa refl),
      (
        (λ sa g. export_cipher-Effect Other sa refl),
        (
          (λ sa g. non_pfs-Effect Other sa refl),
          (
            (λ sa g. rc4-Effect Other sa refl),
            (
              (λ sa g. triple_des-Effect Other sa refl),
              (
                (λ sa g. quiet-Effect Other "expired-certificate" _ sa g),
                (
                  (λ sa g. quiet-Effect Other "certificate-not-yet-valid" _ sa g),
                  (
                    (λ sa g. quiet-Effect Other "self-signed-certificate" _ sa g),
                    (
                      (λ sa g. quiet-Effect Other "untrusted-certificate-chain" _ sa g),
                      (
                        (λ sa g. quiet-Effect Other "weak-signature-algorithm" _ sa g),
                        (
                          (λ sa g. quiet-Effect Other "short-public-key" _ sa g),
                          (
                            (λ sa g. ssl_in_plaintext-Effect Other sa refl),
                            (
                              (λ sa g. starttls_strip-Effect Other sa refl),
                              (
                                (λ sa g. client_pfs-Effect Other sa refl),
                                (
                                  (λ sa g. no_tls_on_tls_port-Effect Other sa refl),
                                  (
                                    (λ sa g. handshake_incomplete-Effect Other sa refl),
                                    (
                                      (λ sa g. unknown_cipher-Effect Other sa refl),
                                      (
                                        (λ sa g. legacy_groups-Effect Other sa refl refl),
                                        (
                                          (λ sa g. no_modern_pfs_group-Effect Other sa refl),
                                          (
                                            (λ sa g. downgrade_sentinel-Effect Other sa refl),
                                            (
                                              (λ sa g. hrr_anomaly-Effect Other sa refl),
                                              (
                                                (λ sa g.
                                                    tls_version_downgrade-Effect Other sa refl
                                                      refl),
                                                (
                                                  (λ sa g. ech_present-Effect Other sa refl),
                                                  (
                                                    (λ sa g.
                                                        legacy_compression-Effect Other sa refl),
                                                    (
                                                      (λ sa g.
                                                          outdated_client_stack-Effect Other sa
                                                            refl),
                                                      tt,
                                                    ),
                                                  ),
                                                ),
                                              ),
                                            ),
                                          ),
                                        ),
                                      ),
                                    ),
                                  ),
                                ),
                              ),
                            ),
                          ),
                        ),
                      ),
                    ),
                  ),
                ),
              ),
            ),
          ),
        ),
      ),
    ),
  ),
)

-- A run over a TLS 1.3 session of which no usable certificate was observed.
pub record Skipped (sa out : SessionAnalysis) : Type 0 where
  pub effect : Effect (λ rule_id. listed rule_id cert_rule_ids ≡ false) sa out
  pub noted : All (λ rule_id. listed rule_id out.not_observable ≡ true) cert_rule_ids

-- In a TLS 1.3 session without a usable certificate no rule on certificates reports anything, all six
-- of them are noted as not observable, and nothing but the findings and those notes changes.
pub run_rules-Skipped :
    (now : ℕ) (sa : SessionAnalysis) → Unobserved sa → Skipped sa (run_rules now sa)
unfolding run_rules rule_cert_expired rule_cert_not_yet_valid rule_cert_self_signed
    rule_chain_untrusted rule_weak_signature rule_short_key
run_rules-Skipped now sa u = record {
  effect = run_all-Effect Other Unobserved stable (all_rules now) (All-Other now) sa u;
  noted = (
    notes 7 (rule_cert_expired now) "expired-certificate" refl
        (guarded-listed "expired-certificate" _),
    (
      notes 8 (rule_cert_not_yet_valid now) "certificate-not-yet-valid" refl
          (guarded-listed "certificate-not-yet-valid" _),
      (
        notes 9 (rule_cert_self_signed) "self-signed-certificate" refl
            (guarded-listed "self-signed-certificate" _),
        (
          notes 10 (rule_chain_untrusted) "untrusted-certificate-chain" refl
              (guarded-listed "untrusted-certificate-chain" _),
          (
            notes 11 (rule_weak_signature) "weak-signature-algorithm" refl
                (guarded-listed "weak-signature-algorithm" _),
            (
              notes 12 (rule_short_key) "short-public-key" refl
                  (guarded-listed "short-public-key" _),
              tt,
            ),
          ),
        ),
      ),
    ),
  );
}
  where
    notes :
        (n : ℕ) (rule : Rule) (rule_id : String)
        → get_elem? (all_rules now) n ≡ some rule
        → ((s : SessionAnalysis) → Unobserved s → listed rule_id (rule s).not_observable ≡ true)
        → listed rule_id (run_all (all_rules now) sa).not_observable ≡ true
    notes n rule rule_id at h =
        run_all-keeps Other Unobserved stable (λ s. listed rule_id s.not_observable ≡ true)
          (λ a b e k. e.kept rule_id k) (all_rules now) (All-Other now) n rule at h sa u
