-- ===== src/Rules/Hellos.antt =====
-- The rules on what client and server say in their hellos (backend/app/parsing/rules.py).
use cipher_post.Prelude.{
  ℕ, max, Bool, true, false, not, ◌&&◌, Option, none, some, List, [], ◌∷◌, ltb, leb, ◌==◌,
  if◌then◌else◌,
}
use cipher_post.Prelude.Bytes.{bytes_eq}
use cipher_post.Prelude.Classes.{nat_eq, string_eq}
use cipher_post.Handshake.Ciphers.{lookup_cipher}
use cipher_post.Handshake.ClientHello.{ClientHelloInfo}
use cipher_post.Handshake.Groups.{
  strip_grease, is_deprecated_group, is_modern_fs_group, member, any,
}
use cipher_post.Rules.{
  info, low, medium, high, critical, SessionAnalysis, add, add_if, on_some, Rule, given,
}

-- max(values), which needs one
unfoldable pub maximum : List ℕ → Option ℕ
maximum [] = none
maximum (v ∷ values) = elim (maximum values) [ none ↦ some v | some w ↦ some (max v w) ]

abbrev pub filter : (ℕ → Bool) → List ℕ → List ℕ
filter p [] = []
filter p (x ∷ xs) = let rest = filter p xs in if p x then x ∷ rest else rest

abbrev pub non_empty {ℓ} : {A : Type ℓ} → List A → Bool
non_empty [] = false
non_empty (x ∷ xs) = true

-- The suite is known and has forward secrecy.
abbrev pub suite_pfs : ℕ → Bool
suite_pfs cs = on_some (λ m. m.pfs) (lookup_cipher cs)

unfoldable pub rule_no_client_hello_pfs_capability : Rule
rule_no_client_hello_pfs_capability sa =
    given sa.client_hello
      (λ ch.
        add_if
          (on_some (λ v. not (v == 0) && ltb v 0x0304) sa.tls_version
            && not (any suite_pfs ch.cipher_suites))
          "client-no-pfs-suites" low sa)
      sa

-- Not among the rules that are run.
unfoldable pub rule_alpn_missing : Rule
rule_alpn_missing sa =
    given sa.client_hello
      (λ ch.
        add_if (not (non_empty ch.alpn) && on_some (λ v. v == 0x0304) sa.tls_version)
          "alpn-not-negotiated" info sa)
      sa

-- getattr(sh, "selected_group", None) if sh else None
abbrev pub selected_group_of : SessionAnalysis → Option ℕ
selected_group_of sa = elim sa.server_hello [ none ↦ none | some sh ↦ sh.selected_group ]

unfoldable pub rule_legacy_groups : Rule
rule_legacy_groups sa =
    given sa.client_hello
      (λ ch.
        let groups = strip_grease ch.supported_groups in
        if on_some is_deprecated_group (selected_group_of sa)
        then add "deprecated-group-negotiated" high sa
        else add_if (non_empty (filter is_deprecated_group groups)) "deprecated-group-offered"
            (if any is_modern_fs_group groups then low else medium) sa)
      sa

unfoldable pub rule_no_modern_pfs_group : Rule
rule_no_modern_pfs_group sa =
    given sa.client_hello
      (λ ch.
        let offered = strip_grease ch.supported_groups in
        add_if
          (non_empty ch.supported_groups
            && non_empty offered
            && not (any is_modern_fs_group offered))
          "no-modern-pfs-group" medium sa)
      sa

-- max(ch.offered_versions) if ch and ch.offered_versions else None
abbrev pub best_offer : SessionAnalysis → Option ℕ
best_offer sa = elim sa.client_hello [ none ↦ none | some ch ↦ maximum ch.offered_versions ]

-- Both are there, and the first is greater.
abbrev pub above : Option ℕ → Option ℕ → Bool
above a b = on_some (λ v. on_some (λ w. ltb w v) b) a

unfoldable pub rule_downgrade_sentinel : Rule
unfolding maximum
rule_downgrade_sentinel sa =
    given sa.server_hello
      (λ sh.
        add_if (on_some (λ s. true) sh.downgrade_sentinel && above (best_offer sa) sa.tls_version)
          "downgrade-attack-detected" critical sa)
      sa

abbrev pub offered_groups : SessionAnalysis → List ℕ
offered_groups sa = elim sa.client_hello [ none ↦ [] | some ch ↦ strip_grease ch.supported_groups ]

unfoldable pub rule_hrr_anomaly : Rule
rule_hrr_anomaly sa =
    given sa.server_hello
      (λ sh.
        add_if
          (sh.is_hrr
            && non_empty (offered_groups sa)
            && on_some (λ g. not (member g (offered_groups sa))) sh.selected_group)
          "hrr-group-mismatch" medium sa)
      sa

-- The two reports on a version below the best offer.
unfoldable pub report_downgrade : ℕ → ℕ → Rule
report_downgrade version best sa =
    if leb best version
    then sa
    else if leb version 0x0302 && leb 0x0303 best
    then add "tls-version-downgrade-suspected" high sa
    else add_if (version == 0x0303 && best == 0x0304) "tls13-not-negotiated" info sa

unfoldable pub rule_tls_version_downgrade : Rule
unfolding maximum report_downgrade
rule_tls_version_downgrade sa =
    given (best_offer sa)
      (λ best. given sa.tls_version (λ version. report_downgrade version best sa) sa) sa

unfoldable pub rule_ech_present : Rule
rule_ech_present sa = add_if (on_some (λ ch. ch.ech_outer) sa.client_hello) "ech-observed" info sa

-- The versions offered, or the legacy version where the extension names none.
unfoldable pub client_offers : ClientHelloInfo → List ℕ
client_offers ch =
    if non_empty ch.offered_versions
    then ch.offered_versions
    else elim ch.legacy_version [ none ↦ [] | some v ↦ v ∷ [] ]

unfoldable pub rule_outdated_client_stack : Rule
unfolding client_offers maximum
rule_outdated_client_stack sa =
    given sa.client_hello
      (λ ch.
        add_if (on_some (λ best. leb best 0x0302) (maximum (client_offers ch)))
          "outdated-client-stack" info sa)
      sa

unfoldable pub rule_legacy_compression : Rule
rule_legacy_compression sa =
    given sa.client_hello
      (λ ch.
        add_if
          (on_some (λ v. v == 0x0304) sa.tls_version
            && non_empty ch.compression
            && not (bytes_eq ch.compression (0 ∷ [])))
          "legacy-compression-offered" low sa)
      sa
