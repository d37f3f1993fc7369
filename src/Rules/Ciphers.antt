-- ===== src/Rules/Ciphers.antt =====
-- The rules on the negotiated version and cipher suite (backend/app/parsing/rules.py).
use Prim.Native.String.{String}
use cipher_post.Prelude.{
  ℕ, Bool, true, false, not, ◌&&◌, ◌||◌, Option, none, some, leb, ◌==◌, if◌then◌else◌,
}
use cipher_post.Prelude.Bytes.{Bytes, codes}
use cipher_post.Prelude.Bytes.{contains}
use cipher_post.Prelude.Classes.{eqb, nat_eq, string_eq}
use cipher_post.Handshake.Ciphers.{CipherMeta}
use cipher_post.Rules.{
  Severity, low, medium, high, critical, SessionAnalysis, add, add_if, on_some, Rule, given,
}

-- WEAK_VERSIONS, with the rule that is made of the name.
unfoldable pub weak_version : ℕ → Option (String × Severity)
weak_version v =
    if v == 0x0300
    then some ("tls-version-sslv3", critical)
    else if v == 0x0301
    then some ("tls-version-tls1-0", high)
    else if v == 0x0302
    then some ("tls-version-tls1-1", high)
    else none

unfoldable pub rule_deprecated_version : Rule
rule_deprecated_version sa =
    given sa.tls_version (λ v. given (weak_version v) (λ p. add p.0 p.1 sa) sa) sa

-- kind in ("cbc", "stream")
abbrev pub legacy_bulk : CipherMeta → Bool
legacy_bulk m = eqb m.kind "cbc" || eqb m.kind "stream"

unfoldable pub rule_non_aead_cipher : Rule
rule_non_aead_cipher sa =
    given sa.cipher_meta
      (λ m.
        add_if (legacy_bulk m) "non-aead-bulk-cipher" (if eqb m.kind "cbc" then low else medium) sa)
      sa

abbrev pub is_class : String → CipherMeta → Bool
is_class c m = on_some (λ e. eqb e c) m.export_class

-- The severity of CATEGORY_STRENGTH for the two kinds that get there, and the one for weak ciphers.
unfoldable pub weak_severity : CipherMeta → Severity
weak_severity m =
    if leb m.strength 30
    then (if leb m.key_len 56 then critical else medium)
    else if eqb m.kind "cbc"
    then low
    else medium

unfoldable pub rule_weak_cipher : Rule
unfolding weak_severity
rule_weak_cipher sa =
    given sa.cipher_meta
      (λ m.
        if is_class "export" m || is_class "null" m || is_class "rc4" m
        then sa
        else add_if (legacy_bulk m) "weak-cipher-suite" (weak_severity m) sa)
      sa

unfoldable pub rule_non_pfs : Rule
rule_non_pfs sa = add_if (on_some (λ m. not m.pfs) sa.cipher_meta) "non-pfs-key-exchange" medium sa

unfoldable pub rule_export_cipher : Rule
rule_export_cipher sa =
    add_if (on_some (is_class "export") sa.cipher_meta) "export-grade-cipher" critical sa

-- sa.cipher_meta and part in (sa.cipher or "")
abbrev pub cipher_names : Bytes → SessionAnalysis → Bool
cipher_names part sa =
    on_some (λ m. true) sa.cipher_meta && on_some (λ name. contains part name) sa.cipher

unfoldable pub rule_rc4 : Rule
rule_rc4 sa = add_if (cipher_names (codes "RC4") sa) "rc4-cipher" high sa

unfoldable pub rule_3des : Rule
rule_3des sa = add_if (cipher_names (codes "3DES") sa) "3des-cipher" medium sa

abbrev pub is_none {ℓ} : {A : Type ℓ} → Option A → Bool
is_none none = true
is_none (some a) = false

unfoldable pub rule_unknown_cipher : Rule
rule_unknown_cipher sa =
    add_if (on_some (λ n. not (n == 0)) sa.cipher_iana && is_none sa.cipher_meta)
      "unknown-cipher-suite" medium sa
