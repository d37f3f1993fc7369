-- ===== src/Rules/Certs.antt =====
-- The rules on certificates, which skip where none could be observed (backend/app/parsing/rules.py).
-- `now` is the clock.
use Prim.Native.String.{String}
use cipher_post.Prelude.{
  ℕ, Bool, true, false, not, ◌&&◌, ◌||◌, Option, none, some, List, [], ◌∷◌, ◌++◌, if◌then◌else◌,
}
use cipher_post.Prelude.Bytes.{Bytes, codes, bytes_eq}
use cipher_post.Prelude.Classes.{eqb, nat_eq, string_eq}
use cipher_post.Certificates.{CertAnalysis, expired, not_yet_valid, weak_signature, short_key}
use cipher_post.Rules.{Severity, medium, high, SessionAnalysis, add, add_if, on_some, Rule, given}

-- The subject is there and is no placeholder.
unfoldable pub real_subject : Bytes → Bool
real_subject cn =
    not
      (bytes_eq cn [] || bytes_eq cn (codes "<unparseable>") || bytes_eq cn (codes "<oid missing>"))

unfoldable pub certs_usable : List CertAnalysis → Bool
unfolding real_subject
certs_usable [] = false
certs_usable (c ∷ cs) =
    (on_some (λ nb. true) c.not_before && real_subject c.subject_cn) || certs_usable cs

-- CERT_RULE_IDS
abbrev pub cert_rule_ids : List String
cert_rule_ids =
    "expired-certificate" ∷ "certificate-not-yet-valid" ∷ "self-signed-certificate"
    ∷ "untrusted-certificate-chain" ∷ "weak-signature-algorithm" ∷ "short-public-key" ∷ []

-- rule_id in sa.not_observable
unfoldable pub listed : String → List String → Bool
listed rule_id [] = false
listed rule_id (s ∷ ss) = eqb rule_id s || listed rule_id ss

unfoldable pub skip : String → Rule
unfolding listed
skip rule_id sa =
    if listed rule_id sa.not_observable
    then sa
    else record sa { not_observable = sa.not_observable ++ rule_id ∷ [] }

abbrev pub saw_tls13 : SessionAnalysis → Bool
saw_tls13 sa = on_some (λ v. v.tls13) sa.visibility

unfoldable pub require_usable_certs : String → SessionAnalysis → Bool × SessionAnalysis
require_usable_certs rule_id sa =
    if certs_usable sa.certs
    then (true, sa)
    else if saw_tls13 sa
    then (false, skip rule_id sa)
    else (true, sa)

-- if not require_usable_certs(sa, rule_id): return
unfoldable pub guarded : String → Rule → Rule
guarded rule_id rule sa =
    let (usable, after) = require_usable_certs rule_id sa in if usable then rule after else after

-- for cert in sa.certs: if test: sa.add(...)
unfoldable pub add_each : (CertAnalysis → Bool) → String → Severity → List CertAnalysis → Rule
add_each test rule_id severity [] sa = sa
add_each test rule_id severity (c ∷ cs) sa =
    add_each test rule_id severity cs (add_if (test c) rule_id severity sa)

unfoldable pub rule_cert_expired : ℕ → Rule
rule_cert_expired now =
    guarded "expired-certificate"
      (λ sa. add_each (expired now) "expired-certificate" high sa.certs sa)

unfoldable pub rule_cert_not_yet_valid : ℕ → Rule
rule_cert_not_yet_valid now =
    guarded "certificate-not-yet-valid"
      (λ sa. add_each (not_yet_valid now) "certificate-not-yet-valid" medium sa.certs sa)

-- Only the leaf, with index 0.
abbrev pub leaf_self_signed : List CertAnalysis → Bool
leaf_self_signed [] = false
leaf_self_signed (c ∷ cs) = c.is_self_signed

unfoldable pub rule_cert_self_signed : Rule
rule_cert_self_signed =
    guarded "self-signed-certificate"
      (λ sa. add_if (leaf_self_signed sa.certs) "self-signed-certificate" medium sa)

unfoldable pub chain_severity : String → Option Severity
chain_severity result =
    if eqb result "untrusted" || eqb result "invalid-sig"
    then some high
    else if eqb result "hostname-mismatch" || eqb result "parse-error"
    then some medium
    else if eqb result "expired" || eqb result "not-yet-valid"
    then some high
    else none

unfoldable pub rule_chain_untrusted : Rule
rule_chain_untrusted = guarded "untrusted-certificate-chain" (λ sa.
    given (chain_severity sa.chain_result)
      (λ severity. add "untrusted-certificate-chain" severity sa) sa)

unfoldable pub rule_weak_signature : Rule
rule_weak_signature =
    guarded "weak-signature-algorithm"
      (λ sa. add_each weak_signature "weak-signature-algorithm" high sa.certs sa)

unfoldable pub rule_short_key : Rule
rule_short_key =
    guarded "short-public-key" (λ sa. add_each short_key "short-public-key" high sa.certs sa)
