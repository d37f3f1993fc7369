-- ===== src/Rules/NullSuite.antt =====
-- Suites without encryption.
use cipher_post.Prelude.{
  ◌≡◌, refl, ap, ◌∙◌, Bool, true, false, not, ◌&&◌, ◌||◌, some, ◌==◌, if◌then◌else◌,
}
use cipher_post.Prelude.Classes.{eqb, nat_eq, string_eq}
use cipher_post.Handshake.Ciphers.{CipherMeta}
use cipher_post.Rules.{SessionAnalysis, add_if, on_some, given}
use cipher_post.Rules.Ciphers.{
  rule_non_aead_cipher, rule_weak_cipher, rule_export_cipher, rule_unknown_cipher, is_class,
  is_none,
}

if_true : {A : Type 0} (b : Bool) (x y : A) → b ≡ true → (if b then x else y) ≡ x
if_true b x y e = ap (λ c. if c then x else y) e

if_false : {A : Type 0} (b : Bool) (x y : A) → b ≡ false → (if b then x else y) ≡ y
if_false b x y e = ap (λ c. if c then x else y) e

given-some :
    (sa : SessionAnalysis) (m : CipherMeta) (rest : CipherMeta → SessionAnalysis)
    → sa.cipher_meta ≡ some m
    → given sa.cipher_meta rest sa ≡ rest m
unfolding given
given-some sa m rest e = ap (λ o. given o rest sa) e

-- A session with a suite of the class "null" and the kind "none", as the table gives them to the
-- suites without encryption: the rules on weak, export-grade, legacy and unknown suites all report
-- nothing.
pub null_suite_silent :
    (sa : SessionAnalysis) (m : CipherMeta)
    → sa.cipher_meta ≡ some m
    → m.export_class ≡ some "null"
    → m.kind ≡ "none"
    → (rule_weak_cipher sa ≡ sa)
      × (rule_export_cipher sa ≡ sa)
      × (rule_non_aead_cipher sa ≡ sa)
      × (rule_unknown_cipher sa ≡ sa)
unfolding rule_weak_cipher rule_export_cipher rule_non_aead_cipher rule_unknown_cipher add_if
null_suite_silent sa m e c k = (
  given-some sa m _ e
      ∙ if_true _ _ _ (
          ap
            (λ o.
              on_some (λ x. eqb x "export") o
              || on_some (λ x. eqb x "null") o
              || on_some (λ x. eqb x "rc4") o)
            c),
  if_false _ _ _
      (ap (λ o. on_some (is_class "export") o) e ∙ ap (λ o. on_some (λ x. eqb x "export") o) c),
  given-some sa m _ e ∙ if_false _ _ _ (ap (λ d. eqb d "cbc" || eqb d "stream") k),
  if_false _ _ _ (no_unknown (on_some (λ n. not (n == 0)) sa.cipher_iana)),
)
  where
    no_unknown : (b : Bool) → (b && is_none sa.cipher_meta) ≡ false
    no_unknown true = ap (λ o. is_none o) e
    no_unknown false = refl
