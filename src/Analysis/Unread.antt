-- ===== src/Analysis/Unread.antt =====
-- When the certificates of a session cannot be read.
use cipher_post.Prelude.{
  ℕ, ◌≡◌, refl, inl, inr, true, Option, none, some, List, [], ◌∷◌, arith, Option-cases, get_elem?,
  zero, suc,
}
use cipher_post.Prelude.Bytes.{Bytes}
use cipher_post.Prelude.Classes.{nat_eq, string_eq}
use cipher_post.Handshake.Certificate.{CertificateInfo}
use cipher_post.Certificates.Chain.{OpenSsl}
use cipher_post.Certificates.Reading.{X509, analyze_certificate, analyze_certificates}
use cipher_post.Rules.{SessionAnalysis}
use cipher_post.Rules.Hellos.{non_empty}
use cipher_post.Analysis.{with_verdicts, with_cipher, with_negotiated, with_certs}

-- The reading of one of these raises.
abbrev pub IsUnreadable : (Bytes → Option X509) → List Bytes → Type 0
IsUnreadable load ders =
    (n : ℕ) × (der : Bytes) × (get_elem? ders n ≡ some der) × (analyze_certificate load der ≡ none)

unread_anywhere :
    (load : Bytes → Option X509) (ders : List Bytes) (n : ℕ) (der : Bytes)
    → get_elem? ders n ≡ some der
    → analyze_certificate load der ≡ none
    → analyze_certificates load ders ≡ none
unfolding analyze_certificates
unread_anywhere load [] n der at e = absurd (ground (arith, at))
unread_anywhere load (d ∷ ders) zero der at e = ground arith
unread_anywhere load (d ∷ ders) (suc n) der at e =
    ground (arith, unread_anywhere load ders n der at e)

unread_somewhere :
    (load : Bytes → Option X509) (ders : List Bytes)
    → analyze_certificates load ders ≡ none
    → IsUnreadable load ders
unfolding analyze_certificates
unread_somewhere load [] h = absurd (ground (arith, h))
unread_somewhere load (d ∷ ders) h = elim (Option-cases (analyze_certificate load d)) [
  | inl e ↦ (0, d, refl, e)
  | inr (c, e) ↦ elim (Option-cases (analyze_certificates load ders)) [
    | inl f ↦ let (n, der, at, g) = unread_somewhere load ders f in (suc n, der, at, g)
    | inr (cs, f) ↦ absurd (ground (arith, h, e, f))
  ]
]

pub with_negotiated-certificate :
    (sa : SessionAnalysis) → (with_negotiated sa).certificate ≡ sa.certificate
unfolding with_negotiated with_cipher
with_negotiated-certificate sa = ground arith

non_empty-get_elem? :
    (ders : List Bytes) (n : ℕ) (der : Bytes) → get_elem? ders n ≡ some der → non_empty ders ≡ true
non_empty-get_elem? [] n der at = absurd (ground (arith, at))
non_empty-get_elem? (d ∷ ders) n der at = refl

pub with_certs-none :
    (load : Bytes → Option X509) (openssl : OpenSsl) (sa : SessionAnalysis) (c : CertificateInfo)
    → sa.certificate ≡ some c
    → IsUnreadable load c.raw_certs
    → with_certs load openssl sa ≡ none
unfolding with_certs
with_certs-none load openssl sa c h u =
    let f : analyze_certificates load c.raw_certs ≡ none =
      unread_anywhere load c.raw_certs u.0 u.1 u.2 u.3 in
    let t : non_empty c.raw_certs ≡ true = non_empty-get_elem? c.raw_certs u.0 u.1 u.2 in
    rw (h, t, f, with_certs)

pub with_certs-none_inv :
    (load : Bytes → Option X509) (openssl : OpenSsl) (sa : SessionAnalysis)
    → with_certs load openssl sa ≡ none
    → (c : CertificateInfo) × (sa.certificate ≡ some c) × IsUnreadable load c.raw_certs
unfolding with_certs
with_certs-none_inv load openssl sa h = elim (Option-cases sa.certificate) [
  | inl e ↦ absurd (ground (arith, h, e))
  | inr (c, e) ↦ (c, e, unread_somewhere load c.raw_certs (ground (arith, h, e)))
]

pub with_verdicts-none :
    (decode : Bytes → Bytes) (load : Bytes → Option X509) (openssl : OpenSsl) (sa : SessionAnalysis)
    → with_certs load openssl (with_negotiated sa) ≡ none
    → with_verdicts decode load openssl sa ≡ none
unfolding with_verdicts
with_verdicts-none decode load openssl sa h = rw (h, with_verdicts)

pub with_verdicts-none_inv :
    (decode : Bytes → Bytes) (load : Bytes → Option X509) (openssl : OpenSsl) (sa : SessionAnalysis)
    → with_verdicts decode load openssl sa ≡ none
    → with_certs load openssl (with_negotiated sa) ≡ none
unfolding with_verdicts
with_verdicts-none_inv decode load openssl sa h = ground (arith, h)
