-- ===== src/Certificates/Reading.antt =====
-- How the fields of a certificate are read: _cn, _pubkey_info and analyze_certificate of
-- backend/app/parsing/certificates.py. A certificate as the library gives it has `none` for what
-- raises when it is read. The serial number and the alternative names are left out.
use Prim.Native.String.{String}
use cipher_post.Prelude.{ℕ, Bool, false, ◌&&◌, Option, none, some, List, [], ◌∷◌}
use cipher_post.Prelude.Bytes.{Bytes, codes, bytes_eq}
use cipher_post.Alerts.{or_text}
use cipher_post.Certificates.{CertAnalysis}

-- A public key by its type, with its size in bits where that varies.
pub data PublicKey : Type 0 where
  rsa ec dsa : ℕ → PublicKey
  ed25519 ed448 other : PublicKey

-- x509.Name: its attributes, as `==` compares them, and its first common name, if there is one.
pub record Name : Type 0 where
  pub attributes : Bytes
  pub common_name : Option Bytes

pub record X509 : Type 0 where
  pub subject : Option Name
  pub issuer : Option Name
  pub not_before : Option ℕ
  pub not_after : Option ℕ
  pub signature_name : Option Bytes
  pub public_key : Option PublicKey
  pub basic_constraints_ca : Option Bool

infixl 5 ◌>>=◌
abbrev ◌>>=◌ : {A B : Type 0} → Option A → (A → Option B) → Option B
none >>= f = none
some a >>= f = f a

abbrev pub cn : Name → Bytes
cn name = elim name.common_name [ none ↦ codes "<oid missing>" | some v ↦ v ]

abbrev pub pubkey_info : PublicKey → String × Option ℕ
pubkey_info (rsa bits) = ("RSA", some bits)
pubkey_info (ec bits) = ("EC", some bits)
pubkey_info (dsa bits) = ("DSA", some bits)
pubkey_info ed25519 = ("Ed25519", some 256)
pubkey_info ed448 = ("Ed448", some 448)
pubkey_info other = ("Unknown", none)

abbrev pub unparseable : Bytes → CertAnalysis
unparseable der = record {
  subject_cn = codes "<unparseable>";
  issuer_cn = codes "<unparseable>";
  not_before = none;
  not_after = none;
  pubkey_alg = "Unknown";
  pubkey_bits = none;
  signature_alg = codes "unknown";
  is_self_signed = false;
  is_ca = false;
  der = der;
}

-- bool(bc.value.ca), or False if the extension is missing or cannot be read
abbrev pub ca_of : Option Bool → Bool
ca_of none = false
ca_of (some ca) = ca

-- The fields of a certificate that was loaded; `none` if one of them raises.
unfoldable pub describe : Bytes → X509 → Option CertAnalysis
describe der cert = do
  not_before ← cert.not_before
  not_after ← cert.not_after
  key ← cert.public_key
  subject ← cert.subject
  issuer ← cert.issuer
  some (record {
    subject_cn = cn subject;
    issuer_cn = cn issuer;
    not_before = some not_before;
    not_after = some not_after;
    pubkey_alg = (pubkey_info key).0;
    pubkey_bits = (pubkey_info key).1;
    signature_alg = or_text cert.signature_name (codes "unknown");
    is_self_signed =
        bytes_eq (cn subject) (cn issuer) && bytes_eq subject.attributes issuer.attributes;
    is_ca = ca_of cert.basic_constraints_ca;
    der = der;
  })

-- `load` is load_der_x509_certificate, with `none` for an exception, which is caught. An exception
-- while the fields are read is not: then the result is `none`.
module _ (load : Bytes → Option X509) where
  unfoldable pub analyze_certificate : Bytes → Option CertAnalysis
  unfolding describe
  analyze_certificate der = elim (load der) [
    | none ↦ some (unparseable der)
    | some cert ↦ describe der cert
  ]

  -- [analyze_certificate(der) for der in ders]
  unfoldable pub analyze_certificates : List Bytes → Option (List CertAnalysis)
  unfolding analyze_certificate
  analyze_certificates [] = some []
  analyze_certificates (der ∷ ders) =
      analyze_certificate der >>= λ c. analyze_certificates ders >>= λ cs. some (c ∷ cs)
