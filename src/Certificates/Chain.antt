-- ===== src/Certificates/Chain.antt =====
-- The verdict on a chain of certificates: validate_chain of backend/app/parsing/certificates.py. What
-- pyOpenSSL and the X.509 library answer are the fields of `OpenSsl`.
use Prim.Native.String.{String}
use cipher_post.Prelude.{
  ℕ, Bool, not, Option, none, some, List, [], ◌∷◌, ◌++◌, ◌==◌, if◌then◌else◌, take,
}
use cipher_post.Prelude.Bytes.{Bytes, codes, contains}
use cipher_post.Prelude.Classes.{nat_eq}
use cipher_post.Prelude.Removal.{member}
use cipher_post.Flows.{bytes_key}
use cipher_post.Certificates.{lower}

-- How the verification of a chain ends: without an exception, with an X509StoreContextError of this
-- code and detail, or with any other exception on the way to it.
pub data Verification : Type 0 where
  verified : Verification
  context_error : Bytes → Bytes → Verification
  failed : Bytes → Verification

-- The libraries: whether pyOpenSSL is there, the number of trust anchors that could be loaded, how
-- the verification of a chain against them ends, and the alternative names of a certificate, none of
-- them if the extension cannot be read and `none` if the certificate does not load.
pub record OpenSsl : Type 0 where
  pub has_openssl : Bool
  pub anchors : ℕ
  pub verify : List Bytes → Verification
  pub alt_names : Bytes → Option (List Bytes)

-- phrase in detail.lower()
abbrev pub says : Bytes → String → Bool
says detail phrase = contains (codes phrase) (lower detail)

unfoldable pub context_verdict : Bytes → Bytes → String × Bytes
unfolding contains lower
context_verdict code detail =
    if says detail "expired"
    then ("expired", detail)
    else if says detail "not yet valid"
    then ("not-yet-valid", detail)
    else if says detail "unable to get local issuer certificate"
    then ("untrusted", detail)
    else if says detail "unable to get issuer certificate"
    then ("untrusted", detail)
    else if says detail "self signed certificate"
    then ("untrusted", detail)
    else if says detail "signature algorithm"
    then ("invalid-sig", detail)
    else if says detail "signature"
    then ("invalid-sig", detail)
    else ("untrusted", detail ++ codes " (err code " ++ code ++ codes ")")

-- Whether a name is among those of the first certificate, for a chain that was verified.
unfoldable pub check_hostname : Option (List Bytes) → Option Bytes → String × Bytes
unfolding member
check_hostname sans none = ("ok", codes "verified against trust store")
check_hostname sans (some []) = ("ok", codes "verified against trust store")
check_hostname none (some (b ∷ bs)) = ("parse-error", codes "could not check hostname")
check_hostname (some sans) (some (b ∷ bs)) =
    if member (b ∷ bs) sans
    then ("ok", codes "verified against trust store")
    else ("hostname-mismatch", b ∷ bs ++ codes " not in SANs")

module _ (openssl : OpenSsl) where
  unfoldable pub verdict_of : Verification → Bytes → Option Bytes → String × Bytes
  unfolding context_verdict check_hostname
  verdict_of verified leaf hostname = check_hostname (openssl.alt_names leaf) hostname
  verdict_of (context_error code detail) leaf hostname = context_verdict code detail
  verdict_of (failed message) leaf hostname = ("config-error", take 256 message)

  unfoldable pub validate_chain : List Bytes → Option Bytes → String × Bytes
  unfolding verdict_of
  validate_chain [] hostname =
      if not openssl.has_openssl
      then ("config-error", codes "pyOpenSSL not available")
      else ("parse-error", codes "empty chain")
  validate_chain (leaf ∷ rest) hostname =
      if not openssl.has_openssl
      then ("config-error", codes "pyOpenSSL not available")
      else if openssl.anchors == 0
      then ("config-error", codes "no trust anchors could be loaded")
      else verdict_of (openssl.verify (leaf ∷ rest)) leaf hostname
