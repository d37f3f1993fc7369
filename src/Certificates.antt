-- ===== src/Certificates.antt =====
-- Certificate verdicts on the fields that are read from X.509 (backend/app/parsing/certificates.py).
-- Times are in seconds, `now` is the clock, and a time without a time zone is taken as UTC.
pub mod Chain
pub mod Reading
use Prim.Native.String.{String}
use cipher_post.Prelude.{
  ℕ, ◌+◌, ◌-◌, Bool, false, ◌&&◌, ◌||◌, Option, none, some, [], ◌∷◌, ltb, leb, if◌then◌else◌,
  length, drop,
}
use cipher_post.Prelude.Bytes.{Bytes, codes, bytes_eq}
use cipher_post.Prelude.Bytes.{starts_with}
use cipher_post.Prelude.Classes.{eqb, nat_eq, string_eq}

pub record CertAnalysis : Type 0 where
  pub subject_cn : Bytes
  pub issuer_cn : Bytes
  pub not_before : Option ℕ
  pub not_after : Option ℕ
  pub pubkey_alg : String
  pub pubkey_bits : Option ℕ
  pub signature_alg : Bytes
  pub is_self_signed : Bool
  pub is_ca : Bool
  pub der : Bytes

unfoldable pub expired : ℕ → CertAnalysis → Bool
expired now c = elim c.not_after [ none ↦ false | some na ↦ ltb na now ]

unfoldable pub not_yet_valid : ℕ → CertAnalysis → Bool
not_yet_valid now c = elim c.not_before [ none ↦ false | some nb ↦ ltb now nb ]

-- str.lower() of ASCII text
unfoldable pub lower : Bytes → Bytes
lower [] = []
lower (b ∷ bs) = (if leb 65 b && leb b 90 then b + 32 else b) ∷ lower bs

unfoldable pub ends_with : Bytes → Bytes → Bool
ends_with suffix bs =
    leb (length suffix) (length bs) && bytes_eq (drop (length bs - length suffix) bs) suffix

unfoldable pub weak_signature : CertAnalysis → Bool
unfolding lower ends_with
weak_signature c =
    let sig = lower c.signature_alg in
    starts_with (codes "sha1") sig
    || starts_with (codes "md5") sig
    || ends_with (codes ".1.1.5") sig
    || ends_with (codes ".1.1.4") sig

-- pubkey_bits and pubkey_bits < limit
unfoldable pub shorter : Option ℕ → ℕ → Bool
shorter none limit = false
shorter (some bits) limit = ltb 0 bits && ltb bits limit

unfoldable pub short_key : CertAnalysis → Bool
unfolding shorter
short_key c =
    (eqb c.pubkey_alg "RSA" && shorter c.pubkey_bits 2048)
    || (eqb c.pubkey_alg "DSA" && shorter c.pubkey_bits 2048)
    || ((eqb c.pubkey_alg "EC" || eqb c.pubkey_alg "ECDSA") && shorter c.pubkey_bits 224)
