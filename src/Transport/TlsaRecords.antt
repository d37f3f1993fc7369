-- ===== src/Transport/TlsaRecords.antt =====
-- The records of a mail host and their matching with a certificate: the answer of _fetch_tlsa, and
-- tlsa_matches, of backend/app/proactive/mta_sts.py.
use cipher_post.Prelude.{
  ℕ, Bool, false, ◌||◌, Option, none, some, List, [], ◌∷◌, ◌++◌, ◌==◌, if◌then◌else◌,
}
use cipher_post.Prelude.Bytes.{Bytes, bytes_eq}
use cipher_post.Prelude.Classes.{nat_eq, string_eq}
use cipher_post.Prelude.Text.{hex2}
use cipher_post.Flows.{bytes_key}
use cipher_post.Certificates.{lower}

pub record TlsaRecord : Type 0 where
  pub usage : ℕ
  pub selector : ℕ
  pub mtype : ℕ
  pub cert : Bytes

pub data Dnssec : Type 0 where
  unknown not_published insecure dnssec_failed bogus secure : Dnssec

-- The answer of _fetch_tlsa.
pub record Tlsa : Type 0 where
  pub records : List TlsaRecord
  pub dnssec : Dnssec
  pub error : Option Bytes

-- bytes.hex()
abbrev pub hex_text : Bytes → Bytes
hex_text [] = []
hex_text (b ∷ bs) = hex2 b ++ hex_text bs

-- The public key in a certificate, if it can be read, and the two hashes in hexadecimal.
module _ (public_key : Bytes → Option Bytes) (sha256 sha512 : Bytes → Bytes) where
  unfoldable pub selected : TlsaRecord → Bytes → Option Bytes
  selected r cert_der =
      if r.selector == 0
      then some cert_der
      else if r.selector == 1
      then public_key cert_der
      else none

  unfoldable pub matches_data : TlsaRecord → Bytes → Bool
  unfolding lower
  matches_data r data_read =
      if r.mtype == 0
      then bytes_eq (hex_text data_read) (lower r.cert)
      else if r.mtype == 1
      then bytes_eq (sha256 data_read) (lower r.cert)
      else if r.mtype == 2
      then bytes_eq (sha512 data_read) (lower r.cert)
      else false

  unfoldable pub tlsa_matches : TlsaRecord → Bytes → Bool
  unfolding selected matches_data
  tlsa_matches r cert_der =
      if r.usage == 2 || r.usage == 3
      then elim (selected r cert_der) [ none ↦ false | some found ↦ matches_data r found ]
      else false

  -- any(tlsa_matches(r, cert_der) for r in records)
  unfoldable pub any_matches : List TlsaRecord → Bytes → Bool
  unfolding tlsa_matches
  any_matches [] cert_der = false
  any_matches (r ∷ rs) cert_der = tlsa_matches r cert_der || any_matches rs cert_der
