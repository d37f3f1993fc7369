-- ===== src/Handshake/Ciphers.antt =====
-- The cipher knowledge base and version names (backend/app/parsing/handshake.py). Strengths are in
-- hundredths, which is exact for all of them.
use Prim.Native.String.{String}
use cipher_post.Prelude.{
  ℕ, Bool, true, false, Option, none, some, [], ◌∷◌, ◌++◌, ◌==◌, if◌then◌else◌,
}
use cipher_post.Prelude.Bytes.{Bytes, codes}
use cipher_post.Prelude.Classes.{nat_eq, string_eq}
use cipher_post.Prelude.Dict.{Dict, get}
use cipher_post.Prelude.Text.{hex4}

pub record CipherMeta : Type 0 where
  pub name : String
  pub strength : ℕ
  pub kind : String
  pub pfs : Bool
  pub key_len : ℕ
  pub kex : String
  pub auth : String
  pub export_class : Option String

abbrev pub meta : String → ℕ → String → Bool → ℕ → String → String → Option String → CipherMeta
meta name strength kind pfs key_len kex auth export_class = record {
  name = name;
  strength = strength;
  kind = kind;
  pfs = pfs;
  key_len = key_len;
  kex = kex;
  auth = auth;
  export_class = export_class;
}

unfoldable pub cipher_db : Dict ℕ CipherMeta
cipher_db =
    (0x1302, meta "TLS_AES_256_GCM_SHA384" 100 "aead" true 256 "ecdhe" "any-tls13" none)
    ∷ (0x1301, meta "TLS_AES_128_GCM_SHA256" 95 "aead" true 128 "ecdhe" "any-tls13" none)
    ∷ (0x1303, meta "TLS_CHACHA20_POLY1305_SHA256" 95 "aead" true 256 "ecdhe" "any-tls13" none)
    ∷ (0xC030, meta "TLS_ECDHE_RSA_WITH_AES_256_GCM_SHA384" 90 "aead" true 256 "ecdhe" "rsa" none)
    ∷ (0xC02F, meta "TLS_ECDHE_RSA_WITH_AES_128_GCM_SHA256" 85 "aead" true 128 "ecdhe" "rsa" none)
    ∷ (0xC028, meta "TLS_ECDHE_RSA_WITH_AES_256_CBC_SHA384" 70 "cbc" true 256 "ecdhe" "rsa" none)
    ∷ (0xC027, meta "TLS_ECDHE_RSA_WITH_AES_128_CBC_SHA256" 70 "cbc" true 128 "ecdhe" "rsa" none)
    ∷ (0xC014, meta "TLS_ECDHE_RSA_WITH_AES_256_CBC_SHA" 60 "cbc" true 256 "ecdhe" "rsa" none)
    ∷ (0xC013, meta "TLS_ECDHE_RSA_WITH_AES_128_CBC_SHA" 60 "cbc" true 128 "ecdhe" "rsa" none)
    ∷ (0x009C, meta "TLS_RSA_WITH_AES_128_GCM_SHA256" 55 "aead" false 128 "rsa" "rsa" none)
    ∷ (0x009D, meta "TLS_RSA_WITH_AES_256_GCM_SHA384" 60 "aead" false 256 "rsa" "rsa" none)
    ∷ (0x0035, meta "TLS_RSA_WITH_AES_256_CBC_SHA" 40 "cbc" false 256 "rsa" "rsa" none)
    ∷ (0x002F, meta "TLS_RSA_WITH_AES_128_CBC_SHA" 40 "cbc" false 128 "rsa" "rsa" none)
    ∷ (0x000A, meta "TLS_RSA_WITH_3DES_EDE_CBC_SHA" 25 "cbc" false 112 "rsa" "rsa" none)
    ∷ (0x0005, meta "TLS_RSA_WITH_RC4_128_SHA" 5 "stream" false 128 "rsa" "rsa" (some "rc4"))
    ∷ (0x0004, meta "TLS_RSA_WITH_RC4_128_MD5" 5 "stream" false 128 "rsa" "rsa" (some "rc4"))
    ∷ (
      0x0003,
      meta "TLS_RSA_EXPORT_WITH_RC4_40_MD5" 0 "stream" false 40 "rsa" "rsa" (some "export"),
    )
    ∷ (
      0x0002,
      meta "TLS_RSA_EXPORT_WITH_RC2_CBC_40_MD5" 0 "cbc" false 40 "rsa" "rsa" (some "export"),
    )
    ∷ (0x0000, meta "TLS_NULL_WITH_NULL_NULL" 0 "none" false 0 "rsa" "rsa" (some "null"))
    ∷ (0x0001, meta "TLS_RSA_WITH_NULL_MD5" 0 "none" false 0 "rsa" "rsa" (some "null"))
    ∷ (0x000B, meta "TLS_DH_DSS_WITH_3DES_EDE_CBC_SHA" 25 "cbc" true 112 "dhe" "dss" none)
    ∷ (0x0039, meta "TLS_DHE_RSA_WITH_AES_256_CBC_SHA" 55 "cbc" true 256 "dhe" "rsa" none)
    ∷ (0x0033, meta "TLS_DHE_RSA_WITH_AES_128_CBC_SHA" 55 "cbc" true 128 "dhe" "rsa" none)
    ∷ (0x0038, meta "TLS_DHE_DSS_WITH_AES_256_CBC_SHA" 55 "cbc" true 256 "dhe" "dss" none)
    ∷ (0x0032, meta "TLS_DHE_DSS_WITH_AES_128_CBC_SHA" 55 "cbc" true 128 "dhe" "dss" none)
    ∷ (
      0xC02B,
      meta "TLS_ECDHE_ECDSA_WITH_AES_128_GCM_SHA256" 85 "aead" true 128 "ecdhe" "ecdsa" none,
    )
    ∷ (
      0xC02C,
      meta "TLS_ECDHE_ECDSA_WITH_AES_256_GCM_SHA384" 90 "aead" true 256 "ecdhe" "ecdsa" none,
    )
    ∷ []

unfoldable pub lookup_cipher : ℕ → Option CipherMeta
unfolding cipher_db
lookup_cipher iana = get iana cipher_db

-- TLS_VERSION_NAMES
unfoldable pub tls_version_name : ℕ → Option String
tls_version_name v =
    if v == 0x0300
    then some "SSLv3.0"
    else if v == 0x0301
    then some "TLS1.0"
    else if v == 0x0302
    then some "TLS1.1"
    else if v == 0x0303
    then some "TLS1.2"
    else if v == 0x0304
    then some "TLS1.3"
    else none

unfoldable pub version_name : Option ℕ → Option Bytes
unfolding tls_version_name
version_name none = none
version_name (some v) = elim (tls_version_name v) [
  | some name ↦ some (codes name)
  | none ↦ some (codes "0x" ++ hex4 v)
]
