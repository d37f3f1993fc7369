-- ===== src/Handshake/Certificate.antt =====
-- `parse_certificate_message` of backend/app/parsing/handshake.py.
use cipher_post.Prelude.{
  ℕ, zero, suc, ◌+◌, min, Bool, true, false, List, [], ◌∷◌, ltb, leb, if◌then◌else◌, length,
}
use cipher_post.Prelude.Bytes.{Bytes}
use cipher_post.Prelude.Classes.{nat_eq, string_eq}
use cipher_post.Prelude.Cursor.{big}
use cipher_post.Handshake.Parsed.{Parsed, parsed, raised}
use cipher_post.Handshake.ClientHello.{slice}

pub record CertificateInfo : Type 0 where
  pub raw_certs : List Bytes
  pub tls13 : Bool

abbrev pub max_certs : ℕ
max_certs = 32

-- The loop over the chain of TLS 1.2 and below, from `pos` up to `stop`; `k` is
-- `len(info.raw_certs)`.
unfoldable pub chain_loop : ℕ → ℕ → ℕ → ℕ → Bytes → List Bytes
chain_loop zero k pos stop buf = []
chain_loop (suc fuel) k pos stop buf =
    let der_len = big (slice pos 3 buf) in
    let der = slice (pos + 3) der_len buf in
    let more = der ∷ chain_loop fuel (suc k) (pos + 3 + der_len) stop buf in
    if leb stop pos
    then []
    else if ltb (length buf) (pos + 3)
    then []
    else if ltb (length buf) (pos + 3 + der_len)
    then []
    else if leb max_certs (suc k)
    then der ∷ []
    else more

-- The loop of TLS 1.3, where extensions follow each certificate. Only the two bytes of their length
-- have to be there.
unfoldable pub chain13_loop : ℕ → ℕ → ℕ → ℕ → Bytes → List Bytes
chain13_loop zero k pos stop buf = []
chain13_loop (suc fuel) k pos stop buf =
    let der_len = big (slice pos 3 buf) in
    let der = slice (pos + 3) der_len buf in
    let ext_len = big (slice (pos + 3 + der_len) 2 buf) in
    let more = der ∷ chain13_loop fuel (suc k) (pos + 3 + der_len + 2 + ext_len) stop buf in
    if leb stop pos
    then []
    else if ltb (length buf) (pos + 3)
    then []
    else if ltb (length buf) (pos + 3 + der_len + 2)
    then []
    else if leb max_certs (suc k)
    then der ∷ []
    else more

unfoldable pub certificates : Bool → List Bytes → Parsed CertificateInfo
certificates tls13 [] = raised "certificate message contained no certificates"
certificates tls13 (c ∷ cs) = parsed (record { raw_certs = c ∷ cs; tls13 = tls13 })

unfoldable pub parse_certificate_message : Bytes → Bool → Parsed CertificateInfo
unfolding chain_loop chain13_loop certificates
parse_certificate_message buf true =
    if ltb (length buf) 4
    then raised "tls13 cert truncated list length"
    else certificates true
        (chain13_loop (suc (length buf)) 0 4 (min (4 + big (slice 1 3 buf)) (length buf)) buf)
parse_certificate_message buf false =
    if ltb (length buf) 3
    then raised "cert truncated chain length"
    else certificates false
        (chain_loop (suc (length buf)) 0 3 (min (3 + big (slice 0 3 buf)) (length buf)) buf)
