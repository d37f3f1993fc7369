-- ===== src/Records/Serialize.antt =====
-- The wire form of TLS records, against which `parse_tls_records` is proved.
use cipher_post.Prelude.{
  ℕ, ◌+◌, ◌/◌, ◌%◌, ◌<◌, ◌≡◌, true, List, [], ◌∷◌, ◌++◌, arith, length, length-append,
}
use cipher_post.Prelude.Bytes.{Bytes}
use cipher_post.Records.{TlsRecord, u16, is_content_type}

abbrev pub serialize_record : TlsRecord → Bytes
serialize_record r =
    r.content_type
    ∷ r.version / 256
    ∷ r.version % 256
    ∷ length r.payload / 256
    ∷ length r.payload % 256
    ∷ r.payload

abbrev pub serialize : List TlsRecord → Bytes
serialize [] = []
serialize (r ∷ rs) = serialize_record r ++ serialize rs

-- A record that the layer can carry.
pub record IsRecord (r : TlsRecord) : Type 0 where
  pub known : is_content_type r.content_type ≡ true
  pub fits : length r.payload < 65536

pub u16-div-mod : (n : ℕ) → u16 (n / 256) (n % 256) ≡ n
u16-div-mod n = omega arith

pub length-serialize_record :
    (r : TlsRecord) (bs : Bytes)
    → length (serialize_record r ++ bs) ≡ 5 + length r.payload + length bs
length-serialize_record r bs = omega (arith, length-append r.payload bs)
