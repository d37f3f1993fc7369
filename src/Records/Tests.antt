-- ===== src/Records/Tests.antt =====
-- Runs of the record parser, and its theorems at concrete streams.
use cipher_post.Prelude.{◌≡◌, refl, some, [], ◌∷◌, ◌++◌, arith, take}
use cipher_post.Prelude.Bytes.{Bytes, codes}
use cipher_post.Prelude.Bytes.{starts_with, find_at, find, find_from}
use cipher_post.Prelude.Classes.{nat_eq, string_eq}
use cipher_post.Records.{
  invalid_content_type, ok, err, TlsRecord, is_content_type, parse_tls_records, valid_record_at,
  scan, find_tls_offset, starttls_command, crlf, end_of_command, find_starttls_offset,
}
use cipher_post.Records.Serialize.{serialize_record, serialize, IsRecord}
use cipher_post.Records.Framing.{parse_tls_records-serialize}
use cipher_post.Records.Sound.{Explained, parse_tls_records-Explained}
use cipher_post.Records.Scan.{FirstIn, find_tls_offset-FirstIn}

abbrev hello : TlsRecord
hello = record { content_type = 22; version = 0x0303; payload = 1 ∷ 2 ∷ [] }

abbrev hello_bytes : Bytes
hello_bytes = 22 ∷ 3 ∷ 3 ∷ 0 ∷ 2 ∷ 1 ∷ 2 ∷ []

hello-IsRecord : IsRecord hello
unfolding is_content_type
hello-IsRecord = record { known = refl; fits = omega arith }

parse_tls_records-serialize_example :
    parse_tls_records (serialize (hello ∷ hello ∷ []) ++ take 6 (serialize_record hello)) 4
    ≡ ok (hello ∷ hello ∷ [])
parse_tls_records-serialize_example =
    parse_tls_records-serialize 4 6 (hello ∷ hello ∷ []) hello (omega arith)
      (hello-IsRecord, (hello-IsRecord, tt)) hello-IsRecord (omega arith)

parse_garbage :
    parse_tls_records (hello_bytes ++ 99 ∷ 0 ∷ 0 ∷ 0 ∷ 0 ∷ []) 4096
    ≡ err (invalid_content_type 99 7)
unfolding parse_tls_records
parse_garbage = refl

parse_tls_records-Explained_example :
    Explained 0
      (hello_bytes ++ 99 ∷ 0 ∷ 0 ∷ 0 ∷ 0 ∷ [])
      (parse_tls_records (hello_bytes ++ 99 ∷ 0 ∷ 0 ∷ 0 ∷ 0 ∷ []) 4096)
parse_tls_records-Explained_example =
    parse_tls_records-Explained (hello_bytes ++ 99 ∷ 0 ∷ 0 ∷ 0 ∷ 0 ∷ []) 4096 (omega arith)

find_tls_offset-FirstIn_example :
    FirstIn (50 ∷ 50 ∷ hello_bytes) 0 9 (find_tls_offset (50 ∷ 50 ∷ hello_bytes) 8)
find_tls_offset-FirstIn_example = find_tls_offset-FirstIn (50 ∷ 50 ∷ hello_bytes) 8

find_after_two : find_tls_offset (50 ∷ 50 ∷ hello_bytes) 8 ≡ some 2
unfolding find_tls_offset scan valid_record_at
find_after_two = refl

starttls_at_8 : find_starttls_offset (codes "STLS" ++ crlf ++ codes "x") "POP3" ≡ some 6
unfolding find_starttls_offset starttls_command end_of_command find find_from find_at starts_with
starttls_at_8 = refl
