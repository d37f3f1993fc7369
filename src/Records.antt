-- ===== src/Records.antt =====
-- tls_records.py: framing of the TLS record layer (backend/app/parsing/tls_records.py).
pub mod Serialize
pub mod Framing
pub mod Scan
mod Tests
pub mod Rounds
pub mod Sound
use Prim.Native.String.{String}
use text.Mathlib.Text.{◌==◌ as str_eq}
use cipher_post.Prelude.Bytes.{find, find_from, codes}
use cipher_post.Prelude.{
  ℕ, zero, suc, ◌+◌, ◌-◌, ◌*◌, ◌/◌, ◌%◌, ◌^◌, ◌≤◌, ◌<◌, min, max, ◌≡◌, refl, sym, ap, ◌∙◌, ◌≢◌, ◌↔◌,
  ◌⊎◌, inl, inr, Bool, true, false, not, ◌&&◌, ◌||◌, Option, none, some, List, [], ◌∷◌, ◌++◌, map,
  append-nil, append_assoc, arith, ltb, leb, ◌==◌, if◌then◌else◌, ltb→lt, lt→ltb, ge→ltb, leb→le,
  ==_iff, ==_refl, Bool-cases, Option-cases, length, get_elem?, take, drop, All, length-append,
  take-append-drop, length-take, length-drop, take-append, drop-append, drop_all, All-append,
  All-drop, All-take,
}
use cipher_post.Prelude.Bytes.{Bytes, IsBytes, bytes_eq, bytes_eq_refl, bytes_eq→eq}

-- `TlsParseError`, one constructor for each message that `parse_tls_records` formats; `out_of_fuel`
-- is of the model.
pub data TlsParseError : Type 0 where
  invalid_content_type : ℕ → ℕ → TlsParseError
  absurd_length : ℕ → ℕ → TlsParseError
  out_of_fuel : TlsParseError

-- A computation that may raise `TlsParseError`.
pub data Result {ℓ} (A : Type ℓ) : Type ℓ where
  ok : A → Result A
  err : TlsParseError → Result A

pub record TlsRecord : Type 0 where
  pub content_type : ℕ
  pub version : ℕ
  pub payload : Bytes

-- (hi << 8) | lo, of two bytes
abbrev pub u16 : ℕ → ℕ → ℕ
u16 hi lo = hi * 256 + lo

-- content_type in (20, 21, 22, 23)
unfoldable pub is_content_type : ℕ → Bool
is_content_type ct = ct == 20 || ct == 21 || ct == 22 || ct == 23

abbrev pub max_length : ℕ
max_length = 65535 + 2048

-- records.append(...), before what the rest of the loop appends
abbrev pub prepend : TlsRecord → Result (List TlsRecord) → Result (List TlsRecord)
prepend r (ok rs) = ok (r ∷ rs)
prepend r (err e) = err e

-- The `while` loop: `k` is `len(records)`, the last argument is `data[pos:]`. A header that is
-- shorter than five bytes, and a payload that is not all there, end the loop.
unfoldable pub parse_loop : ℕ → ℕ → ℕ → ℕ → Bytes → Result (List TlsRecord)
unfolding is_content_type
parse_loop zero max_records k pos bs = err out_of_fuel
parse_loop (suc fuel) max_records k pos (ct ∷ v1 ∷ v0 ∷ l1 ∷ l0 ∷ body) =
    let len = u16 l1 l0 in
    let r : TlsRecord = record {
      content_type = ct;
      version = u16 v1 v0;
      payload = take len body;
    } in
    let rest = prepend r (parse_loop fuel max_records (suc k) (pos + 5 + len) (drop len body)) in
    if not (is_content_type ct)
    then err (invalid_content_type ct pos)
    else if ltb max_length len
    then err (absurd_length len pos)
    else if ltb (length body) len
    then ok []
    else if leb max_records (suc k)
    then ok (r ∷ [])
    else rest
parse_loop (suc fuel) max_records k pos _ = ok []

-- Each round consumes at least five bytes.
unfoldable pub parse_tls_records : Bytes → ℕ → Result (List TlsRecord)
unfolding parse_loop
parse_tls_records bs max_records = parse_loop (suc (length bs)) max_records 0 0 bs

abbrev pub default_max_records : ℕ
default_max_records = 4096

-- version in (0x0300, 0x0301, 0x0302, 0x0303, 0x0304)
unfoldable pub is_record_version : ℕ → Bool
is_record_version v = v == 0x0300 || v == 0x0301 || v == 0x0302 || v == 0x0303 || v == 0x0304

-- `_valid_record_at(data, pos)`, of `data[pos:]`
unfoldable pub valid_record_at : Bytes → Option (ℕ × ℕ)
unfolding is_content_type is_record_version
valid_record_at (ct ∷ v1 ∷ v0 ∷ l1 ∷ l0 ∷ body) =
    let len = u16 l1 l0 in
    if not (is_content_type ct)
    then none
    else if not (is_record_version (u16 v1 v0))
    then none
    else if ltb max_length len
    then none
    else if ltb (length body) len
    then none
    else some (ct, len)
valid_record_at _ = none

-- The scan of `find_tls_offset` from `pos`, over `rounds` positions.
unfoldable pub scan : ℕ → ℕ → Bytes → Option ℕ
scan zero pos bs = none
scan (suc rounds) pos bs =
    let rest = scan rounds (suc pos) bs in
    elim (valid_record_at (drop pos bs)) [ none ↦ rest | some hit ↦ some pos ]

abbrev pub default_max_scan : ℕ
default_max_scan = 8192

-- `limit` is negative for fewer than five bytes, and then nothing is scanned.
unfoldable pub find_tls_offset : Bytes → ℕ → Option ℕ
find_tls_offset bs max_scan =
    if ltb (length bs) 5 then none else scan (suc (min (length bs - 5) max_scan)) 0 bs

-- STARTTLS_COMMANDS
unfoldable pub starttls_command : String → Option Bytes
starttls_command protocol =
    if str_eq protocol "SMTP"
    then some (codes "STARTTLS")
    else if str_eq protocol "IMAP"
    then some (codes "STARTTLS")
    else if str_eq protocol "POP3"
    then some (codes "STLS")
    else none

abbrev pub crlf : Bytes
crlf = 13 ∷ 10 ∷ []

-- The position behind the line that holds the command.
unfoldable pub end_of_command : Bytes → Bytes → Option ℕ
end_of_command cmd plaintext = elim (find cmd plaintext) [
  | none ↦ none
  | some idx ↦ elim (find_from crlf plaintext idx) [ none ↦ none | some eol ↦ some (eol + 2) ]
]

unfoldable pub find_starttls_offset : Bytes → String → Option ℕ
find_starttls_offset plaintext protocol = elim (starttls_command protocol) [
  | none ↦ none
  | some cmd ↦ end_of_command cmd plaintext
]
