-- ===== src/Handshake/Messages.antt =====
-- Handshake messages inside records, and extensions inside messages: `_handshake_body` and
-- `_parse_extensions` of backend/app/parsing/handshake.py.
use cipher_post.Prelude.{
  ℕ, zero, suc, ◌+◌, ◌*◌, none, some, List, [], ◌∷◌, ltb, leb, ◌==◌, if◌then◌else◌, length, take,
  drop,
}
use cipher_post.Prelude.Bytes.{Bytes}
use cipher_post.Prelude.Classes.{nat_eq, string_eq}
use cipher_post.Prelude.Dict.{Dict, get, put}
use cipher_post.Records.{TlsRecord}

-- The loop over the messages of one record; the last argument is `buf[pos:]`. A message that goes
-- on in another record ends the loop. A type that is known keeps its first body that is not empty.
unfoldable pub keep_first : ℕ → Bytes → Dict ℕ Bytes → Dict ℕ Bytes
keep_first mtype body out = elim (get mtype out) [
  | none ↦ put mtype body out
  | some [] ↦ put mtype body out
  | some (b ∷ bs) ↦ out
]

abbrev pub u24 : ℕ → ℕ → ℕ → ℕ
u24 a b c = a * 65536 + b * 256 + c

unfoldable pub messages_loop : ℕ → Dict ℕ Bytes → Bytes → Dict ℕ Bytes
messages_loop zero out buf = out
messages_loop (suc fuel) out (mtype ∷ l2 ∷ l1 ∷ l0 ∷ rest) =
    let mlen = u24 l2 l1 l0 in
    let more = messages_loop fuel (keep_first mtype (take mlen rest) out) (drop mlen rest) in
    if ltb (length rest) mlen then out else more
messages_loop (suc fuel) out _ = out

-- Each round consumes at least four bytes.
unfoldable pub record_messages : Dict ℕ Bytes → TlsRecord → Dict ℕ Bytes
record_messages out rec =
    if rec.content_type == 22 then messages_loop (suc (length rec.payload)) out rec.payload else out

unfoldable pub handshake_body_from : Dict ℕ Bytes → List TlsRecord → Dict ℕ Bytes
handshake_body_from out [] = out
handshake_body_from out (rec ∷ records) = handshake_body_from (record_messages out rec) records

unfoldable pub handshake_body : List TlsRecord → Dict ℕ Bytes
handshake_body records = handshake_body_from [] records

abbrev pub Extension : Type 0
Extension = ℕ × Bytes

-- The loop of `_parse_extensions`; `k` is `len(parsed)`.
unfoldable pub extensions_loop : ℕ → ℕ → ℕ → Bytes → List Extension
extensions_loop zero max_ext k exts = []
extensions_loop (suc fuel) max_ext k (t1 ∷ t0 ∷ l1 ∷ l0 ∷ rest) =
    let elen = l1 * 256 + l0 in
    let ext : Extension = (t1 * 256 + t0, take elen rest) in
    let more = ext ∷ extensions_loop fuel max_ext (suc k) (drop elen rest) in
    if ltb (length rest) elen then [] else if leb max_ext (suc k) then ext ∷ [] else more
extensions_loop (suc fuel) max_ext k _ = []

abbrev pub max_extensions : ℕ
max_extensions = 32

unfoldable pub parse_extensions : Bytes → ℕ → List Extension
parse_extensions exts max_ext = extensions_loop (suc (length exts)) max_ext 0 exts
