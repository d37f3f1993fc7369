-- ===== src/Handshake/RoundTrip.antt =====
-- `parse_client_hello` of a message that is put together from its parts.
use cipher_post.Prelude.{
  ℕ, suc, ◌+◌, ◌*◌, ◌/◌, ◌%◌, ◌≡◌, refl, sym, ap, ◌∙◌, some, List, [], ◌∷◌, ◌++◌, append-nil, arith,
  ge→ltb, length, take, drop, length-append, take-append, drop-append,
}
use cipher_post.Prelude.Bytes.{Bytes}
use cipher_post.Prelude.Classes.{nat_eq, string_eq}
use cipher_post.Prelude.Cursor.{big, u16s}
use cipher_post.Handshake.Parsed.{parsed}
use cipher_post.Handshake.Messages.{Extension, parse_extensions, max_extensions}
use cipher_post.Handshake.ClientHello.{
  ClientHelloInfo, empty_client_hello, client_extensions, with_grease_count,
  client_hello_extensions, client_hello_compression, client_hello_ciphers, client_hello_session,
  parse_client_hello,
}
use cipher_post.Handshake.Extensions.{encode_extensions, parse_extensions-encode}

abbrev encode_u16 : ℕ → Bytes
encode_u16 n = n / 256 ∷ n % 256 ∷ []

abbrev encode_u16s : List ℕ → Bytes
encode_u16s [] = []
encode_u16s (n ∷ ns) = n / 256 ∷ n % 256 ∷ encode_u16s ns

-- The parts of a ClientHello with compression methods and extensions.
pub record Hello : Type 0 where
  pub version : ℕ
  pub random : Bytes
  pub session_id : Bytes
  pub ciphers : List ℕ
  pub compression : Bytes
  pub extensions : List Extension

-- A block behind its length in two bytes, and behind its length in one.
abbrev pub block : Bytes → Bytes → Bytes
block bs rest = length bs / 256 ∷ length bs % 256 ∷ (bs ++ rest)

abbrev pub short_block : Bytes → Bytes → Bytes
short_block bs rest = length bs ∷ (bs ++ rest)

abbrev pub encode_hello : Hello → Bytes
encode_hello h =
    let tail = block (encode_extensions h.extensions) [] in
    let body =
      short_block h.session_id (block (encode_u16s h.ciphers) (short_block h.compression tail)) in
    h.version / 256 ∷ h.version % 256 ∷ (h.random ++ body)

-- What the parser makes of the parts: the extensions are applied in order, the first 32 of them.
abbrev pub read_hello : (Bytes → Bytes) → Hello → ClientHelloInfo
read_hello decode h = with_grease_count (
    client_extensions decode (take max_extensions h.extensions)
      (record (empty_client_hello (encode_hello h)) {
        legacy_version = some h.version;
        cipher_suites = h.ciphers;
        compression = h.compression;
      }))

u16s_encode : (ns : List ℕ) → u16s (encode_u16s ns) ≡ ns
unfolding u16s
u16s_encode [] = refl
u16s_encode (n ∷ ns) =
    let head : n / 256 * 256 + n % 256 ≡ n = omega arith in rw (head, u16s_encode ns)

big_u16 : (n : ℕ) → big (n / 256 ∷ n % 256 ∷ []) ≡ n
unfolding big
big_u16 n = omega arith

two_more : (n a b : ℕ) (bs : Bytes) → drop (2 + n) (a ∷ b ∷ bs) ≡ drop n bs
two_more n a b bs =
    let plus : 2 + n ≡ suc (suc n) = omega arith in ap (λ m. drop m (a ∷ b ∷ bs)) plus

take_whole : {A : Type 0} → (xs : List A) → take (length xs) xs ≡ xs
take_whole [] = refl
take_whole (x ∷ xs) = ap (λ r. x ∷ r) (take_whole xs)

parse_whole :
    (es : List Extension)
    → parse_extensions (encode_extensions es) max_extensions ≡ take max_extensions es
parse_whole es =
    ap (λ bs. parse_extensions bs max_extensions) (sym (append-nil (encode_extensions es)))
    ∙ parse_extensions-encode max_extensions 0 es (0, []) (omega arith) (omega arith)

module _ (decode : Bytes → Bytes) where
  extensions_encode :
      (info : ClientHelloInfo) (es : List Extension)
      → client_hello_extensions decode info (block (encode_extensions es) [])
        ≡ parsed (with_grease_count (client_extensions decode (take max_extensions es) info))
  unfolding client_hello_extensions
  extensions_encode info es =
      let bs = encode_extensions es in
      rw (
        append-nil bs,
        big_u16 (length bs),
        ge→ltb (suc (suc (length bs))) 2 (omega arith),
        ge→ltb (suc (suc (length bs))) (2 + length bs) (omega arith),
        take_whole bs,
        parse_whole es,
      )

  compression_encode :
      (info : ClientHelloInfo) (comp rest : Bytes)
      → client_hello_compression decode info (short_block comp rest)
        ≡ client_hello_extensions decode (record info { compression = comp }) rest
  unfolding client_hello_compression
  compression_encode info comp rest = rw (
    ge→ltb (length (comp ++ rest)) (length comp) (omega (arith, length-append comp rest)),
    take-append comp rest,
    drop-append comp rest,
  )

  ciphers_encode :
      (info : ClientHelloInfo) (ns : List ℕ) (rest : Bytes)
      → client_hello_ciphers decode info (block (encode_u16s ns) rest)
        ≡ client_hello_compression decode (record info { cipher_suites = ns }) rest
  unfolding client_hello_ciphers
  ciphers_encode info ns rest =
      let bs = encode_u16s ns in
      rw (
        big_u16 (length bs),
        ge→ltb (suc (suc (length (bs ++ rest)))) (2 + length bs)
            (omega (arith, length-append bs rest)),
        take-append bs rest,
        u16s_encode ns,
        two_more (length bs) (length bs / 256) (length bs % 256) (bs ++ rest),
        drop-append bs rest,
      )

  session_encode :
      (info : ClientHelloInfo) (sid rest : Bytes)
      → client_hello_session decode info (length sid) (sid ++ rest)
        ≡ client_hello_ciphers decode info rest
  unfolding client_hello_session
  session_encode info sid rest = rw (
    ge→ltb (length (sid ++ rest)) (length sid) (omega (arith, length-append sid rest)),
    drop-append sid rest,
  )

  thirty_two : (random rest : Bytes) → length random ≡ 32 → drop 32 (random ++ rest) ≡ rest
  thirty_two random rest size =
      ap (λ n. drop n (random ++ rest)) (sym size) ∙ drop-append random rest

  start_encode :
      (v : ℕ) (random rest : Bytes) (n : ℕ)
      → length random ≡ 32
      → parse_client_hello decode (v / 256 ∷ v % 256 ∷ (random ++ n ∷ rest))
        ≡ client_hello_session decode
            (record (empty_client_hello (v / 256 ∷ v % 256 ∷ (random ++ n ∷ rest))) {
              legacy_version = some v;
            })
            n
            rest
  unfolding parse_client_hello
  start_encode v random rest n size = rw (
    ge→ltb (suc (suc (length (random ++ n ∷ rest)))) 2 (omega arith),
    ge→ltb (suc (suc (length (random ++ n ∷ rest)))) 34
        (omega (arith, size, length-append random (n ∷ rest))),
    thirty_two random (n ∷ rest) size,
    big_u16 v,
  )

  -- A ClientHello put together from its parts, its random of 32 bytes, is read back as those parts,
  -- with its first 32 extensions applied in their order.
  pub parse_client_hello-encode_hello :
      (h : Hello)
      → length h.random ≡ 32
      → parse_client_hello decode (encode_hello h) ≡ parsed (read_hello decode h)
  parse_client_hello-encode_hello h size =
      let tail = block (encode_extensions h.extensions) [] in
      let after_ciphers = short_block h.compression tail in
      let after_session = block (encode_u16s h.ciphers) after_ciphers in
      let i0 : ClientHelloInfo = record (empty_client_hello (encode_hello h)) {
        legacy_version = some h.version;
      } in
      let i1 : ClientHelloInfo = record i0 { cipher_suites = h.ciphers } in
      start_encode h.version h.random (h.session_id ++ after_session) (length h.session_id) size
      ∙ session_encode i0 h.session_id after_session
      ∙ ciphers_encode i0 h.ciphers after_ciphers
      ∙ compression_encode i1 h.compression tail
      ∙ extensions_encode (record i1 { compression = h.compression }) h.extensions
