-- ===== src/Handshake/Bounds.antt =====
-- Where `parse_client_hello` reads past the end of its input.
use cipher_post.Prelude.{
  ℕ, zero, suc, ◌+◌, ◌<◌, ◌≡◌, refl, ◌≢◌, ◌↔◌, inl, inr, some, [], ◌∷◌, arith, ltb, ltb→lt,
  Bool-cases, length, take, drop, drop_all,
}
use cipher_post.Prelude.Bytes.{Bytes}
use cipher_post.Prelude.Classes.{nat_eq, string_eq}
use cipher_post.Prelude.Cursor.{big, u16s}
use cipher_post.Handshake.Parsed.{index_error}
use cipher_post.Handshake.ClientHello.{
  ClientHelloInfo, empty_client_hello, slice, client_hello_extensions, client_hello_compression,
  client_hello_ciphers, client_hello_session, parse_client_hello,
}

module _ (decode : Bytes → Bytes) where
  extensions-ne-index_error :
      (info : ClientHelloInfo) (bs : Bytes) → client_hello_extensions decode info bs ≢ index_error
  unfolding client_hello_extensions
  extensions-ne-index_error info bs h = ground arith

  compression-ne-index_error :
      (info : ClientHelloInfo) (bs : Bytes) → client_hello_compression decode info bs ≢ index_error
  unfolding client_hello_compression
  compression-ne-index_error info [] h = cc
  compression-ne-index_error info (n ∷ bs) h =
      ground
        (arith, extensions-ne-index_error (record info { compression = take n bs }) (drop n bs))

  session-ne-index_error :
      (info : ClientHelloInfo) (n : ℕ) (bs : Bytes)
      → client_hello_session decode info n bs ≢ index_error
  unfolding client_hello_session client_hello_ciphers
  session-ne-index_error info n bs h =
      let rest = drop n bs in
      let cs_len = big (take 2 rest) in
      ground (
        arith,
        compression-ne-index_error (record info { cipher_suites = u16s (slice 2 cs_len rest) })
            (drop (2 + cs_len) rest),
      )

  drop_cons :
      (n : ℕ) (bs : Bytes) → n < length bs → (b : ℕ) × (rest : Bytes) × (drop n bs ≡ b ∷ rest)
  drop_cons zero [] h = absurd (omega arith)
  drop_cons zero (b ∷ bs) h = (b, bs, refl)
  drop_cons (suc n) [] h = absurd (omega arith)
  drop_cons (suc n) (b ∷ bs) h = drop_cons n bs (omega arith)

  -- `parse_client_hello` raises `IndexError`, and not `TlsParseError`, exactly for an input of 34
  -- bytes, which ends right before the length of the session id.
  pub parse_client_hello-index_error :
      (buf : Bytes) → (parse_client_hello decode buf ≡ index_error) ↔ (length buf ≡ 34)
  unfolding parse_client_hello
  parse_client_hello-index_error buf = (λ h. only h, λ e. at_end e)
    where
      info : ClientHelloInfo
      info = record (empty_client_hello buf) { legacy_version = some (big (take 2 buf)) }

      only : parse_client_hello decode buf ≡ index_error → length buf ≡ 34
      only h = elim (Bool-cases (ltb 34 (length buf))) [
        | inr e ↦ ground arith
        | inl e ↦
            let (b, rest, same) = drop_cons 34 buf (ltb→lt 34 (length buf) e) in
            absurd (session-ne-index_error info b rest (ground (arith, same)))
      ]

      at_end : length buf ≡ 34 → parse_client_hello decode buf ≡ index_error
      at_end e = let gone : drop 34 buf ≡ [] = drop_all 34 buf (omega arith) in ground (arith, gone)
