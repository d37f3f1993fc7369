-- ===== src/Handshake/Tests.antt =====
-- Handshake messages read from bytes, and the theorems at concrete messages.
use cipher_post.Prelude.{ℕ, zero, suc, ◌≡◌, refl, some, [], ◌∷◌}
use cipher_post.Prelude.Bytes.{Bytes, codes}
use cipher_post.Prelude.Classes.{nat_eq, string_eq}
use cipher_post.Prelude.Cursor.{big, u16s}
use cipher_post.Handshake.Parsed.{Parsed, parsed}
use cipher_post.Handshake.Groups.{is_grease}
use cipher_post.Handshake.Messages.{extensions_loop, parse_extensions}
use cipher_post.Handshake.ClientHello.{ClientHelloInfo, empty_client_hello, parse_client_hello}
use cipher_post.Handshake.RoundTrip.{
  Hello, encode_hello, read_hello, parse_client_hello-encode_hello,
}

abbrev same_text : Bytes → Bytes
same_text bs = bs

abbrev zeros : ℕ → Bytes
zeros zero = []
zeros (suc n) = 0 ∷ zeros n

abbrev sni_data : Bytes
sni_data = 0 ∷ 6 ∷ 0 ∷ 0 ∷ 3 ∷ codes "a.b"

abbrev small_hello : Hello
small_hello = record {
  version = 0x0303;
  random = zeros 32;
  session_id = 7 ∷ [];
  ciphers = 0x1301 ∷ 0x2A2A ∷ [];
  compression = 0 ∷ [];
  extensions = (0, sni_data) ∷ (43, 4 ∷ 3 ∷ 4 ∷ 3 ∷ 3 ∷ []) ∷ (10, 0 ∷ 2 ∷ 0 ∷ 29 ∷ []) ∷ [];
}

abbrev info_of : Parsed ClientHelloInfo → ClientHelloInfo
info_of (parsed info) = info
info_of _ = empty_client_hello []

small_sni :
    (info_of (parse_client_hello same_text (encode_hello small_hello))).sni ≡ some (codes "a.b")
unfolding parse_client_hello big u16s is_grease parse_extensions extensions_loop
small_sni = refl

small_versions :
    (info_of (parse_client_hello same_text (encode_hello small_hello))).offered_versions
    ≡ 0x0304 ∷ 0x0303 ∷ []
unfolding parse_client_hello big u16s is_grease parse_extensions extensions_loop
small_versions = refl

small_grease : (info_of (parse_client_hello same_text (encode_hello small_hello))).grease_count ≡ 1
unfolding parse_client_hello big u16s is_grease parse_extensions extensions_loop
small_grease = refl

parse_client_hello-encode_hello_example :
    parse_client_hello same_text (encode_hello small_hello)
    ≡ parsed (read_hello same_text small_hello)
parse_client_hello-encode_hello_example = parse_client_hello-encode_hello same_text small_hello refl
