-- ===== src/Fingerprints/Tests.antt =====
-- Fingerprints of concrete hellos, and the theorems at them.
use cipher_post.Prelude.{◌≡◌, refl, false, some, [], ◌∷◌}
use cipher_post.Prelude.Bytes.{Bytes, codes, bytes_eq}
use cipher_post.Prelude.Classes.{nat_eq, string_eq}
use cipher_post.Prelude.Text.{
  decimal_loop, insert_text, text_leb, hex, hex_loop, hex_digit, pad, decimal, decimal2, hex2, hex4,
  join, sorted_text,
}
use cipher_post.Handshake.Groups.{is_grease, strip_grease}
use cipher_post.Handshake.ClientHello.{ClientHelloInfo, empty_client_hello}
use cipher_post.Rules.Hellos.{maximum}
use cipher_post.Fingerprints.{
  version_text, version, hex4s, edge, alpn_one, alpn2, two_digits, sha12, extension_hash, ja4,
}
use mathlib.Core.List.{Permᴰ}
use cipher_post.Fingerprints.Order.{IsAlike, ja4_alike}

abbrev digest : Bytes → Bytes
digest s = codes "0123456789abcdef0123456789abcdef0123456789abcdef0123456789abcdef"

-- GREASE, two suites and two extensions; and the same the other way round, without GREASE.
abbrev modern : ClientHelloInfo
modern = record (empty_client_hello []) {
  offered_versions = 2570 ∷ 772 ∷ 771 ∷ [];
  cipher_suites = 2570 ∷ 4865 ∷ 4866 ∷ [];
  sni = some (codes "mail.example");
  alpn = codes "imap" ∷ [];
  sig_algs = 1027 ∷ [];
  extension_ids = 0 ∷ 10 ∷ [];
}

abbrev shuffled : ClientHelloInfo
shuffled = record modern {
  offered_versions = 772 ∷ 771 ∷ [];
  cipher_suites = 4866 ∷ 4865 ∷ [];
  extension_ids = 10 ∷ 0 ∷ [];
}

modern-IsAlike : IsAlike modern shuffled
unfolding strip_grease is_grease
modern-IsAlike = record {
  versions = refl;
  legacy = refl;
  ciphers = Permᴰ.swap refl refl;
  extensions = Permᴰ.swap refl refl;
  sni = refl;
  alpn = refl;
  sig_algs = refl;
}

ja4_alike_example : ja4 digest digest modern false ≡ ja4 digest digest shuffled false
ja4_alike_example = ja4_alike digest digest modern shuffled false modern-IsAlike

-- A dash, 0x2d, gives "22".
alpn_dash : alpn2 (codes "-" ∷ []) ≡ codes "22"
unfolding alpn2 alpn_one edge hex2 hex hex_loop hex_digit pad bytes_eq
alpn_dash = refl

ja4-modern : ja4 digest digest modern false ≡ codes "t13d0202ip_0123456789ab_0123456789ab"
unfolding ja4 is_grease strip_grease maximum version version_text two_digits decimal2 decimal
    decimal_loop pad alpn2 alpn_one edge sha12 hex4s hex4 hex hex_loop hex_digit sorted_text
    insert_text text_leb join extension_hash
ja4-modern = refl
