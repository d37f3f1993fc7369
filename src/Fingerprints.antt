-- ===== src/Fingerprints.antt =====
-- Fingerprints of TLS hellos (backend/app/parsing/ja4.py). `sha256` and `md5` are the hexadecimal
-- digests of hashlib, on texts of ASCII, which `encode` leaves as they are.
pub mod Order
pub mod Shape
mod Tests
use cipher_post.Prelude.{
  ℕ, zero, suc, ◌+◌, ◌-◌, ◌*◌, ◌/◌, ◌%◌, ◌^◌, ◌≤◌, ◌<◌, min, max, ◌≡◌, refl, sym, ap, ◌∙◌, ◌≢◌, ◌↔◌,
  ◌⊎◌, inl, inr, Bool, true, false, not, ◌&&◌, ◌||◌, Option, none, some, List, [], ◌∷◌, ◌++◌, map,
  append-nil, append_assoc, arith, ltb, leb, ◌==◌, if◌then◌else◌, ltb→lt, lt→ltb, ge→ltb, leb→le,
  ==_iff, ==_refl, Bool-cases, Option-cases, length, get_elem?, take, drop, All, length-append,
  take-append-drop, length-take, length-drop, take-append, drop-append, drop_all, All-append,
  All-drop, All-take, All-imp,
}
use cipher_post.Prelude.Bytes.{Bytes, IsBytes, codes, bytes_eq, bytes_eq_refl, bytes_eq→eq}
use cipher_post.Prelude.Bytes.{
  starts_with, find_at, find, find_from, contains, upper_byte, Occurs, find_at-Occurs,
  starts_with-append,
}
use cipher_post.Prelude.Classes.{Eq, eqb, eqb_refl, nat_eq, string_eq}
use cipher_post.Prelude.Dict.{
  Dict, get, put, pop, get-put, get-pop, length-pop-le, length-pop-lt, get-put_self, get-pop_self,
}
use cipher_post.Prelude.Text.{decimal, decimal2, hex2, hex4, join, sorted_text}
use cipher_post.Prelude.Digits.{is_alnum}
use cipher_post.Handshake.Groups.{strip_grease}
use cipher_post.Handshake.ClientHello.{ClientHelloInfo}
use cipher_post.Handshake.ServerHello.{ServerHelloInfo}
use cipher_post.Rules.Hellos.{maximum, filter}

-- _VERSION_MAP.get(version, "00")
unfoldable pub version_text : ℕ → Bytes
version_text v =
    if v == 772
    then codes "13"
    else if v == 771
    then codes "12"
    else if v == 770
    then codes "11"
    else if v == 769
    then codes "10"
    else if v == 768
    then codes "s3"
    else if v == 2
    then codes "s2"
    else if v == 65279
    then codes "d1"
    else if v == 65277
    then codes "d2"
    else if v == 65276
    then codes "d3"
    else codes "00"

-- v or 0
abbrev pub or_zero : Option ℕ → ℕ
or_zero none = 0
or_zero (some v) = v

-- max(values), and another value where there are none
abbrev pub max_or : Option ℕ → Option ℕ → Option ℕ
max_or none other = other
max_or (some v) other = some v

-- _version
unfoldable pub version : Option ℕ → List ℕ → Bytes
unfolding version_text maximum strip_grease
version ch_version offered =
    version_text (or_zero (max_or (maximum (strip_grease offered)) ch_version))

-- _hex4
unfoldable pub hex4s : List ℕ → List Bytes
unfolding hex4
hex4s values = map (λ v. hex4 (v % 65536)) values

-- encode("latin-1", errors="replace")
abbrev pub latin1 : Bytes → Bytes
latin1 s = map (λ c. if leb c 255 then c else 63) s

-- _edge
unfoldable pub edge : ℕ → Bool → Bytes
unfolding hex2
edge b is_first =
    if is_alnum b then b ∷ [] else if is_first then take 1 (hex2 b) else take 1 (drop 1 (hex2 b))

-- The branch of `_alpn2` on a name of one byte.
unfoldable pub alpn_one : ℕ → Bytes
unfolding edge
alpn_one b =
    if length (edge b true) == 1 && bytes_eq (edge b true) (b ∷ []) && not (is_alnum b)
    then hex2 b
    else edge b true ++ edge b true

abbrev pub last_of : ℕ → Bytes → ℕ
last_of b [] = b
last_of b (c ∷ cs) = last_of c cs

abbrev pub alpn_ends : Bytes → Bytes
alpn_ends [] = codes "00"
alpn_ends (b ∷ []) = alpn_one b
alpn_ends (b ∷ c ∷ cs) = edge b true ++ edge (last_of c cs) false

-- _alpn2
unfoldable pub alpn2 : List Bytes → Bytes
unfolding alpn_one
alpn2 [] = codes "00"
alpn2 (first ∷ rest) = alpn_ends (latin1 first)

unfoldable pub dashed : List ℕ → Bytes
unfolding decimal join strip_grease
dashed values = join (codes "-") (map decimal (strip_grease values))

unfoldable pub ja3 : ClientHelloInfo → Bytes
unfolding dashed
ja3 ch = join (codes ",") (
    decimal (
      or_zero
        (max_or (maximum (strip_grease ch.offered_versions)) (some (or_zero ch.legacy_version))))
    ∷ dashed ch.cipher_suites
    ∷ dashed ch.extension_ids
    ∷ dashed ch.supported_groups
    ∷ dashed ch.ec_point_formats
    ∷ [])

-- sh.negotiated_version or sh.legacy_version or 0
abbrev pub server_version : ServerHelloInfo → ℕ
server_version sh =
    if or_zero sh.negotiated_version == 0
    then or_zero sh.legacy_version
    else or_zero sh.negotiated_version

unfoldable pub ja3s : ServerHelloInfo → Bytes
unfolding dashed
ja3s sh =
    join (codes ",") (
      decimal (server_version sh)
      ∷ decimal (or_zero sh.cipher_suite)
      ∷ dashed sh.extension_ids
      ∷ [])

-- f"{min(len(values), 99):02d}"
unfoldable pub two_digits : {A : Type 0} → List A → Bytes
unfolding decimal2
two_digits values = decimal2 (min (length values) 99)

abbrev pub truthy : Option Bytes → Bool
truthy none = false
truthy (some []) = false
truthy (some (c ∷ cs)) = true

abbrev pub transport : Bool → Bytes
transport quic = if quic then codes "q" else codes "t"

-- e not in (0, 16)
abbrev pub is_hashed : ℕ → Bool
is_hashed e = not (e == 0 || e == 16)

module _ (md5 sha256 : Bytes → Bytes) where
  -- _sha12
  unfoldable pub sha12 : List Bytes → Bytes
  unfolding join
  sha12 [] = codes "000000000000"
  sha12 (s ∷ parts) = take 12 (sha256 (join (codes ",") (s ∷ parts)))

  unfoldable pub ja3_digest : ClientHelloInfo → Bytes
  unfolding ja3
  ja3_digest ch = md5 (ja3 ch)

  unfoldable pub ja3s_digest : ServerHelloInfo → Bytes
  unfolding ja3s
  ja3s_digest sh = md5 (ja3s sh)

  -- The hash of the extensions, with the signature algorithms if there are any.
  unfoldable pub extension_hash : List Bytes → List ℕ → Bytes
  unfolding sha12 hex4s
  extension_hash exts [] = sha12 exts
  extension_hash exts (s ∷ sigs) =
      take 12 (sha256 (join (codes ",") exts ++ codes "_" ++ join (codes ",") (hex4s (s ∷ sigs))))

  unfoldable pub ja4 : ClientHelloInfo → Bool → Bytes
  unfolding version two_digits alpn2 sha12 extension_hash hex4s
  ja4 ch quic =
      let ciphers = strip_grease ch.cipher_suites in
      let exts = strip_grease ch.extension_ids in
      transport quic
      ++ version ch.legacy_version ch.offered_versions
      ++ (if truthy ch.sni then codes "d" else codes "i")
      ++ two_digits ciphers
      ++ two_digits exts
      ++ alpn2 ch.alpn
      ++ codes "_"
      ++ sha12 (sorted_text (hex4s ciphers))
      ++ codes "_"
      ++ extension_hash (sorted_text (hex4s (filter is_hashed exts))) ch.sig_algs

  unfoldable pub ja4s : ServerHelloInfo → Bool → Bytes
  unfolding version_text two_digits alpn2 sha12 hex4s
  ja4s sh quic =
      transport quic
      ++ version_text (server_version sh)
      ++ two_digits sh.extension_ids
      ++ alpn2 sh.alpn
      ++ codes "_"
      ++ hex4 (or_zero sh.cipher_suite % 65536)
      ++ codes "_"
      ++ sha12 (hex4s sh.extension_ids)
