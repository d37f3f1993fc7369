-- ===== src/Handshake/ClientHello.antt =====
-- `parse_client_hello` of backend/app/parsing/handshake.py. `decode` is `bytes.decode` with
-- replacement of what is not UTF-8; nothing here depends on what it does.
use cipher_post.Prelude.{
  ℕ, zero, suc, ◌+◌, min, Bool, true, false, ◌&&◌, Option, none, some, List, [], ◌∷◌, ◌++◌, ltb,
  leb, ◌==◌, if◌then◌else◌, length, take, drop,
}
use cipher_post.Prelude.Bytes.{Bytes}
use cipher_post.Prelude.Classes.{nat_eq, string_eq}
use cipher_post.Prelude.Cursor.{big, u16s}
use cipher_post.Handshake.Parsed.{Parsed, parsed, raised, index, ◌>>=◌}
use cipher_post.Handshake.Groups.{is_grease}
use cipher_post.Handshake.Messages.{Extension, parse_extensions, max_extensions}

pub record ClientHelloInfo : Type 0 where
  pub offered_versions : List ℕ
  pub legacy_version : Option ℕ
  pub cipher_suites : List ℕ
  pub sni : Option Bytes
  pub alpn : List Bytes
  pub supported_groups : List ℕ
  pub has_supported_versions : Bool
  pub key_share_groups : List ℕ
  pub sig_algs : List ℕ
  pub psk_kex_modes : List ℕ
  pub early_data_offered : Bool
  pub ech_outer : Bool
  pub compression : List ℕ
  pub grease_count : ℕ
  pub extension_ids : List ℕ
  pub ec_point_formats : List ℕ
  pub raw : Bytes

abbrev pub empty_client_hello : Bytes → ClientHelloInfo
empty_client_hello raw = record {
  offered_versions = [];
  legacy_version = none;
  cipher_suites = [];
  sni = none;
  alpn = [];
  supported_groups = [];
  has_supported_versions = false;
  key_share_groups = [];
  sig_algs = [];
  psk_kex_modes = [];
  early_data_offered = false;
  ech_outer = false;
  compression = [];
  grease_count = 0;
  extension_ids = [];
  ec_point_formats = [];
  raw = raw;
}

-- edata[pos:pos+n]
abbrev pub slice : ℕ → ℕ → Bytes → Bytes
slice pos n bs = take n (drop pos bs)

-- The block behind a length of two bytes, and behind one of one byte: edata[2:2+n], edata[1:1+n].
unfoldable pub block16 : Bytes → Bytes
block16 edata = slice 2 (big (take 2 edata)) edata

unfoldable pub block8 : Bytes → Bytes
block8 edata = slice 1 (big (take 1 edata)) edata

-- The first entry of the server name list, if it is a host name that is all there.
unfoldable pub server_name : (Bytes → Bytes) → Bytes → Option Bytes → Option Bytes
server_name decode edata old =
    let nlen = big (slice 3 2 edata) in
    if ltb (length edata) 5
    then old
    else if ltb (length edata) (2 + big (take 2 edata))
    then old
    else if big (slice 2 1 edata) == 0 && leb (5 + nlen) (length edata)
    then some (decode (slice 5 nlen edata))
    else old

-- The loop over the ALPN names from `pos` up to `stop`.
unfoldable pub alpn_loop : (Bytes → Bytes) → ℕ → ℕ → ℕ → Bytes → List Bytes
alpn_loop decode zero pos stop edata = []
alpn_loop decode (suc fuel) pos stop edata =
    let pl = big (slice pos 1 edata) in
    let more =
      decode (slice (pos + 1) pl edata) ∷ alpn_loop decode fuel (pos + 1 + pl) stop edata in
    if leb (pos + 1) stop then more else []

unfoldable pub alpn_names : (Bytes → Bytes) → Bytes → List Bytes
unfolding alpn_loop
alpn_names decode edata =
    if ltb (length edata) 2
    then []
    else alpn_loop decode (length edata) 2 (min (2 + big (take 2 edata)) (length edata)) edata

-- The loop over the key shares from `pos` up to `stop`.
unfoldable pub key_share_loop : ℕ → ℕ → ℕ → Bytes → List ℕ
key_share_loop zero pos stop edata = []
key_share_loop (suc fuel) pos stop edata =
    let more =
      big (slice pos 2 edata)
      ∷ key_share_loop fuel (pos + 4 + big (slice (pos + 2) 2 edata)) stop edata in
    if leb (pos + 4) stop then more else []

unfoldable pub key_shares : Bytes → List ℕ
unfolding key_share_loop
key_shares edata =
    if ltb (length edata) 2
    then []
    else key_share_loop (length edata) 2 (min (2 + big (take 2 edata)) (length edata)) edata

-- The branches on `etype`, after `info.extension_ids.append(etype)`.
unfoldable pub client_extension : (Bytes → Bytes) → ℕ → Bytes → ClientHelloInfo → ClientHelloInfo
unfolding server_name alpn_names key_shares block16 block8
client_extension decode etype edata info =
    if etype == 0
    then record info { sni = server_name decode edata info.sni }
    else if etype == 10
    then (if leb 2 (length edata)
        then record info { supported_groups = u16s (block16 edata) }
        else info)
    else if etype == 16
    then record info { alpn = info.alpn ++ alpn_names decode edata }
    else if etype == 43
    then record info {
      has_supported_versions = true;
      offered_versions =
          if leb 1 (length edata) then u16s (block8 edata) else info.offered_versions;
    }
    else if etype == 13
    then (if leb 2 (length edata) then record info { sig_algs = u16s (block16 edata) } else info)
    else if etype == 51
    then record info { key_share_groups = info.key_share_groups ++ key_shares edata }
    else if etype == 45
    then (if leb 1 (length edata) then record info { psk_kex_modes = block8 edata } else info)
    else if etype == 42
    then record info { early_data_offered = true }
    else if etype == 0xFE0D
    then record info { ech_outer = true }
    else if etype == 11
    then (if leb 1 (length edata) then record info { ec_point_formats = block8 edata } else info)
    else info

unfoldable pub client_extensions :
    (Bytes → Bytes) → List Extension → ClientHelloInfo → ClientHelloInfo
unfolding client_extension
client_extensions decode [] info = info
client_extensions decode ((etype, edata) ∷ exts) info = client_extensions decode exts (
    client_extension decode etype edata
      (record info { extension_ids = info.extension_ids ++ etype ∷ [] }))

unfoldable pub count_grease : List ℕ → ℕ
count_grease [] = 0
count_grease (v ∷ values) = let rest = count_grease values in if is_grease v then suc rest else rest

unfoldable pub with_grease_count : ClientHelloInfo → ClientHelloInfo
unfolding count_grease
with_grease_count info = record info {
  grease_count = count_grease (
      info.cipher_suites ++ info.supported_groups ++ info.offered_versions
      ++ info.key_share_groups);
}

-- From the extensions' length on; `bs` is `buf[pos:]`.
unfoldable pub client_hello_extensions :
    (Bytes → Bytes) → ClientHelloInfo → Bytes → Parsed ClientHelloInfo
unfolding client_extensions with_grease_count
client_hello_extensions decode info bs =
    let exts_len = big (take 2 bs) in
    if ltb (length bs) 2
    then parsed info
    else if ltb (length bs) (2 + exts_len)
    then raised "client hello truncated in extensions"
    else parsed (
        with_grease_count
          (client_extensions decode (parse_extensions (slice 2 exts_len bs) max_extensions) info))

-- From the compression methods on.
unfoldable pub client_hello_compression :
    (Bytes → Bytes) → ClientHelloInfo → Bytes → Parsed ClientHelloInfo
unfolding client_hello_extensions
client_hello_compression decode info [] = parsed info
client_hello_compression decode info (comp_len ∷ bs) =
    if ltb (length bs) comp_len
    then raised "client hello truncated in compression"
    else client_hello_extensions decode (record info { compression = take comp_len bs })
        (drop comp_len bs)

-- From the cipher suites on. With fewer than two bytes left `pos` passes the end, and the test fails.
unfoldable pub client_hello_ciphers :
    (Bytes → Bytes) → ClientHelloInfo → Bytes → Parsed ClientHelloInfo
unfolding client_hello_compression
client_hello_ciphers decode info bs =
    let cs_len = big (take 2 bs) in
    if ltb (length bs) (2 + cs_len)
    then raised "client hello truncated in cipher suites"
    else client_hello_compression decode (record info { cipher_suites = u16s (slice 2 cs_len bs) })
        (drop (2 + cs_len) bs)

-- From the session id on, with its length read.
unfoldable pub client_hello_session :
    (Bytes → Bytes) → ClientHelloInfo → ℕ → Bytes → Parsed ClientHelloInfo
unfolding client_hello_ciphers
client_hello_session decode info sid_len bs =
    if ltb (length bs) sid_len
    then raised "client hello truncated in session id"
    else client_hello_ciphers decode info (drop sid_len bs)

unfoldable pub parse_client_hello : (Bytes → Bytes) → Bytes → Parsed ClientHelloInfo
unfolding client_hello_session
parse_client_hello decode buf =
    let info : ClientHelloInfo = record (empty_client_hello buf) {
      legacy_version = some (big (take 2 buf));
    } in
    if ltb (length buf) 2
    then raised "client hello truncated at legacy_version"
    else if ltb (length buf) 34
    then raised "client hello truncated before random"
    else index (drop 34 buf) >>= λ p. client_hello_session decode info p.0 p.1
