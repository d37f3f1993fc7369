-- ===== src/Handshake/ServerHello.antt =====
-- `parse_server_hello` of backend/app/parsing/handshake.py.
use Prim.Native.String.{String}
use cipher_post.Prelude.{
  ℕ, ◌+◌, Bool, true, false, ◌&&◌, Option, none, some, List, [], ◌∷◌, ◌++◌, ltb, leb, ◌==◌,
  if◌then◌else◌, length, take, drop,
}
use cipher_post.Prelude.Bytes.{Bytes, codes, bytes_eq}
use cipher_post.Prelude.Classes.{nat_eq, string_eq}
use cipher_post.Prelude.Cursor.{big}
use cipher_post.Handshake.Parsed.{Parsed, parsed, raised}
use cipher_post.Handshake.Messages.{Extension, parse_extensions, max_extensions}
use cipher_post.Handshake.ClientHello.{slice}

abbrev pub hrr_random : Bytes
hrr_random =
    207 ∷ 33 ∷ 173 ∷ 116 ∷ 229 ∷ 154 ∷ 97 ∷ 17 ∷ 190 ∷ 29 ∷ 140 ∷ 2 ∷ 30 ∷ 101 ∷ 184 ∷ 145 ∷ 194
    ∷ 162 ∷ 17 ∷ 22 ∷ 122 ∷ 187 ∷ 140 ∷ 94 ∷ 7 ∷ 158 ∷ 9 ∷ 226 ∷ 200 ∷ 168 ∷ 51 ∷ 156 ∷ []

-- DOWNGRAD_SENTINEL_TLS12 and DOWNGRAD_SENTINEL_TLS11
abbrev pub sentinel_tls12 : Bytes
sentinel_tls12 = codes "DOWNGRD" ++ 1 ∷ []

abbrev pub sentinel_tls11 : Bytes
sentinel_tls11 = codes "DOWNGRD" ++ 0 ∷ []

pub record ServerHelloInfo : Type 0 where
  pub negotiated_version : Option ℕ
  pub legacy_version : Option ℕ
  pub cipher_suite : Option ℕ
  pub supported_versions_ext : Option ℕ
  pub server_random : Bytes
  pub selected_group : Option ℕ
  pub is_hrr : Bool
  pub downgrade_sentinel : Option String
  pub extension_ids : List ℕ
  pub alpn : List Bytes
  pub raw : Bytes

abbrev pub empty_server_hello : Bytes → ServerHelloInfo
empty_server_hello raw = record {
  negotiated_version = none;
  legacy_version = none;
  cipher_suite = none;
  supported_versions_ext = none;
  server_random = [];
  selected_group = none;
  is_hrr = false;
  downgrade_sentinel = none;
  extension_ids = [];
  alpn = [];
  raw = raw;
}

-- What the random tells: a HelloRetryRequest, or one of the downgrade sentinels.
unfoldable pub with_random : Bytes → ServerHelloInfo → ServerHelloInfo
with_random random info =
    let seen = record info { server_random = random } in
    if bytes_eq random hrr_random
    then record seen { is_hrr = true }
    else if bytes_eq (drop 24 random) sentinel_tls12
    then record seen { downgrade_sentinel = some "tls12" }
    else if bytes_eq (drop 24 random) sentinel_tls11
    then record seen { downgrade_sentinel = some "tls11" }
    else seen

-- The branches on `etype`, after `info.extension_ids.append(etype)`.
unfoldable pub server_extension : (Bytes → Bytes) → ℕ → Bytes → ServerHelloInfo → ServerHelloInfo
server_extension decode etype edata info =
    let name_len = big (slice 2 1 edata) in
    if etype == 43 && length edata == 2
    then record info { supported_versions_ext = some (big (take 2 edata)) }
    else if etype == 51 && leb 2 (length edata)
    then record info { selected_group = some (big (take 2 edata)) }
    else if etype == 16 && leb 4 (length edata)
    then (if leb 1 (big (take 2 edata)) && leb (3 + name_len) (length edata)
        then record info { alpn = info.alpn ++ decode (slice 3 name_len edata) ∷ [] }
        else info)
    else info

unfoldable pub server_extensions :
    (Bytes → Bytes) → List Extension → ServerHelloInfo → ServerHelloInfo
unfolding server_extension
server_extensions decode [] info = info
server_extensions decode ((etype, edata) ∷ exts) info = server_extensions decode exts (
    server_extension decode etype edata
      (record info { extension_ids = info.extension_ids ++ etype ∷ [] }))

-- The version of the extension replaces the one of the message.
unfoldable pub with_version_ext : ServerHelloInfo → ServerHelloInfo
with_version_ext info = elim info.supported_versions_ext [
  | none ↦ info
  | some v ↦ record info { negotiated_version = some v }
]

-- From the compression method on: what is not all there is left out without an error.
unfoldable pub server_hello_tail : (Bytes → Bytes) → ServerHelloInfo → Bytes → ServerHelloInfo
unfolding server_extensions with_version_ext
server_hello_tail decode info [] = info
server_hello_tail decode info (comp ∷ bs) =
    let exts_len = big (take 2 bs) in
    if ltb (length bs) 2
    then info
    else if ltb (length bs) (2 + exts_len)
    then info
    else with_version_ext
        (server_extensions decode (parse_extensions (slice 2 exts_len bs) max_extensions) info)

-- From the session id on; `bs` is `buf[34:]`.
unfoldable pub server_hello_session :
    (Bytes → Bytes) → ServerHelloInfo → Bytes → Parsed ServerHelloInfo
unfolding server_hello_tail
server_hello_session decode info [] = raised "server hello truncated sid length"
server_hello_session decode info (sid_len ∷ bs) =
    let rest = drop sid_len bs in
    if ltb (length bs) sid_len
    then raised "server hello truncated sid"
    else if ltb (length rest) 2
    then raised "server hello truncated cipher"
    else parsed (
        server_hello_tail decode
          (record info {
            cipher_suite = some (big (take 2 rest));
            negotiated_version = info.legacy_version;
          })
          (drop 2 rest))

unfoldable pub parse_server_hello : (Bytes → Bytes) → Bytes → Parsed ServerHelloInfo
unfolding server_hello_session with_random
parse_server_hello decode buf =
    let info : ServerHelloInfo = record (empty_server_hello buf) {
      legacy_version = some (big (take 2 buf));
    } in
    if ltb (length buf) 2
    then raised "server hello truncated version"
    else if ltb (length buf) 34
    then raised "server hello truncated random"
    else server_hello_session decode (with_random (slice 2 32 buf) info) (drop 34 buf)
