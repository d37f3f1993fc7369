-- ===== src/Reassembly/Session.antt =====
-- Sessions, the protocol that they speak, and where their TLS begins: `Protocol`, `Session`,
-- `detect_protocol` and `_assign_tls_segments` of backend/app/parsing/reassembly.py. Addresses and
-- texts are lists of code points.
use Prim.Native.String.{String}
use cipher_post.Prelude.{
  ℕ, ◌/◌, ◌%◌, Bool, true, false, ◌||◌, Option, none, some, List, [], ◌∷◌, ◌++◌, map, ltb, ◌==◌,
  if◌then◌else◌, length, take, drop,
}
use cipher_post.Prelude.Bytes.{Bytes, codes}
use cipher_post.Prelude.Bytes.{find, contains, upper_byte}
use cipher_post.Prelude.Classes.{nat_eq, string_eq}
use cipher_post.Prelude.Text.{decimal}
use cipher_post.Records.{
  ok, err, TlsRecord, parse_tls_records, default_max_records, find_tls_offset, default_max_scan,
  find_starttls_offset,
}

pub data Protocol : Type 0 where
  smtp imap pop3 unknown : Protocol

-- protocol.value
unfoldable pub value : Protocol → String
value smtp = "SMTP"
value imap = "IMAP"
value pop3 = "POP3"
value unknown = "UNKNOWN"

unfoldable pub is_implicit_tls_port : ℕ → Bool
is_implicit_tls_port p = p == 465 || p == 993 || p == 995

-- PORT_TO_PROTO
unfoldable pub port_to_proto : ℕ → Option Protocol
port_to_proto p =
    if p == 25 || p == 465 || p == 587
    then some smtp
    else if p == 110 || p == 995
    then some pop3
    else if p == 143 || p == 993
    then some imap
    else none

pub record Session : Type 0 where
  pub protocol : Protocol
  pub five_tuple : Bytes
  pub client_ip : Bytes
  pub server_ip : Bytes
  pub client_port : ℕ
  pub server_port : ℕ
  pub is_starttls : Bool
  pub transition_offset : Option ℕ
  pub plaintext_segment : Bytes
  pub plaintext_server_segment : Bytes
  pub tls_segment : Bytes
  pub tls_server_segment : Bytes
  pub start_ts : ℕ
  pub end_ts : ℕ
  pub port_based : Bool

-- f"{c_ip}:{c_port}->{s_ip}:{s_port}"
unfoldable pub five_tuple_full : Bytes → ℕ → Bytes → ℕ → Bytes
five_tuple_full c_ip c_port s_ip s_port =
    c_ip ++ codes ":" ++ decimal c_port ++ codes "->" ++ s_ip ++ codes ":" ++ decimal s_port

-- Session(...), with the defaults of the fields that are not given.
unfoldable pub new_session : Bytes → ℕ → Bytes → ℕ → ℕ → ℕ → Session
unfolding five_tuple_full
new_session c_ip c_port s_ip s_port start_ts end_ts = record {
  protocol = unknown;
  five_tuple = five_tuple_full c_ip c_port s_ip s_port;
  client_ip = c_ip;
  server_ip = s_ip;
  client_port = c_port;
  server_port = s_port;
  is_starttls = false;
  transition_offset = none;
  plaintext_segment = [];
  plaintext_server_segment = [];
  tls_segment = [];
  tls_server_segment = [];
  start_ts = start_ts;
  end_ts = end_ts;
  port_based = false;
}

-- The first marker that occurs in `probe` decides.
unfoldable pub first_match : List (Bytes × Protocol) → Bytes → Option Protocol
first_match [] probe = none
first_match ((marker, proto) ∷ rest) probe =
    let others = first_match rest probe in if contains marker probe then some proto else others

abbrev pub banner_markers : List (Bytes × Protocol)
banner_markers =
    (codes "ESMTP", smtp)
    ∷ (codes "Dovecot", imap)
    ∷ (codes "IMAP4", imap)
    ∷ (codes "+OK", pop3)
    ∷ []

abbrev pub command_markers : List (Bytes × Protocol)
command_markers =
    (codes "EHLO", smtp)
    ∷ (codes "MAIL FROM", smtp)
    ∷ (codes "LOGIN", imap)
    ∷ (codes "a001", imap)
    ∷ (codes "USER", pop3)
    ∷ (codes "PASS", pop3)
    ∷ []

unfoldable pub upper : Bytes → Bytes
upper bs = map upper_byte bs

-- (server_stream[:4096] + b"\x00" + client_stream[:4096]).upper()
unfoldable pub probe_of : Bytes → Bytes → Bytes
unfolding upper
probe_of client_stream server_stream =
    upper (take 4096 server_stream ++ 0 ∷ take 4096 client_stream)

-- The heuristics that come after the ports.
unfoldable pub guess_protocol : Bytes → Bytes → Protocol
unfolding first_match upper probe_of
guess_protocol client_stream server_stream =
    elim (first_match banner_markers (probe_of client_stream server_stream)) [
      | some proto ↦ proto
      | none ↦ elim (first_match command_markers (upper (take 4096 client_stream))) [
        | some proto ↦ proto
        | none ↦ unknown
      ]
    ]

-- The session with `protocol` set to what `detect_protocol` returns, and with the flag that it sets.
unfoldable pub detect_protocol : Session → Bytes → Bytes → Session
detect_protocol session client_stream server_stream = elim (port_to_proto session.server_port) [
  | some proto ↦ record session { protocol = proto; port_based = true }
  | none ↦ record session { protocol = guess_protocol client_stream server_stream }
]

-- Only a command line that TLS records follow at once is a transition.
unfoldable pub starttls_transition : Session → Bytes → Option ℕ
starttls_transition sess client_bytes =
    elim (find_starttls_offset client_bytes (value sess.protocol)) [
      | none ↦ none
      | some off ↦
          if ltb off (length client_bytes)
          then elim (find_tls_offset (drop off client_bytes) default_max_scan) [
            | none ↦ none
            | some at ↦ if at == 0 then some off else none
          ]
          else none
    ]

-- client_bytes.find(header), and 0 for -1
unfoldable pub header_offset : TlsRecord → Bytes → ℕ
header_offset first client_bytes =
    elim (find (first.content_type ∷ first.version / 256 % 256 ∷ first.version % 256 ∷ [])
      client_bytes) [ none ↦ 0 | some offset ↦ offset ]

-- TLS where none was announced. An error of the parser counts as no records.
unfoldable pub unannounced_tls : Bytes → Option ℕ
unannounced_tls client_bytes = elim (parse_tls_records client_bytes default_max_records) [
  | err e ↦ none
  | ok [] ↦ none
  | ok (first ∷ recs) ↦ some (header_offset first client_bytes)
]

-- The split of both directions at the transition. Both branches on the kind of session write the
-- same `plaintext_server_segment` when server records are found.
unfoldable pub split_at : Session → ℕ → Bytes → Bytes → Session
split_at sess offset client_bytes server_bytes =
    let split = record sess {
      transition_offset = some offset;
      plaintext_segment = take offset client_bytes;
      plaintext_server_segment = if sess.is_starttls then server_bytes else [];
      tls_segment = drop offset client_bytes;
    } in
    elim (find_tls_offset server_bytes default_max_scan) [
      | none ↦ record split { tls_server_segment = server_bytes }
      | some so ↦
          if ltb so (length server_bytes)
          then record split {
            tls_server_segment = drop so server_bytes;
            plaintext_server_segment = take so server_bytes;
          }
          else record split { tls_server_segment = server_bytes }
    ]

unfoldable pub all_plaintext : Session → Bytes → Bytes → Session
all_plaintext sess client_bytes server_bytes = record sess {
  plaintext_segment = client_bytes;
  plaintext_server_segment = server_bytes;
  tls_segment = [];
  tls_server_segment = [];
}

unfoldable pub assign_tls_segments : Session → Bytes → Bytes → Session
assign_tls_segments sess client_bytes server_bytes =
    if is_implicit_tls_port sess.server_port
    then split_at (record sess { is_starttls = false }) 0 client_bytes server_bytes
    else elim (starttls_transition sess client_bytes) [
      | some off ↦ split_at (record sess { is_starttls = true }) off client_bytes server_bytes
      | none ↦ elim (unannounced_tls client_bytes) [
        | some off ↦ split_at (record sess { is_starttls = false }) off client_bytes server_bytes
        | none ↦ all_plaintext sess client_bytes server_bytes
      ]
    ]
