-- ===== src/Reassembly/Assembler.antt =====
-- Streams keyed by a pair of endpoints: `_Stream` and `StreamAssembler` of
-- backend/app/parsing/reassembly.py. Addresses are strings, which `_ip_str` leaves as they are.
use cipher_post.Prelude.{
  ℕ, ◌+◌, ◌/◌, ◌%◌, ◌≡◌, ◌↔◌, Bool, true, false, not, ◌&&◌, ◌||◌, Option, none, some, List, [], ◌∷◌,
  arith, ltb, leb, ◌==◌, if◌then◌else◌, length,
}
use cipher_post.Prelude.Bytes.{Bytes, bytes_eq, bytes_eq_refl, bytes_eq→eq}
use cipher_post.Prelude.Classes.{Eq, nat_eq, string_eq}
use cipher_post.Prelude.Dict.{Dict, get, put}
use cipher_post.Reassembly.HalfStream.{HalfStream, new_half, store}
use cipher_post.Prelude.Text.{text_leb}
use cipher_post.Reassembly.Session.{
  Protocol, unknown, Session, port_to_proto, new_session, detect_protocol, assign_tls_segments,
}

pub record Key : Type 0 where
  pub ip_a : Bytes
  pub port_a : ℕ
  pub ip_b : Bytes
  pub port_b : ℕ

abbrev pub key_beq : Key → Key → Bool
key_beq k j =
    bytes_eq k.ip_a j.ip_a && k.port_a == j.port_a && bytes_eq k.ip_b j.ip_b && k.port_b == j.port_b

pub key_beq_iff : (k j : Key) → (key_beq k j ≡ true) ↔ (k ≡ j)
key_beq_iff k j = (
  λ h. ground (arith, bytes_eq→eq k.ip_a j.ip_a, bytes_eq→eq k.ip_b j.ip_b),
  λ e. rw e (ground (arith, bytes_eq_refl j.ip_a, bytes_eq_refl j.ip_b)),
)

instance abbrev pub key_eq : Eq Key
key_eq = record { beq = key_beq; beq_iff = key_beq_iff }

-- (ip1, p1) <= (ip2, p2)
unfoldable pub endpoint_leb : Bytes → ℕ → Bytes → ℕ → Bool
endpoint_leb ip1 p1 ip2 p2 = if bytes_eq ip1 ip2 then leb p1 p2 else text_leb ip1 ip2

-- _key(ip1, p1, ip2, p2)
unfoldable pub key_of : Bytes → ℕ → Bytes → ℕ → Key
unfolding endpoint_leb
key_of ip1 p1 ip2 p2 =
    if endpoint_leb ip1 p1 ip2 p2
    then record { ip_a = ip1; port_a = p1; ip_b = ip2; port_b = p2 }
    else record { ip_a = ip2; port_a = p2; ip_b = ip1; port_b = p1 }

pub record Stream : Type 0 where
  pub ip_a : Bytes
  pub port_a : ℕ
  pub ip_b : Bytes
  pub port_b : ℕ
  pub ha : HalfStream
  pub hb : HalfStream
  pub a_is_client : Option Bool
  pub syn_by_a : Bool
  pub syn_by_b : Bool
  pub complete : Bool
  pub first_ts : ℕ

unfoldable pub new_stream : Key → ℕ → Stream
new_stream k ts = record {
  ip_a = k.ip_a;
  port_a = k.port_a;
  ip_b = k.ip_b;
  port_b = k.port_b;
  ha = new_half;
  hb = new_half;
  a_is_client = none;
  syn_by_a = false;
  syn_by_b = false;
  complete = false;
  first_ts = ts;
}

-- What `feed` is given of a packet; `ack` is not read.
pub record Packet : Type 0 where
  pub src : Bytes
  pub dst : Bytes
  pub sport : ℕ
  pub dport : ℕ
  pub seq : ℕ
  pub ack : ℕ
  pub payload : Bytes
  pub flags : ℕ
  pub ts : ℕ

-- bool(flags & 0x02)
unfoldable pub syn : ℕ → Bool
syn flags = flags / 2 % 2 == 1

-- bool(flags & 0x01)
unfoldable pub fin : ℕ → Bool
fin flags = flags % 2 == 1

-- bool(flags & 0x04)
unfoldable pub rst : ℕ → Bool
rst flags = flags / 4 % 2 == 1

-- The marks that a packet leaves on the half stream of its direction, before its payload is stored.
unfoldable pub mark_half : Packet → HalfStream → HalfStream
mark_half p hs = record hs {
  syn_seq = if syn p.flags then some p.seq else hs.syn_seq;
  syn_ts = if syn p.flags then p.ts else hs.syn_ts;
  fin_seq = if fin p.flags then some (p.seq + length p.payload) else hs.fin_seq;
  rst = if rst p.flags then true else hs.rst;
}

unfoldable pub feed_half : Packet → HalfStream → HalfStream
unfolding mark_half
feed_half p hs = store (mark_half p hs) p.seq p.payload p.ts

abbrev pub is_some {ℓ} : {A : Type ℓ} → Option A → Bool
is_some none = false
is_some (some a) = true

-- RST in either direction, or FIN in both
unfoldable pub is_closed : Stream → Bool
is_closed st = st.ha.rst || st.hb.rst || (is_some st.ha.fin_seq && is_some st.hb.fin_seq)

unfoldable pub set_complete : Stream → Stream
unfolding is_closed
set_complete st = record st { complete = is_closed st || st.complete }

-- (src_ip, sport) == (ip_a, p_a)
unfoldable pub is_from_a : Packet → Key → Bool
is_from_a p k = bytes_eq p.src k.ip_a && p.sport == k.port_a

unfoldable pub feed_stream : Bool → Packet → Stream → Stream
unfolding feed_half set_complete
feed_stream true p st =
    set_complete (record st { ha = feed_half p st.ha; syn_by_a = syn p.flags || st.syn_by_a })
feed_stream false p st =
    set_complete (record st { hb = feed_half p st.hb; syn_by_b = syn p.flags || st.syn_by_b })

abbrev pub Streams : Type 0
Streams = Dict Key Stream

abbrev pub packet_key : Packet → Key
packet_key p = key_of p.src p.sport p.dst p.dport

-- self._streams.get(key), and a new stream for `None`
unfoldable pub stream_for : Packet → Streams → Stream
unfolding new_stream
stream_for p streams = elim (get (packet_key p) streams) [
  | some st ↦ st
  | none ↦ new_stream (packet_key p) p.ts
]

unfoldable pub feed : Packet → Streams → Streams
unfolding stream_for feed_stream is_from_a
feed p streams =
    put (packet_key p) (feed_stream (is_from_a p (packet_key p)) p (stream_for p streams)) streams

unfoldable pub is_mail_port : ℕ → Bool
is_mail_port p = is_some (port_to_proto p)

-- _resolve_client(st): is the A side the client? `0` is the false value of a time.
unfoldable pub a_is_client : Stream → Bool
unfolding is_mail_port
a_is_client st =
    let ta = st.ha.first_ts in
    let tb = st.hb.first_ts in
    if st.syn_by_a && not st.syn_by_b
    then true
    else if st.syn_by_b && not st.syn_by_a
    then false
    else if is_mail_port st.port_a && not (is_mail_port st.port_b)
    then false
    else if is_mail_port st.port_b && not (is_mail_port st.port_a)
    then true
    else if not (ta == 0) && (tb == 0 || ltb ta tb)
    then true
    else if not (tb == 0) && (ta == 0 || ltb tb ta)
    then false
    else true

-- c == (st.ip_a, st.port_a), of the endpoint that `_resolve_client` returns
unfoldable pub client_is_a : Stream → Bool
unfolding a_is_client
client_is_a st = a_is_client st || (bytes_eq st.ip_b st.ip_a && st.port_b == st.port_a)

abbrev pub is_unknown : Protocol → Bool
is_unknown unknown = true
is_unknown _ = false

-- The session of a stream with the client and server roles given, unless its protocol is unknown.
unfoldable pub classify : Session → Bytes → Bytes → Option Session
classify sess client_bytes server_bytes =
    let found = detect_protocol sess client_bytes server_bytes in
    if is_unknown found.protocol
    then none
    else some (assign_tls_segments found client_bytes server_bytes)

unfoldable pub session_of : Stream → Option Session
unfolding client_is_a classify
session_of st =
    if client_is_a st
    then classify (new_session st.ip_a st.port_a st.ip_b st.port_b st.first_ts 0) st.ha.buf
        st.hb.buf
    else classify (new_session st.ip_b st.port_b st.ip_a st.port_a st.first_ts 0) st.hb.buf
        st.ha.buf

abbrev pub append_some : Option Session → List Session → List Session
append_some none out = out
append_some (some sess) out = sess ∷ out

-- The loop of `emit`, over the streams in the order of their first packets.
unfoldable pub emit : Streams → List Session
unfolding session_of
emit [] = []
emit ((k, st) ∷ rest) = if st.complete then append_some (session_of st) (emit rest) else emit rest
