-- ===== src/Live.antt =====
-- The reassembly of a live capture (backend/app/live/reassembly.py) on the streams of
-- backend/app/parsing/reassembly.py. A packet's `feed` raises nothing, so the handler of errors
-- around it is left out; texts of the log are not modelled.
pub mod Counts
pub mod Rule
pub mod EmitOne
pub mod Table
pub mod Silent
pub mod Sessions
pub mod Verdicts
mod Tests
use cipher_post.Prelude.{
  ℕ, zero, suc, ◌+◌, ◌-◌, ◌*◌, ◌/◌, ◌%◌, ◌^◌, ◌≤◌, ◌<◌, min, max, ◌≡◌, refl, sym, ap, ◌∙◌, ◌≢◌, ◌↔◌,
  ◌⊎◌, inl, inr, Bool, true, false, not, ◌&&◌, ◌||◌, Option, none, some, List, [], ◌∷◌, ◌++◌, map,
  append-nil, append_assoc, arith, ltb, leb, ◌==◌, if◌then◌else◌, ltb→lt, lt→ltb, ge→ltb, leb→le,
  ==_iff, ==_refl, Bool-cases, Option-cases, length, get_elem?, take, drop, All, length-append,
  take-append-drop, length-take, length-drop, take-append, drop-append, drop_all, All-append,
  All-drop, All-take, All-imp,
}
use cipher_post.Prelude.Bytes.{Bytes, IsBytes, codes, bytes_eq, bytes_eq_refl, bytes_eq→eq}
use cipher_post.Prelude.Bytes.{
  starts_with, find_at, find, find_from, contains, upper_byte, Occurs, find_at-Occurs,
  starts_with-append,
}
use cipher_post.Prelude.Classes.{Eq, eqb, eqb_refl, nat_eq, string_eq}
use cipher_post.Prelude.Dict.{
  Dict, get, put, pop, get-put, get-pop, length-pop-le, length-pop-lt, get-put_self, get-pop_self,
}
use cipher_post.Prelude.Sort.{count, insert_by, sorted}
use cipher_post.Reassembly.Session.{
  Protocol, smtp, imap, pop3, unknown, value, is_implicit_tls_port, port_to_proto, Session,
  first_match, banner_markers, command_markers, upper, probe_of, guess_protocol, detect_protocol,
  starttls_transition, header_offset, unannounced_tls, split_at, all_plaintext, assign_tls_segments,
  new_session,
}
use cipher_post.Reassembly.HalfStream.{HalfStream}
use cipher_post.Reassembly.Assembler.{
  Key, key_eq, Stream, Streams, Packet, packet_key, feed, client_is_a, classify,
}

-- (segment_file, offset, length)
pub record RawRef : Type 0 where
  pub segment : Bytes
  pub offset : ℕ
  pub size : ℕ

pub record ReassemblyStats : Type 0 where
  pub packets : ℕ
  pub evicted : ℕ
  pub closed_fin : ℕ
  pub closed_rst : ℕ
  pub closed_idle : ℕ
  pub closed_cap : ℕ
  pub truncated : ℕ
  pub completed : ℕ
  pub active : ℕ

abbrev pub new_stats : ReassemblyStats
new_stats = record {
  packets = 0;
  evicted = 0;
  closed_fin = 0;
  closed_rst = 0;
  closed_idle = 0;
  closed_cap = 0;
  truncated = 0;
  completed = 0;
  active = 0;
}

-- The fields of a LiveReassembler that are written after `__init__`; the limits are arguments.
pub record LiveReassembler : Type 0 where
  pub streams : Streams
  pub refs : Dict Key (List RawRef)
  pub stats : ReassemblyStats

abbrev pub new_reassembler : LiveReassembler
new_reassembler = record { streams = []; refs = []; stats = new_stats }

pub record Limits : Type 0 where
  pub idle_timeout : ℕ
  pub max_sessions : ℕ
  pub max_buffer_bytes : ℕ

-- The texts in `closed_by`.
pub data CloseReason : Type 0 where
  by_fin by_rst by_idle by_cap by_eviction : CloseReason

-- A session with the attributes that `_emit_one` sets beside those of the assembler.
pub record ClosedSession : Type 0 where
  pub session : Session
  pub closed_by : CloseReason
  pub raw_refs : List RawRef
  pub tracked_bytes : ℕ

-- self._ref_list(key).append(pkt.raw_ref)
unfoldable pub add_ref : Key → Option RawRef → Dict Key (List RawRef) → Dict Key (List RawRef)
add_ref key none refs = refs
add_ref key (some ref) refs = elim (get key refs) [
  | none ↦ put key (ref ∷ []) refs
  | some old ↦ put key (old ++ ref ∷ []) refs
]

unfoldable pub feed_packet : Packet → Option RawRef → LiveReassembler → LiveReassembler
unfolding add_ref
feed_packet pkt raw_ref self = record {
  streams = feed pkt self.streams;
  refs = add_ref (packet_key pkt) raw_ref self.refs;
  stats = record self.stats { packets = self.stats.packets + 1 };
}

unfoldable pub close_reason : Stream → CloseReason
close_reason st = if st.ha.rst || st.hb.rst then by_rst else by_fin

-- max(st.ha.last_ts, st.hb.last_ts)
abbrev pub last_seen : Stream → ℕ
last_seen st = max st.ha.last_ts st.hb.last_ts

abbrev pub buffered : Stream → ℕ
buffered st = length st.ha.buf + length st.hb.buf

-- st.ha.rst = st.hb.rst = True
unfoldable pub set_rst : Stream → Stream
set_rst st = record st { ha = record st.ha { rst = true }; hb = record st.hb { rst = true } }

-- The body of the first loop of `sweep`: the stream, and the reason, if it is to be closed.
unfoldable pub verdict : Limits → ℕ → Stream → Option (Stream × CloseReason)
unfolding close_reason set_rst
verdict limits now st =
    if st.complete
    then some (st, close_reason st)
    else if not (last_seen st == 0) && ltb (last_seen st + limits.idle_timeout) now
    then some (st, by_idle)
    else if ltb limits.max_buffer_bytes (buffered st)
    then some (set_rst st, by_cap)
    else none

abbrev pub add_closing :
    Key
    → Option (Stream × CloseReason)
    → List (Key × Stream × CloseReason)
    → List (Key × Stream × CloseReason)
add_closing key none more = more
add_closing key (some (st, reason)) more = (key, st, reason) ∷ more

-- The first loop of `sweep`.
unfoldable pub to_close : Limits → ℕ → Streams → List (Key × Stream × CloseReason)
unfolding verdict
to_close limits now [] = []
to_close limits now ((key, st) ∷ rest) =
    add_closing key (verdict limits now st) (to_close limits now rest)

unfoldable pub count_close : CloseReason → ReassemblyStats → ReassemblyStats
count_close by_fin s = record s { closed_fin = s.closed_fin + 1; completed = s.completed + 1 }
count_close by_rst s = record s { closed_rst = s.closed_rst + 1; completed = s.completed + 1 }
count_close by_idle s = record s { closed_idle = s.closed_idle + 1; completed = s.completed + 1 }
count_close by_cap s = record s {
  closed_cap = s.closed_cap + 1;
  truncated = s.truncated + 1;
  completed = s.completed + 1;
}
count_close by_eviction s = record s { closed_cap = s.closed_cap + 1; completed = s.completed + 1 }

-- The session of a stream, as `_emit_one` builds it, unless its protocol is unknown.
unfoldable pub session_of_closed : Stream → Option Session
unfolding client_is_a classify
session_of_closed st =
    if client_is_a st
    then classify (new_session st.ip_a st.port_a st.ip_b st.port_b st.first_ts (last_seen st))
        st.ha.buf st.hb.buf
    else classify (new_session st.ip_b st.port_b st.ip_a st.port_a st.first_ts (last_seen st))
        st.hb.buf st.ha.buf

-- refs or []
abbrev pub refs_of : Key → Dict Key (List RawRef) → List RawRef
refs_of key refs = elim (get key refs) [ none ↦ [] | some found ↦ found ]

abbrev pub drop_stream : Key → LiveReassembler → LiveReassembler
drop_stream key self = record self { streams = pop key self.streams; refs = pop key self.refs }

unfoldable pub emit_one :
    Key → Stream → CloseReason → LiveReassembler → Option ClosedSession × LiveReassembler
unfolding session_of_closed count_close
emit_one key st reason self = elim (get key self.streams) [
  | none ↦ (none, self)
  | some _ ↦ elim (session_of_closed st) [
    | none ↦ (none, drop_stream key self)
    | some sess ↦ (
      some (record {
        session = sess;
        closed_by = reason;
        raw_refs = refs_of key self.refs;
        tracked_bytes = buffered st;
      }),
      record (drop_stream key self) { stats = count_close reason self.stats },
    )
  ]
]

-- [self._emit_one(key, st, reason) for key, st, reason in to_close]
unfoldable pub emit_all :
    List (Key × Stream × CloseReason)
    → LiveReassembler
    → List (Option ClosedSession) × LiveReassembler
emit_all [] self = ([], self)
emit_all ((key, st, reason) ∷ rest) self =
    let (sess, self1) = emit_one key st reason self in
    let (out, self2) = emit_all rest self1 in (sess ∷ out, self2)

-- [k for k, st in self._streams.items() if not st.complete]
unfoldable pub active_keys : Streams → List Key
active_keys [] = []
active_keys ((key, st) ∷ rest) = if st.complete then active_keys rest else key ∷ active_keys rest

-- self._streams[k].first_ts; the keys are those of the table, so none is missing.
unfoldable pub first_ts_of : Streams → Key → ℕ
first_ts_of streams key = elim (get key streams) [ none ↦ 0 | some st ↦ st.first_ts ]

-- The streams above the limit, the oldest ones first; `sort` stops at none below it.
unfoldable pub overflow : ℕ → Streams → List Key
unfolding active_keys first_ts_of sorted
overflow max_sessions streams =
    take (length (active_keys streams) - max_sessions)
      (sorted (first_ts_of streams) (active_keys streams))

abbrev pub count_evicted : LiveReassembler → LiveReassembler
count_evicted self = record self { stats = record self.stats { evicted = self.stats.evicted + 1 } }

-- `if sess: out.append(sess)`
abbrev pub add_emitted :
    Option ClosedSession → List (Option ClosedSession) → List (Option ClosedSession)
add_emitted none out = out
add_emitted (some sess) out = some sess ∷ out

-- The loop over the streams above the limit, with what it appends.
unfoldable pub evict_all :
    List Key → LiveReassembler → List (Option ClosedSession) × LiveReassembler
evict_all [] self = ([], self)
evict_all (key ∷ rest) self = elim (get key self.streams) [
  | none ↦ evict_all rest (count_evicted self)
  | some st ↦
      let (sess, self1) = emit_one key st by_eviction (count_evicted self) in
      let (out, self2) = evict_all rest self1 in (add_emitted sess out, self2)
]

-- self.stats.active = len(self._streams)
abbrev pub set_active : LiveReassembler → LiveReassembler
set_active self = record self { stats = record self.stats { active = length self.streams } }

unfoldable pub sweep : Limits → ℕ → LiveReassembler → List (Option ClosedSession) × LiveReassembler
unfolding to_close emit_all overflow evict_all
sweep limits now self =
    let (out, self1) = emit_all (to_close limits now self.streams) self in
    let (more, self2) = evict_all (overflow limits.max_sessions self1.streams) self1 in
    (out ++ more, set_active self2)

-- tick(now)
abbrev pub tick : Limits → ℕ → LiveReassembler → List (Option ClosedSession) × LiveReassembler
tick = sweep

-- The loop of `drain`, over the entries as they were when it started.
unfoldable pub drain_loop :
    Streams → LiveReassembler → List (Option ClosedSession) × LiveReassembler
unfolding close_reason
drain_loop [] self = ([], self)
drain_loop ((key, st) ∷ rest) self =
    if st.complete
    then (let (sess, self1) = emit_one key st (close_reason st) self in
        let (out, self2) = drain_loop rest self1 in (add_emitted sess out, self2))
    else drain_loop rest self

unfoldable pub drain : LiveReassembler → List (Option ClosedSession) × LiveReassembler
unfolding drain_loop
drain self = let (out, self1) = drain_loop self.streams self in (out, set_active self1)
