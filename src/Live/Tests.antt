-- ===== src/Live/Tests.antt =====
-- Concrete runs of the live reassembly, and its theorems at them.
use cipher_post.Prelude.{
  ℕ, ◌+◌, ◌≤◌, ◌≡◌, refl, Bool, true, false, none, some, List, [], ◌∷◌, length, All,
}
use cipher_post.Prelude.Bytes.{Bytes, codes, bytes_eq}
use cipher_post.Prelude.Classes.{nat_eq, string_eq}
use cipher_post.Prelude.Dict.{get, put, pop}
use cipher_post.Live.{
  RawRef, LiveReassembler, new_reassembler, Limits, add_ref, feed_packet, close_reason, verdict,
  to_close, count_close, session_of_closed, emit_one, emit_all, active_keys, overflow, evict_all,
  sweep,
}
use cipher_post.Reassembly.Assembler.{
  Key, key_eq, endpoint_leb, key_of, new_stream, Packet, syn, fin, rst, mark_half, feed_half,
  is_closed, set_complete, is_from_a, feed_stream, stream_for, feed, is_mail_port, a_is_client,
  client_is_a, classify,
}
use cipher_post.Reassembly.HalfStream.{store}
use cipher_post.Prelude.Text.{text_leb}
use cipher_post.Prelude.Sort.{sorted}
use cipher_post.Reassembly.Session.{port_to_proto, detect_protocol, new_session}
use cipher_post.Reassembly.Closing.{feed_all}
use cipher_post.Live.Rule.{emitted, Reach, start, feeds, sweeps}
use cipher_post.Live.Counts.{IsBalanced, Reach-IsBalanced, Reach-RefsHaveStreams}
use cipher_post.Live.Table.{IsOpen, sweep-IsOpen}
use cipher_post.Live.Sessions.{IsExplained, sweep-IsExplained}

abbrev packet : ℕ → Bytes → ℕ → Packet
packet flags payload ts = record {
  src = codes "a";
  dst = codes "b";
  sport = 50000;
  dport = 110;
  seq = 100;
  ack = 0;
  payload = payload;
  flags = flags;
  ts = ts;
}

abbrev frame : RawRef
frame = record { segment = codes "s"; offset = 24; size = 60 }

abbrev limits : Limits
limits = record { idle_timeout = 60; max_sessions = 1; max_buffer_bytes = 100 }

-- A SYN, a line of text, and a reset.
abbrev talk : LiveReassembler
talk = feed_packet (packet 4 [] 9) none (
    feed_packet (packet 0 (codes "hi") 8) (some frame)
      (feed_packet (packet 2 [] 7) none new_reassembler))

talk-Reach : Reach 0 talk
talk-Reach =
    feeds (feeds (feeds start (packet 2 [] 7) none) (packet 0 (codes "hi") 8) (some frame))
      (packet 4 [] 9) none

swept-Reach : Reach (0 + emitted (sweep limits 10 talk).0) (sweep limits 10 talk).1
swept-Reach = sweeps talk-Reach limits 10

Reach-IsBalanced_example :
    IsBalanced (0 + emitted (sweep limits 10 talk).0) (sweep limits 10 talk).1.stats
Reach-IsBalanced_example = Reach-IsBalanced swept-Reach

-- Another connection than that of the packets.
abbrev other : Key
other = record { ip_a = codes "a"; port_a = 50001; ip_b = codes "b"; port_b = 110 }

no_stream : get other talk.streams ≡ none
unfolding get put feed feed_packet key_of endpoint_leb text_leb bytes_eq
no_stream = refl

Reach-RefsHaveStreams_example : get other talk.refs ≡ none
Reach-RefsHaveStreams_example = Reach-RefsHaveStreams talk-Reach other no_stream

sweep-IsOpen_example :
    (length (sweep limits 10 talk).1.streams ≤ 1)
    × All (λ e. IsOpen limits 10 e.1) (sweep limits 10 talk).1.streams
sweep-IsOpen_example = sweep-IsOpen limits 10 talk

sweep-IsExplained_example : All (IsExplained limits 10 talk.streams) (sweep limits 10 talk).0
sweep-IsExplained_example = sweep-IsExplained limits 10 talk

abbrev silent_run : List (Bool × Packet)
silent_run = (true, packet 2 [] 7) ∷ (false, packet 2 [] 8) ∷ []

swept_one : (sweep limits 10 talk).1.stats.closed_rst ≡ 1
unfolding sweep to_close verdict emit_all emit_one evict_all overflow active_keys get put pop feed
    feed_packet add_ref feed_stream stream_for is_from_a key_of endpoint_leb text_leb feed_half
    mark_half store set_complete is_closed new_stream rst fin syn close_reason session_of_closed
    client_is_a a_is_client is_mail_port port_to_proto classify detect_protocol count_close sorted
    bytes_eq new_session
swept_one = refl

silent_open : (feed_all (new_stream other 7) silent_run).complete ≡ false
unfolding feed_stream feed_half mark_half store set_complete is_closed new_stream rst fin syn
silent_open = refl
