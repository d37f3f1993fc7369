-- ===== src/Reassembly/Tests.antt =====
-- Runs of reassembly and of the classification, and their theorems at concrete streams.
use cipher_post.Prelude.{
  ℕ, ◌%◌, ◌^◌, ◌≡◌, refl, sym, inl, inr, Bool, true, false, ◌&&◌, ◌||◌, none, some, List, [], ◌∷◌,
  ◌++◌, arith, ◌==◌, ==_iff, Bool-cases, All,
}
use cipher_post.Prelude.Bytes.{Bytes, codes}
use cipher_post.Prelude.Bytes.{starts_with, find_at, find, find_from}
use cipher_post.Prelude.Classes.{nat_eq, string_eq}
use cipher_post.Prelude.Dict.{get}
use cipher_post.Reassembly.Session.{
  pop3, value, is_implicit_tls_port, port_to_proto, Session, detect_protocol, starttls_transition,
  split_at, assign_tls_segments, new_session,
}
use cipher_post.Records.{
  valid_record_at, scan, find_tls_offset, starttls_command, crlf, end_of_command,
  find_starttls_offset,
}
use cipher_post.Reassembly.Assembler.{Key, key_eq, Stream, new_stream, Packet, session_of, emit}
use cipher_post.Reassembly.HalfStream.{HalfStream, new_half, next_segment, flush}
use cipher_post.Reassembly.Flush.{flush_done}
use cipher_post.Reassembly.Order.{Arrival, store_all, concat, piece_at, Arrived, here, later}
use cipher_post.Reassembly.Complete.{opened, store_all_complete}
use cipher_post.Reassembly.Genuine.{IsGenuine, store_all-IsGenuine, opened-IsGenuine}
use cipher_post.Reassembly.Stall.{overlap_stalls}
use cipher_post.Reassembly.Segments.{assign_tls_segments-client}
use cipher_post.Reassembly.FiveTuple.{pos, split_five_tuple}
use cipher_post.Reassembly.Directions.{split-five_tuple_full}
use cipher_post.Reassembly.Session.{five_tuple_full}
use cipher_post.Reassembly.Closing.{feed_all, any_rst, any_fin, feed_all-complete}
use cipher_post.Reassembly.Emission.{emit-FromComplete, FromComplete}

abbrev arrive : ℕ → Bytes → Arrival
arrive seq payload = record { seq = seq; payload = payload; ts = 7 }

-- The second piece comes first, and the first one twice.
abbrev shuffled : List Arrival
shuffled = arrive 103 (4 ∷ 5 ∷ []) ∷ arrive 101 (1 ∷ 2 ∷ []) ∷ arrive 101 (1 ∷ 2 ∷ []) ∷ []

abbrev pieces : List Bytes
pieces = (1 ∷ 2 ∷ []) ∷ (4 ∷ 5 ∷ []) ∷ []

flush_done_example :
    next_segment
      (flush (record (opened 100 7) { frontier = some 101; pending = (101, 1 ∷ []) ∷ [] })).frontier
      (flush (record (opened 100 7) { frontier = some 101; pending = (101, 1 ∷ []) ∷ [] })).pending
    ≡ none
flush_done_example =
    flush_done (record (opened 100 7) { frontier = some 101; pending = (101, 1 ∷ []) ∷ [] })

all-Arrived : (s : ℕ) (d : Bytes) → piece_at 101 pieces s ≡ some d → Arrived s d shuffled
all-Arrived s d h = elim (Bool-cases (s == 101)) [
  | inl e ↦ later (here (sym ((==_iff s 101).0 e)) (ground arith))
  | inr e ↦ elim (Bool-cases (s == 103)) [
    | inl k ↦ here (sym ((==_iff s 103).0 k)) (ground arith)
    | inr k ↦ ground arith
  ]
]

store_all_complete_example :
    ((store_all (opened 100 7) shuffled).buf ≡ concat pieces)
    × ((s : ℕ) → get s (store_all (opened 100 7) shuffled).pending ≡ none)
store_all_complete_example =
    store_all_complete 100 7 pieces shuffled (omega arith) (refl, (refl, (refl, tt))) all-Arrived

store_all-IsGenuine_example :
    IsGenuine
      (λ n. n % 256)
      (store_all (opened 100 7) (arrive 102 (102 ∷ 103 ∷ []) ∷ arrive 101 (101 ∷ 102 ∷ []) ∷ []))
store_all-IsGenuine_example =
    store_all-IsGenuine (λ n. n % 256) (opened 100 7)
      (arrive 102 (102 ∷ 103 ∷ []) ∷ arrive 101 (101 ∷ 102 ∷ []) ∷ [])
      (opened-IsGenuine (λ n. n % 256) 100 7) (omega arith)

overlap_stalls_example :
    (store_all (opened 100 7) (
      record { seq = 102; payload = 2 ∷ 3 ∷ []; ts = 8 }
      ∷ record { seq = 101; payload = 1 ∷ 2 ∷ []; ts = 9 }
      ∷ [])).buf
    ≡ 1 ∷ 2 ∷ []
overlap_stalls_example =
    overlap_stalls 100 7 8 9 (1 ∷ []) (2 ∷ []) (3 ∷ []) (omega arith) (omega arith) (omega arith)

abbrev hello_bytes : Bytes
hello_bytes = 22 ∷ 3 ∷ 3 ∷ 0 ∷ 2 ∷ 1 ∷ 2 ∷ []

abbrev client_says : Bytes
client_says = codes "STLS" ++ crlf ++ hello_bytes

abbrev pop3_session : Session
pop3_session = record (new_session (codes "a") 50000 (codes "b") 110 7 0) { protocol = pop3 }

assign_tls_segments-client_example :
    (assign_tls_segments pop3_session client_says hello_bytes).plaintext_segment
      ++ (assign_tls_segments pop3_session client_says hello_bytes).tls_segment
    ≡ client_says
assign_tls_segments-client_example = assign_tls_segments-client pop3_session client_says hello_bytes

upgraded : (assign_tls_segments pop3_session client_says hello_bytes).is_starttls ≡ true
unfolding assign_tls_segments new_session is_implicit_tls_port starttls_transition value
    find_starttls_offset starttls_command end_of_command find find_from find_at starts_with
    find_tls_offset scan valid_record_at split_at
upgraded = refl

abbrev packet : Bytes → ℕ → Bytes → ℕ → ℕ → Bytes → Packet
packet src sport dst dport flags payload = record {
  src = src;
  dst = dst;
  sport = sport;
  dport = dport;
  seq = 100;
  ack = 0;
  payload = payload;
  flags = flags;
  ts = 7;
}

abbrev run : List (Bool × Packet)
run =
    (true, packet (codes "a") 50000 (codes "b") 110 2 [])
    ∷ (true, packet (codes "a") 50000 (codes "b") 110 1 [])
    ∷ (false, packet (codes "b") 110 (codes "a") 50000 17 [])
    ∷ []

abbrev key : Key
key = record { ip_a = codes "a"; port_a = 50000; ip_b = codes "b"; port_b = 110 }

feed_all-complete_example :
    (feed_all (new_stream key 7) run).complete
    ≡ (any_rst run || (any_fin true run && any_fin false run))
feed_all-complete_example = feed_all-complete key 7 run

abbrev seen : Stream
seen = record {
  ip_a = codes "a";
  port_a = 50000;
  ip_b = codes "b";
  port_b = 110;
  ha = record new_half { buf = client_says };
  hb = record new_half { buf = hello_bytes };
  a_is_client = none;
  syn_by_a = true;
  syn_by_b = false;
  complete = true;
  first_ts = 7;
}

seen_session :
    session_of seen
    ≡ some (
        assign_tls_segments
          (record (new_session (codes "a") 50000 (codes "b") 110 7 0) {
            protocol = pop3;
            port_based = true;
          })
          client_says
          hello_bytes)
unfolding session_of detect_protocol port_to_proto new_session
seen_session = refl

emit-FromComplete_example :
    All (λ sess. FromComplete sess ((key, seen) ∷ [])) (emit ((key, seen) ∷ []))
emit-FromComplete_example = emit-FromComplete ((key, seen) ∷ [])

abbrev at_wrap : HalfStream
at_wrap = record (opened 100 7) { base_seq = some 101; frontier = some (2 ^ 32) }

split-five_tuple_full_example :
    split_five_tuple (five_tuple_full (codes "a") 50000 (codes "b:c") 110)
    ≡ (codes "a", pos 50000, codes "b:c", pos 110)
split-five_tuple_full_example =
    split-five_tuple_full (codes "a") 50000 (codes "b:c") 110 ((λ e. omega (arith, e)), tt)
      ((λ e. omega (arith, e)), ((λ e. omega (arith, e)), ((λ e. omega (arith, e)), tt)))
