-- ===== src/Lib.antt =====
-- CipherPost: the analysis of captured mail traffic, from TCP segments to TLS handshakes.
--
-- A capture is read packet by packet. The assembler files each packet under the connection it
-- belongs to and puts the bytes of each direction in order. A connection that has been closed
-- becomes a session: its client is found, its mail protocol guessed, and both byte streams are split
-- into the plaintext and the TLS part. The TLS part is cut into records, the records into handshake
-- messages, and the messages are read into what the rules look at.
--
-- Parts, files and sources:
--   Prelude       shared names, lists by native numbers, bytes and their search, dictionaries with
--                 the order of insertion, numbers as text. `Dict` is Python's dict, `Bytes` are lists
--                 of numbers, `decode` in several types is bytes.decode with replacement, a
--                 parameter of which nothing is assumed.
--   Records       backend/app/parsing/tls_records.py: parse_tls_records, _valid_record_at
--                 (valid_record_at), find_tls_offset (scan), find_starttls_offset. Its children are
--                 the proofs: Serialize and Framing the wire form, Rounds and Sound the meaning of
--                 every outcome, Scan the search for the first record.
--   Reassembly    backend/app/parsing/reassembly.py. HalfStream is _HalfStream with _Stream._store
--                 (store, anchor, place) and _flush (flush, one round of which is advance); Session
--                 is Session with detect_protocol and _assign_tls_segments (assign_tls_segments,
--                 split_at); Assembler is _Stream and StreamAssembler (feed, _resolve_client as
--                 client_is_a, emit). Order, Arrivals, Complete, Genuine, Stall and Wrap are about
--                 half streams; Segments, Server and Markers about sessions; Endpoints, Closing and
--                 Emission about the assembler. FiveTuple is split_five_tuple and
--                 format_five_tuple, Directions its proof.
--   Handshake     backend/app/parsing/handshake.py. Messages is _handshake_body and
--                 _parse_extensions, ClientHello, ServerHello and Certificate the three bodies,
--                 Groups and Ciphers the tables. Extensions, RoundTrip, Bounds and Grease are
--                 proofs. `Parsed` tells a result from TlsParseError and from IndexError.
--   Certificates  backend/app/parsing/certificates.py: CertAnalysis with its properties expired,
--                 not_yet_valid, weak_signature and short_key. Reading is _cn, _pubkey_info and
--                 analyze_certificate, on the fields that the X.509 library gives, each of which may
--                 raise when it is read. Chain is validate_chain, on the answers of OpenSSL.
--   Rules         backend/app/parsing/rules.py: SessionAnalysis, and one function per rule, in
--                 Ciphers, Certs, Plaintext and Hellos; Run is ALL_RULES, run_rules and
--                 max_severity. A finding is its rule and its severity. Effect, Adds, CertEffects,
--                 Frame, Observable, Downgrade, Worst and NullSuite are proofs.
--   Analysis      backend/app/parsing/analysis.py: analyze_session, from a session to its findings,
--                 with bytes.decode, load_der_x509_certificate and the answers of OpenSSL
--                 as parameters. An exception that comes out of it is an Ending. Fingerprints are left
--                 out. Errors, Messages, Stripped, Tls13 and Unread are proofs of whole analyses.
--   Queue         backend/app/agent/queue.py: DiskQueue, with the JSON library as parameters, and the
--                 read and acknowledge of the shipping loop of backend/app/agent/agent.py. Delivery
--                 and Overflow are proofs.
--   Live          backend/app/live/reassembly.py: LiveReassembler with feed_packet, sweep (verdict,
--                 to_close, overflow, evict_all), drain and _emit_one (emit_one). EmitOne and Rule
--                 are rules for proofs, Counts, Table, Verdicts, Sessions and Silent are proofs.
--   Alerts        backend/app/live/alert_state.py: findings, group keys and GroupBuffer (add,
--                 flush_expired); Budget is RedisAlertState (check_and_set_dedup, check_rate).
--                 Groups, Deadlines, Worst, Rate and Dedup are proofs. Dispatch is _should_alert,
--                 _in_quiet, the guards and the grouping of _handle_entry, and _dispatch up to the
--                 channels, of backend/app/live/alerts.py; Handling is its proofs.
--   Transport     backend/app/proactive/mta_sts.py: TtlCache is TTLCache; Policy the reading of a policy
--                 (_fetch_mta_sts), TlsaRecords the matching of records (tlsa_matches), Posture the
--                 status of a domain (check_domain) and the judgement on a session
--                 (evaluate_session). Cache, Rejected and Proven are proofs.
--   Fingerprints  backend/app/parsing/ja4.py: ja3, ja3s, ja4 and ja4s, with the digests of hashlib
--                 as parameters. Order and Shape are proofs.
--   Retention     backend/app/live/retention.py: RollingRawStore (write, read_frames, purge, the disk
--                 guard as disk_guard). Holds and Replay are proofs.
--   Auth          backend/app/core/auth.py: record_login_failure, is_login_locked, the denylist of
--                 tokens and consume_mfa_ticket and consume_sse_ticket (consume_ticket, burn).
--                 Lockout and Tickets are proofs. Mfa is the codes of backend/app/core/mfa.py, MfaVerify
--                 its recovery codes and lock, with mfa_verify of backend/app/api/main.py; Codes,
--                 Steps, Guesses and Accepted are proofs.
--   Publisher     backend/app/live/streams.py: ResilientPublisher. Order is its proof.
--   Flows         backend/app/live/flows.py: the row of one mail flow with update_flow and
--                 detect_regression. Regression holds the proofs.
--
-- Bounds and fuel: numbers are unbounded, as in Python, and fields of the wire are read from their
-- bytes. A loop over bytes has one more round of fuel than there are bytes, and each of its rounds
-- consumes at least one; the loop of _flush has one more round than there are waiting segments, and
-- each takes one of them. Times are whole ticks, since the code only adds and compares them and tests them
-- for 0. Strings are lists of code points.
--
-- Not modelled: reading of capture files (dpkt), the HTTP interface, the database, the machine
-- learning, the channels of notification, and the command line; they are libraries or glue over libraries.
pub mod Prelude
pub mod Records
pub mod Reassembly
pub mod Handshake
pub mod Certificates
pub mod Rules
pub mod Analysis
pub mod Queue
pub mod Flows
pub mod Live
pub mod Publisher
pub mod Auth
pub mod Retention
pub mod Fingerprints
pub mod Alerts
pub mod Transport
