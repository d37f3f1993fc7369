-- ===== src/Analysis.antt =====
-- From a session to its findings (backend/app/parsing/analysis.py). What comes from libraries is a
-- parameter: `decode` is bytes.decode, `load` is load_der_x509_certificate, and `openssl` is what the
-- verification of chains asks the libraries. Fingerprints are not modelled.
pub mod Errors
pub mod Messages
pub mod Stripped
pub mod Tls13
pub mod Unread
mod Tests
use Prim.Native.String.{String}
use cipher_post.Prelude.{
  ℕ, Bool, ◌||◌, Option, none, some, List, [], ◌++◌, ltb, ◌==◌, if◌then◌else◌, length,
}
use cipher_post.Prelude.Bytes.{Bytes, codes}
use cipher_post.Prelude.Bytes.{contains}
use cipher_post.Prelude.Classes.{nat_eq, string_eq}
use cipher_post.Prelude.Dict.{get}
use cipher_post.Records.{TlsRecord, ok, err, parse_tls_records, default_max_records}
use cipher_post.Reassembly.Session.{Session, value, is_implicit_tls_port, five_tuple_full}
use cipher_post.Handshake.Parsed.{Parsed, parsed, raised, index_error, ◌>>=◌}
use cipher_post.Handshake.Ciphers.{lookup_cipher, version_name}
use cipher_post.Handshake.Groups.{pq_status}
use cipher_post.Handshake.Messages.{handshake_body}
use cipher_post.Handshake.ClientHello.{ClientHelloInfo, parse_client_hello}
use cipher_post.Handshake.ServerHello.{ServerHelloInfo, parse_server_hello}
use cipher_post.Handshake.Certificate.{parse_certificate_message}
use cipher_post.Certificates.Chain.{OpenSsl, validate_chain}
use cipher_post.Certificates.Reading.{X509, analyze_certificates}
use cipher_post.Rules.{SessionAnalysis, Visibility, on_some}
use cipher_post.Rules.Certs.{certs_usable}
use cipher_post.Rules.Hellos.{maximum, non_empty}
use cipher_post.Rules.Run.{run_rules}
use cipher_post.Prelude.Text.{hex4}

-- b"STARTTLS" in ... or b"STLS" in ...
unfoldable pub offers_starttls : Session → Bool
offers_starttls sess =
    contains (codes "STARTTLS") sess.plaintext_segment
    || contains (codes "STARTTLS") sess.plaintext_server_segment
    || contains (codes "STLS") sess.plaintext_segment

-- The analysis before anything is parsed.
unfoldable pub start : Session → SessionAnalysis
unfolding offers_starttls
start sess = record {
  protocol = value sess.protocol;
  five_tuple = five_tuple_full sess.client_ip sess.client_port sess.server_ip sess.server_port;
  is_starttls = sess.is_starttls;
  tls_version = none;
  negotiated_version_name = none;
  cipher = none;
  cipher_meta = none;
  cipher_iana = none;
  cipher_strength = none;
  client_hello = none;
  server_hello = none;
  certificate = none;
  certs = [];
  chain_result = "no-cert";
  chain_error = [];
  started_tls = ltb 0 (length sess.tls_segment);
  tls_bytes = length sess.tls_segment;
  is_implicit_tls_port = is_implicit_tls_port sess.server_port;
  port = sess.server_port;
  saw_starttls_offer = offers_starttls sess;
  plaintext_bytes = length sess.plaintext_segment;
  visibility = none;
  pq = none;
  not_observable = [];
  findings = [];
}

-- The records of a stream; an error counts as none.
unfoldable pub records_of : Bytes → List TlsRecord
records_of bs = elim (parse_tls_records bs default_max_records) [ ok rs ↦ rs | err e ↦ [] ]

-- try: ... except TlsParseError: None
unfoldable pub caught {ℓ} : {A : Type ℓ} → Parsed A → Parsed (Option A)
caught (parsed a) = parsed (some a)
caught (raised e) = parsed none
caught index_error = index_error

-- The message of a type, parsed if it is there.
unfoldable pub message {ℓ} :
    {A : Type ℓ} → ℕ → (Bytes → Parsed A) → List TlsRecord → Parsed (Option A)
unfolding caught
message mtype parse records = elim (get mtype (handshake_body records)) [
  | none ↦ parsed none
  | some body ↦ caught (parse body)
]

-- sa.server_hello.negotiated_version == 0x0304 if sa.server_hello else False
abbrev pub hello_tls13 : Option ServerHelloInfo → Bool
hello_tls13 sh = on_some (λ s. on_some (λ v. v == 0x0304) s.negotiated_version) sh

-- The cipher fields; a suite with the number 0 is passed over.
unfoldable pub with_cipher : Option ℕ → SessionAnalysis → SessionAnalysis
with_cipher none sa = record sa { cipher_iana = none }
with_cipher (some n) sa =
    if n == 0 then record sa { cipher_iana = some n } else elim (lookup_cipher n) [
      | none ↦ record sa { cipher_iana = some n; cipher = some (codes "0x" ++ hex4 n) }
      | some m ↦ record sa {
        cipher_iana = some n;
        cipher_meta = some m;
        cipher = some (codes m.name);
        cipher_strength = some m.strength;
      }
    ]

-- The version and the suite that were negotiated, or the best version offered where no server
-- answered.
unfoldable pub with_negotiated : SessionAnalysis → SessionAnalysis
unfolding with_cipher
with_negotiated sa = elim sa.server_hello [
  | some sh ↦ with_cipher sh.cipher_suite (record sa {
    tls_version = sh.negotiated_version;
    negotiated_version_name = version_name sh.negotiated_version;
  })
  | none ↦ elim sa.client_hello [
    | none ↦ sa
    | some ch ↦
        let version =
          if non_empty ch.offered_versions
          then maximum ch.offered_versions
          else ch.legacy_version in
        record sa { tls_version = version; negotiated_version_name = version_name version }
  ]
]

abbrev pub sni_of : SessionAnalysis → Option Bytes
sni_of sa = elim sa.client_hello [ none ↦ none | some ch ↦ ch.sni ]

-- The certificates, if there are any, and the verdict on their chain. An exception from one of the
-- certificates is not caught.
unfoldable pub with_certs :
    (Bytes → Option X509) → OpenSsl → SessionAnalysis → Option SessionAnalysis
with_certs load openssl sa = elim sa.certificate [
  | none ↦ some (record sa { chain_result = "no-cert" })
  | some c ↦
      let verdict = validate_chain openssl c.raw_certs (sni_of sa) in
      if non_empty c.raw_certs
      then elim (analyze_certificates load c.raw_certs) [
        | none ↦ none
        | some certs ↦
            some (record sa { certs = certs; chain_result = verdict.0; chain_error = verdict.1 })
      ]
      else some (record sa { chain_result = "no-cert" })
]

-- An encrypted hello hides the name; a name that is empty counts as absent.
unfoldable pub sni_state : Option ClientHelloInfo → String
sni_state none = "absent"
sni_state (some ch) =
    if ch.ech_outer
    then "ech_outer"
    else if on_some (λ name. non_empty name) ch.sni
    then "observed"
    else "absent"

abbrev pub groups_of : Option ClientHelloInfo → List ℕ
groups_of none = []
groups_of (some ch) = ch.supported_groups

abbrev pub selected_of : Option ServerHelloInfo → Option ℕ
selected_of none = none
selected_of (some sh) = sh.selected_group

unfoldable pub visibility_of : SessionAnalysis → Visibility
unfolding sni_state
visibility_of sa =
    let is_tls13 = on_some (λ v. v == 0x0304) sa.tls_version in
    record {
      tls13 = is_tls13;
      cert_chain =
          if certs_usable sa.certs
          then "observed"
          else if is_tls13
          then "not_observable_tls13"
          else "absent";
      sni = sni_state sa.client_hello;
      hrr = on_some (λ sh. sh.is_hrr) sa.server_hello;
      offered_groups = groups_of sa.client_hello;
      selected_group = selected_of sa.server_hello;
    }

-- What can be observed, and the post-quantum status.
unfoldable pub with_visibility : SessionAnalysis → SessionAnalysis
unfolding visibility_of
with_visibility sa = record sa {
  visibility = some (visibility_of sa);
  pq = some (pq_status (groups_of sa.client_hello) (selected_of sa.server_hello));
}

-- How an analysis ends: it returns, or an exception comes out of it, which is a `TlsParseError`, an
-- `IndexError`, or one of the library that reads certificates.
pub data Ending : Type 0 where
  returns : SessionAnalysis → Ending
  tls_parse_error : String → Ending
  out_of_range unread_certificate : Ending

-- run_rules(sa), if there is anything to run them on
unfoldable pub finish : ℕ → Parsed (Option SessionAnalysis) → Ending
finish now (parsed none) = unread_certificate
finish now (parsed (some sa)) = returns (run_rules now sa)
finish now (raised e) = tls_parse_error e
finish now index_error = out_of_range

module _ (decode : Bytes → Bytes) (load : Bytes → Option X509) (openssl : OpenSsl) where
  -- The three messages, from the records of both directions. An IndexError is not caught.
  unfoldable pub with_messages :
      List TlsRecord → List TlsRecord → SessionAnalysis → Parsed SessionAnalysis
  with_messages records server_records sa = message 1 (parse_client_hello decode) records >>= λ ch.
      message 2 (parse_server_hello decode) server_records >>= λ sh.
      message 11 (λ body. parse_certificate_message body (hello_tls13 sh)) server_records
      >>= λ cert. parsed (record sa { client_hello = ch; server_hello = sh; certificate = cert })

  -- What follows the messages.
  unfoldable pub with_verdicts : SessionAnalysis → Option SessionAnalysis
  unfolding with_certs with_negotiated with_visibility
  with_verdicts sa = elim (with_certs load openssl (with_negotiated sa)) [
    | none ↦ none
    | some judged ↦ some (with_visibility judged)
  ]

  -- The facts of a session with TLS, before the rules run.
  unfoldable pub observe : Session → Parsed (Option SessionAnalysis)
  unfolding with_verdicts
  observe sess =
      with_messages (records_of sess.tls_segment) (records_of sess.tls_server_segment) (start sess)
      >>= λ sa. parsed (with_verdicts sa)

  unfoldable pub analyze_session : ℕ → Session → Ending
  unfolding observe finish
  analyze_session now sess =
      if ltb 0 (length sess.tls_segment)
      then finish now (observe sess)
      else returns (run_rules now (start sess))
