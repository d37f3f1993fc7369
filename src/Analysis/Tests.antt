-- ===== src/Analysis/Tests.antt =====
-- Analyses of whole sessions.
use Prim.Native.String.{String}
use cipher_post.Prelude.{
  ℕ, zero, suc, ◌+◌, ◌≡◌, refl, ap, ◌∙◌, true, false, Option, none, some, [], ◌∷◌, arith, length,
  All,
}
use cipher_post.Prelude.Bytes.{Bytes, codes, bytes_eq}
use cipher_post.Prelude.Bytes.{starts_with, find_at, find, contains}
use cipher_post.Prelude.Classes.{nat_eq, string_eq}
use cipher_post.Prelude.Dict.{get, put}
use cipher_post.Records.{parse_loop, parse_tls_records}
use cipher_post.Reassembly.Session.{Session}
use cipher_post.Handshake.Parsed.{Parsed, parsed}
use cipher_post.Handshake.Messages.{
  handshake_body, handshake_body_from, record_messages, messages_loop, keep_first,
}
use cipher_post.Handshake.ClientHello.{parse_client_hello}
use cipher_post.Handshake.Certificate.{parse_certificate_message}
use cipher_post.Certificates.Chain.{OpenSsl, verified, validate_chain, verdict_of, check_hostname}
use cipher_post.Prelude.Removal.{member}
use cipher_post.Certificates.Reading.{X509, describe, analyze_certificate, analyze_certificates}
use cipher_post.Rules.{SessionAnalysis, critical}
use cipher_post.Rules.Certs.{certs_usable, listed, cert_rule_ids}
use cipher_post.Rules.Run.{run_rules, max_severity}
use cipher_post.Analysis.{
  with_verdicts, finish, returns, unread_certificate, start, offers_starttls, records_of, caught,
  message, with_negotiated, with_certs, with_visibility, with_messages, observe, analyze_session,
}
use cipher_post.Reassembly.Session.{new_session}
use cipher_post.Rules.Hellos.{maximum}
use cipher_post.Rules.Frame.{run_rules-Effect}
use cipher_post.Analysis.Tls13.{analyze_session-tls13}
use cipher_post.Handshake.RoundTrip.{encode_hello}
use cipher_post.Prelude.Cursor.{big, u16s}
use cipher_post.Handshake.Messages.{extensions_loop, parse_extensions}
use cipher_post.Analysis.Stripped.{analyze_session-stripped}

abbrev as_it_is : Bytes → Bytes
as_it_is bs = bs

-- No certificate loads.
abbrev unloaded : Bytes → Option X509
unloaded der = none

-- pyOpenSSL is not installed.
abbrev no_openssl : OpenSsl
no_openssl = record {
  has_openssl = false;
  anchors = 0;
  verify = λ chain. verified;
  alt_names = λ der. none;
}

abbrev plain : Session
plain = record (new_session (codes "10.0.0.1") 40000 (codes "10.0.0.2") 25 1 9) {
  plaintext_segment = codes "EHLO a STARTTLS MAIL";
}

analyze_session-stripped_example :
    (out : SessionAnalysis) × (analyze_session as_it_is unloaded no_openssl 1700000000 plain
      ≡ returns out)
    × (max_severity out.findings ≡ some critical)
analyze_session-stripped_example =
    analyze_session-stripped as_it_is unloaded no_openssl 1700000000 plain
      (unfold new_session in refl)
      (unfold offers_starttls contains find find_at starts_with new_session in refl)

abbrev zeros : ℕ → Bytes
zeros zero = []
zeros (suc n) = 0 ∷ zeros n

-- A record with a ClientHello message whose body ends behind the random.
abbrev short : Session
short = record (new_session (codes "10.0.0.1") 40000 (codes "10.0.0.2") 465 1 9) {
  tls_segment = 22 ∷ 3 ∷ 1 ∷ 0 ∷ 38 ∷ 1 ∷ 0 ∷ 0 ∷ 34 ∷ 3 ∷ 3 ∷ zeros 32;
}

-- One certificate, whose key is of a kind that the library does not read.
abbrev odd_key : Bytes → Option X509
odd_key der = some (record {
  subject = some (record { attributes = []; common_name = none });
  issuer = some (record { attributes = []; common_name = none });
  not_before = some 1600000000;
  not_after = some 1800000000;
  signature_name = none;
  public_key = none;
  basic_constraints_ca = none;
})

-- A ClientHello that offers TLS 1.3, in one record; no server bytes were seen.
abbrev offer : Bytes
offer = encode_hello (record {
  version = 0x0303;
  random = zeros 32;
  session_id = [];
  ciphers = 0x1301 ∷ [];
  compression = 0 ∷ [];
  extensions = (43, 2 ∷ 3 ∷ 4 ∷ []) ∷ [];
})

abbrev half_open : Session
half_open = record (new_session (codes "10.0.0.1") 40000 (codes "10.0.0.2") 465 1 9) {
  tls_segment = 22 ∷ 3 ∷ 1 ∷ 0 ∷ (length offer + 4) ∷ 1 ∷ 0 ∷ 0 ∷ length offer ∷ offer;
}

abbrev observed_in : Parsed (Option SessionAnalysis) → SessionAnalysis
observed_in (parsed (some sa)) = sa
observed_in _ = start half_open

abbrev half_open_facts : SessionAnalysis
half_open_facts = observed_in (observe as_it_is unloaded no_openssl half_open)

half_open_returns :
    analyze_session as_it_is unloaded no_openssl 1700000000 half_open
    ≡ returns (run_rules 1700000000 half_open_facts)
unfolding new_session analyze_session finish with_verdicts observe with_messages message caught
    records_of parse_tls_records parse_loop handshake_body get put handshake_body_from
    record_messages messages_loop keep_first parse_client_hello big u16s parse_extensions
    extensions_loop start
half_open_returns = refl

half_open_version : half_open_facts.tls_version ≡ some 0x0304
unfolding new_session analyze_session finish with_verdicts observe with_messages message caught
    records_of parse_tls_records parse_loop handshake_body get put handshake_body_from
    record_messages messages_loop keep_first parse_client_hello big u16s parse_extensions
    extensions_loop start with_visibility with_certs with_negotiated maximum
half_open_version = refl

half_open_certs : certs_usable half_open_facts.certs ≡ false
unfolding new_session analyze_session finish with_verdicts observe with_messages message caught
    records_of parse_tls_records parse_loop handshake_body get put handshake_body_from
    record_messages messages_loop keep_first parse_client_hello big u16s parse_extensions
    extensions_loop start with_visibility with_certs with_negotiated maximum certs_usable
half_open_certs = refl

analyze_session-tls13_example :
    All
      (λ f. listed f.rule_id cert_rule_ids ≡ false)
      (run_rules 1700000000 half_open_facts).findings
    × All
        (λ rule_id. listed rule_id (run_rules 1700000000 half_open_facts).not_observable ≡ true)
        cert_rule_ids
analyze_session-tls13_example =
    analyze_session-tls13 as_it_is unloaded no_openssl 1700000000 half_open
      (run_rules 1700000000 half_open_facts) (omega arith) half_open_returns
      (ap (λ s. s.tls_version) (run_rules-Effect 1700000000 half_open_facts).same
        ∙ half_open_version)
      (ap (λ s. certs_usable s.certs) (run_rules-Effect 1700000000 half_open_facts).same
        ∙ half_open_certs)

-- A Certificate message with one certificate of one byte.
abbrev odd_server : Session
odd_server = record (new_session (codes "10.0.0.1") 40000 (codes "10.0.0.2") 465 1 9) {
  tls_segment = 0 ∷ [];
  tls_server_segment = 22 ∷ 3 ∷ 3 ∷ 0 ∷ 11 ∷ 11 ∷ 0 ∷ 0 ∷ 7 ∷ 0 ∷ 0 ∷ 4 ∷ 0 ∷ 0 ∷ 1 ∷ 48 ∷ [];
}

odd_server_unread :
    analyze_session as_it_is odd_key no_openssl 1700000000 odd_server ≡ unread_certificate
unfolding new_session analyze_session finish with_verdicts observe with_messages message caught
    records_of parse_tls_records parse_loop handshake_body get put handshake_body_from
    record_messages messages_loop keep_first start with_visibility with_certs with_negotiated
    analyze_certificates analyze_certificate describe parse_certificate_message big
odd_server_unread = refl

-- Every chain is trusted; the certificate is for all hosts of a domain.
abbrev wildcard : OpenSsl
wildcard = record {
  has_openssl = true;
  anchors = 1;
  verify = λ chain. verified;
  alt_names = λ der. some (codes "*.example.com" ∷ []);
}

wildcard_mismatch :
    validate_chain wildcard ((48 ∷ []) ∷ []) (some (codes "a.example.com"))
    ≡ ("hostname-mismatch", codes "a.example.com not in SANs")
unfolding validate_chain verdict_of check_hostname member bytes_eq
wildcard_mismatch = refl
