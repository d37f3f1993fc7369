-- ===== src/Analysis/Errors.antt =====
-- How `analyze_session` can fail.
use Prim.Native.String.{String}
use cipher_post.Prelude.{◌≡◌, ◌≢◌, ◌↔◌, Option, some, length}
use cipher_post.Prelude.Bytes.{Bytes}
use cipher_post.Prelude.Classes.{nat_eq, string_eq}
use cipher_post.Prelude.Dict.{get}
use cipher_post.Reassembly.Session.{Session}
use cipher_post.Handshake.Parsed.{parsed}
use cipher_post.Handshake.Messages.{handshake_body}
use cipher_post.Handshake.ClientHello.{ClientHelloInfo}
use cipher_post.Handshake.ServerHello.{ServerHelloInfo, parse_server_hello}
use cipher_post.Handshake.Certificate.{CertificateInfo, parse_certificate_message}
use cipher_post.Certificates.Chain.{OpenSsl}
use cipher_post.Certificates.Reading.{X509}
use cipher_post.Rules.{SessionAnalysis}
use cipher_post.Analysis.{
  tls_parse_error, out_of_range, unread_certificate, Ending, records_of, message, hello_tls13,
}
use cipher_post.Analysis.Unread.{IsUnreadable}

module _ (decode : Bytes → Bytes) (load : Bytes → Option X509) (openssl : OpenSsl) where
  -- The server's Certificate message holds a certificate on which analyze_certificate raises.
  abbrev pub SendsUnreadable : Session → Type 0
  SendsUnreadable sess =
      (sh : Option ServerHelloInfo) × (c : CertificateInfo) × (message 2 (parse_server_hello decode)
          (records_of sess.tls_server_segment)
        ≡ parsed sh)
      × (message 11 (λ body. parse_certificate_message body (hello_tls13 sh))
            (records_of sess.tls_server_segment)
          ≡ parsed (some c))
      × IsUnreadable load c.raw_certs

  -- The body of the ClientHello has 34 bytes.
  abbrev pub EndsAfterRandom : Session → Type 0
  EndsAfterRandom sess =
      (body : Bytes) × (get 1 (handshake_body (records_of sess.tls_segment)) ≡ some body)
      × (length body ≡ 34)

  abbrev parts :
      Option ClientHelloInfo
      → Option ServerHelloInfo
      → Option CertificateInfo
      → SessionAnalysis
      → SessionAnalysis
  parts ch sh cert sa = record sa { client_hello = ch; server_hello = sh; certificate = cert }

  -- The outcome is no TlsParseError, and the two others that are errors come from these causes.
  abbrev Causes : Ending → Type 0 → Type 0 → Type 0
  Causes out short unread =
      ((e : String) → out ≢ tls_parse_error e)
      × ((out ≡ out_of_range) ↔ short)
      × ((out ≡ unread_certificate) ↔ unread)
