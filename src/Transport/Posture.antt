-- ===== src/Transport/Posture.antt =====
-- The status of a domain and the judgement on a session: check_domain, without its refresh, and
-- evaluate_session of backend/app/proactive/mta_sts.py.
use cipher_post.Prelude.{
  Bool, true, false, not, ◌&&◌, ◌||◌, Option, none, some, List, [], ◌∷◌, ◌++◌, ltb, leb, ◌==◌,
  if◌then◌else◌, length, take,
}
use cipher_post.Prelude.Bytes.{Bytes, codes, bytes_eq}
use cipher_post.Prelude.Bytes.{starts_with, contains}
use cipher_post.Prelude.Classes.{nat_eq, string_eq}
use cipher_post.Prelude.Dict.{Dict, put}
use cipher_post.Flows.{bytes_key, lstrip, rstrip, is_empty}
use cipher_post.Certificates.{lower}
use cipher_post.Alerts.{or_else, or_text}
use cipher_post.Transport.Policy.{Sts, strip, is_mode}
use cipher_post.Transport.TlsaRecords.{
  Tlsa, Dnssec, unknown, not_published, insecure, dnssec_failed, bogus, secure, any_matches,
}

abbrev pub is_none : Option Bytes → Bool
is_none none = true
is_none (some v) = false

-- The rules of the findings, with the host of a mismatch.
pub data Mismatch : Type 0 where
  mta_sts_enforce_plaintext mta_sts_enforce_bad_cert : Mismatch
  dane_tlsa_mismatch : Bytes → Mismatch

pub record SessionInfo : Type 0 where
  pub used_tls : Bool
  pub mx_host : Option Bytes
  pub cert_der : Option Bytes
  pub cert_ok : Option Bool

pub data Status : Type 0 where
  invalid_domain dns_error misconfigured unpublished validation_failed published : Status

pub record Posture : Type 0 where
  pub status : Status
  pub mode : Option Bytes
  pub dane : Dict Bytes Tlsa

-- The status by the error, the mode and what was found at all.
unfoldable pub policy_status : Sts → Status
policy_status sts = elim (or_else sts.error none) [
  | some err ↦
      if starts_with (codes "dns-error") err
      then dns_error
      else if contains (codes "malformed") err || contains (codes "policy") err
      then misconfigured
      else dns_error
  | none ↦
      if is_mode sts.mode
      then if bytes_eq (or_text sts.mode []) (codes "none") then unpublished else published
      else if is_none sts.txt && leb (length sts.mx_hosts) 0
      then dns_error
      else unpublished
]

abbrev pub is_error : Option Bytes → Bool
is_error e = not (is_none (or_else e none))

-- Has DNSSEC rejected the answer of some host?
unfoldable pub any_rejected : Dict Bytes Tlsa → Bool
any_rejected [] = false
any_rejected ((mx, res) ∷ rest) = elim res.dnssec [
  | unknown ↦ any_rejected rest
  | not_published ↦ any_rejected rest
  | insecure ↦ any_rejected rest
  | dnssec_failed ↦ is_error res.error || any_rejected rest
  | bogus ↦ true
  | secure ↦ any_rejected rest
]

-- A rejected answer hides the two better ones.
abbrev pub worsen : Bool → Status → Status
worsen true unpublished = validation_failed
worsen true published = validation_failed
worsen true invalid_domain = invalid_domain
worsen true dns_error = dns_error
worsen true misconfigured = misconfigured
worsen true validation_failed = validation_failed
worsen false status = status

-- domain.strip().lower().rstrip(".")
unfoldable pub strip_dots : Bytes → Bytes
strip_dots [] = []
strip_dots (b ∷ bs) = let rest = strip_dots bs in if b == 46 && is_empty rest then [] else b ∷ rest

abbrev pub is_invalid : Bytes → Bool
is_invalid domain = is_empty domain || not (contains (codes ".") domain) || ltb 253 (length domain)

-- The two fetches: the first raises for `none`; the second comes with what an exception gives.
module _ (fetch_mta_sts : Bytes → Option Sts) (fetch_tlsa : Bytes → Tlsa) where
  unfoldable pub fetch_all : List Bytes → Dict Bytes Tlsa → Dict Bytes Tlsa
  fetch_all [] dane = dane
  fetch_all (mx ∷ mxs) dane = fetch_all mxs (put mx (fetch_tlsa mx) dane)

  abbrev pub posture_of : Sts → Posture
  posture_of sts =
      let dane : Dict Bytes Tlsa = fetch_all (take 8 sts.mx_hosts) [] in
      record {
        status = worsen (any_rejected dane) (policy_status sts);
        mode = sts.mode;
        dane = dane;
      }

  unfoldable pub check_domain : Bytes → Posture
  unfolding fetch_all any_rejected policy_status strip_dots lower lstrip rstrip
  check_domain text =
      let domain = strip_dots (lower (strip text)) in
      if is_invalid domain
      then record { status = invalid_domain; mode = none; dane = [] }
      else elim (fetch_mta_sts domain) [
        | none ↦ record { status = dns_error; mode = none; dane = [] }
        | some sts ↦ posture_of sts
      ]

-- What an enforced policy says of the use of TLS and of the validation of the certificate.
abbrev pub judge_enforced : Bool → Option Bool → List Mismatch
judge_enforced false cert_ok = mta_sts_enforce_plaintext ∷ []
judge_enforced true none = []
judge_enforced true (some true) = []
judge_enforced true (some false) = mta_sts_enforce_bad_cert ∷ []

-- The findings by the policy.
unfoldable pub judge_policy : Posture → SessionInfo → List Mismatch
judge_policy posture session =
    if bytes_eq (or_text posture.mode []) (codes "enforce")
    then judge_enforced session.used_tls session.cert_ok
    else []

abbrev pub is_secure : Dnssec → Bool
is_secure unknown = false
is_secure not_published = false
is_secure insecure = false
is_secure dnssec_failed = false
is_secure bogus = false
is_secure secure = true

-- Is the session about another host?
abbrev pub is_elsewhere : Option Bytes → Bytes → Bool
is_elsewhere none mx = false
is_elsewhere (some []) mx = false
is_elsewhere (some (c ∷ cs)) mx = not (bytes_eq (c ∷ cs) mx)

module _ (public_key : Bytes → Option Bytes) (sha256 sha512 : Bytes → Bytes) where
  -- Is the finding made for this host? The early ends of the loop's body.
  unfoldable pub mismatches : Bytes → Tlsa → SessionInfo → Bool
  mismatches mx res session =
      if not (is_secure res.dnssec) || leb (length res.records) 0
      then false
      else if is_elsewhere session.mx_host mx
      then false
      else elim (or_else session.cert_der none) [
        | none ↦ false
        | some cert_der ↦ not (any_matches public_key sha256 sha512 res.records cert_der)
      ]

  unfoldable pub judge_hosts : Dict Bytes Tlsa → SessionInfo → List Mismatch
  unfolding mismatches
  judge_hosts [] session = []
  judge_hosts ((mx, res) ∷ rest) session =
      let more = judge_hosts rest session in
      if mismatches mx res session then dane_tlsa_mismatch mx ∷ more else more

  unfoldable pub evaluate_session :
      (Bytes → Option Sts) → (Bytes → Tlsa) → Bytes → SessionInfo → List Mismatch
  unfolding judge_policy judge_hosts check_domain
  evaluate_session fetch_mta_sts fetch_tlsa domain session =
      let posture : Posture = check_domain fetch_mta_sts fetch_tlsa domain in
      judge_policy posture session ++ judge_hosts posture.dane session
