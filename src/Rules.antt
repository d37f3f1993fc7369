-- ===== src/Rules.antt =====
-- The rules engine: findings, the session under analysis, and how a rule adds a finding
-- (backend/app/parsing/rules.py). Of a finding the rule and the severity are kept; its titles,
-- prose and evidence are fixed texts around the facts of the session.
pub mod Ciphers
pub mod Certs
pub mod Plaintext
pub mod Hellos
pub mod Run
pub mod Effect
pub mod Adds
pub mod CertEffects
pub mod Frame
pub mod Observable
pub mod Downgrade
pub mod Worst
pub mod NullSuite
mod Tests
use Prim.Native.String.{String}
use cipher_post.Prelude.{
  ℕ, zero, suc, ◌+◌, ◌-◌, ◌*◌, ◌/◌, ◌%◌, ◌^◌, ◌≤◌, ◌<◌, min, max, ◌≡◌, refl, sym, ap, ◌∙◌, ◌≢◌, ◌↔◌,
  ◌⊎◌, inl, inr, Bool, true, false, not, ◌&&◌, ◌||◌, Option, none, some, List, [], ◌∷◌, ◌++◌, map,
  append-nil, append_assoc, arith, ltb, leb, ◌==◌, if◌then◌else◌, ltb→lt, lt→ltb, ge→ltb, leb→le,
  ==_iff, ==_refl, Bool-cases, Option-cases, length, get_elem?, take, drop, All, length-append,
  take-append-drop, length-take, length-drop, take-append, drop-append, drop_all, All-append,
  All-drop, All-take, All-imp,
}
use cipher_post.Prelude.Bytes.{Bytes, IsBytes, codes, bytes_eq, bytes_eq_refl, bytes_eq→eq}
use cipher_post.Prelude.Bytes.{
  starts_with, find_at, find, find_from, contains, upper_byte, Occurs, find_at-Occurs,
  starts_with-append,
}
use cipher_post.Prelude.Classes.{Eq, eqb, eqb_refl, nat_eq, string_eq}
use cipher_post.Prelude.Dict.{
  Dict, get, put, pop, get-put, get-pop, length-pop-le, length-pop-lt, get-put_self, get-pop_self,
}
use cipher_post.Handshake.Ciphers.{CipherMeta}
use cipher_post.Handshake.ClientHello.{ClientHelloInfo}
use cipher_post.Handshake.Groups.{PqStatus}
use cipher_post.Handshake.ServerHello.{ServerHelloInfo}
use cipher_post.Handshake.Certificate.{CertificateInfo}
use cipher_post.Certificates.{CertAnalysis}

pub data Severity : Type 0 where
  info low medium high critical : Severity

pub record Finding : Type 0 where
  pub rule_id : String
  pub severity : Severity

-- What was observable, as the analysis records it.
pub record Visibility : Type 0 where
  pub tls13 : Bool
  pub cert_chain : String
  pub sni : String
  pub hrr : Bool
  pub offered_groups : List ℕ
  pub selected_group : Option ℕ

-- The fields of the class, and those that the analysis sets on it before the rules run.
pub record SessionAnalysis : Type 0 where
  pub protocol : String
  pub five_tuple : Bytes
  pub is_starttls : Bool
  pub tls_version : Option ℕ
  pub negotiated_version_name : Option Bytes
  pub cipher : Option Bytes
  pub cipher_meta : Option CipherMeta
  pub cipher_iana : Option ℕ
  pub cipher_strength : Option ℕ
  pub client_hello : Option ClientHelloInfo
  pub server_hello : Option ServerHelloInfo
  pub certificate : Option CertificateInfo
  pub certs : List CertAnalysis
  pub chain_result : String
  pub chain_error : Bytes
  pub started_tls : Bool
  pub tls_bytes : ℕ
  pub is_implicit_tls_port : Bool
  pub port : ℕ
  pub saw_starttls_offer : Bool
  pub plaintext_bytes : ℕ
  pub visibility : Option Visibility
  pub pq : Option PqStatus
  pub not_observable : List String
  pub findings : List Finding

-- sa.add(rule_id, ..., severity, ...)
unfoldable pub add : String → Severity → SessionAnalysis → SessionAnalysis
add rule_id severity sa = record sa {
  findings = sa.findings ++ record { rule_id = rule_id; severity = severity } ∷ [];
}

-- if test: sa.add(...)
unfoldable pub add_if : Bool → String → Severity → SessionAnalysis → SessionAnalysis
unfolding add
add_if test rule_id severity sa = if test then add rule_id severity sa else sa

abbrev pub on_some {ℓ} : {A : Type ℓ} → (A → Bool) → Option A → Bool
on_some test none = false
on_some test (some a) = test a

abbrev pub Rule : Type 0
Rule = SessionAnalysis → SessionAnalysis

-- if value is None: return; the rest computes the session from the value.
unfoldable pub given {ℓ} : {A : Type ℓ} → Option A → (A → SessionAnalysis) → Rule
given none rest sa = sa
given (some a) rest sa = rest a
