-- ===== src/Flows.antt =====
-- Statistics per mail flow, and regressions against them (backend/app/live/flows.py). Of a regression
-- the severity is kept; times are in seconds. The table of flows and its keys are a database, and one
-- flow is what is modelled here: `none` is a flow that has no row yet.
pub mod Regression
mod Tests
use cipher_post.Prelude.{
  ℕ, zero, suc, ◌+◌, ◌-◌, ◌*◌, ◌/◌, ◌%◌, ◌^◌, ◌≤◌, ◌<◌, min, max, ◌≡◌, refl, sym, ap, ◌∙◌, ◌≢◌, ◌↔◌,
  ◌⊎◌, inl, inr, Bool, true, false, not, ◌&&◌, ◌||◌, Option, none, some, List, [], ◌∷◌, ◌++◌, map,
  append-nil, append_assoc, arith, ltb, leb, ◌==◌, if◌then◌else◌, ltb→lt, lt→ltb, ge→ltb, leb→le,
  ==_iff, ==_refl, Bool-cases, Option-cases, length, get_elem?, take, drop, All, length-append,
  take-append-drop, length-take, length-drop, take-append, drop-append, drop_all, All-append,
  All-drop, All-take, All-imp,
}
use cipher_post.Prelude.Bytes.{Bytes, IsBytes, codes, bytes_eq, bytes_eq_refl, bytes_eq→eq}
use cipher_post.Prelude.Bytes.{
  starts_with, find_at, find, find_from, contains, upper_byte, Occurs, find_at-Occurs,
  starts_with-append,
}
use cipher_post.Prelude.Classes.{Eq, eqb, eqb_refl, nat_eq, string_eq}
use cipher_post.Prelude.Dict.{
  Dict, get, put, pop, get-put, get-pop, length-pop-le, length-pop-lt, get-put_self, get-pop_self,
}
use cipher_post.Rules.{Severity, medium, high}

instance abbrev pub bytes_key : Eq Bytes
bytes_key = record {
  beq = bytes_eq;
  beq_iff = λ a b. (λ h. bytes_eq→eq a b h, λ e. ap (λ c. bytes_eq a c) (sym e) ∙ bytes_eq_refl a);
}

-- str.isspace for ASCII
unfoldable pub is_space : ℕ → Bool
is_space b = b == 32 || (leb 9 b && leb b 13) || (leb 28 b && leb b 31)

abbrev pub is_empty : Bytes → Bool
is_empty [] = true
is_empty (b ∷ bs) = false

unfoldable pub lstrip : Bytes → Bytes
unfolding is_space
lstrip [] = []
lstrip (b ∷ bs) = let rest = lstrip bs in if is_space b then rest else b ∷ bs

unfoldable pub rstrip : Bytes → Bytes
unfolding is_space
rstrip [] = []
rstrip (b ∷ bs) = let rest = rstrip bs in if is_space b && is_empty rest then [] else b ∷ rest

-- _VERSION_RANK, one higher than there: 0 stands for the -1 of a name that is not in the table.
unfoldable pub rank_of : Bytes → ℕ
rank_of name =
    if bytes_eq name (codes "SSLv3")
    then 1
    else if bytes_eq name (codes "TLS 1.0")
    then 2
    else if bytes_eq name (codes "TLS 1.1")
    then 3
    else if bytes_eq name (codes "TLS 1.2")
    then 4
    else if bytes_eq name (codes "TLS 1.3")
    then 5
    else 0

unfoldable pub version_rank : Option Bytes → ℕ
unfolding rank_of lstrip rstrip
version_rank none = 0
version_rank (some v) = rank_of (rstrip (lstrip v))

pub record MailFlow : Type 0 where
  pub total_sessions : ℕ
  pub encrypted_sessions : ℕ
  pub plaintext_sessions : ℕ
  pub versions : Dict Bytes ℕ
  pub ciphers : Dict Bytes ℕ
  pub best_version : Option Bytes
  pub first_seen : ℕ
  pub last_seen : ℕ
  pub fingerprints : Dict Bytes ℕ
  pub new_fingerprints : List Bytes

-- What a session brings to its flow.
pub record Seen : Type 0 where
  pub tls_version : Option Bytes
  pub cipher : Option Bytes
  pub encrypted : Bool
  pub at : ℕ
  pub fingerprints : List Bytes

-- A text that is there and not empty.
abbrev pub given_text : Option Bytes → Option Bytes
given_text none = none
given_text (some []) = none
given_text (some (b ∷ bs)) = some (b ∷ bs)

abbrev pub both : Option Bytes → Option Bytes → Bool
both (some a) (some b) = true
both _ _ = false

unfoldable pub detect_regression : MailFlow → Option Bytes → Bool → Option Severity
unfolding version_rank
detect_regression flow tls_version encrypted =
    if ltb flow.total_sessions 3
    then none
    else if not encrypted && flow.plaintext_sessions == 0
    then some high
    else if both (given_text tls_version) (given_text flow.best_version)
        && ltb (version_rank tls_version) (version_rank flow.best_version)
    then some medium
    else none

-- d[k] = d.get(k, 0) + 1
unfoldable pub count_in : Bytes → Dict Bytes ℕ → Dict Bytes ℕ
count_in k d = elim (get k d) [ none ↦ put k 1 d | some n ↦ put k (n + 1) d ]

abbrev pub count_text : Option Bytes → Dict Bytes ℕ → Dict Bytes ℕ
count_text none d = d
count_text (some k) d = count_in k d

-- The loop over the fingerprints: the counts, and those that are new to a flow with a history.
unfoldable pub count_fingerprints :
    Bool → List Bytes → Dict Bytes ℕ × List Bytes → Dict Bytes ℕ × List Bytes
unfolding count_in
count_fingerprints history [] acc = acc
count_fingerprints history (fp ∷ fps) acc =
    if is_empty fp then count_fingerprints history fps acc else elim (get fp acc.0) [
      | some n ↦ count_fingerprints history fps (count_in fp acc.0, acc.1)
      | none ↦
          count_fingerprints history fps
            (count_in fp acc.0, if history then acc.1 ++ fp ∷ [] else acc.1)
    ]

abbrev pub new_flow : Option Bytes → ℕ → MailFlow
new_flow tls_version now = record {
  total_sessions = 0;
  encrypted_sessions = 0;
  plaintext_sessions = 0;
  versions = [];
  ciphers = [];
  best_version = tls_version;
  first_seen = now;
  last_seen = now;
  fingerprints = [];
  new_fingerprints = [];
}

-- The better of the version that is known and a new one that is not empty.
unfoldable pub better_version : Option Bytes → Option Bytes → Option Bytes
unfolding version_rank
better_version none best = best
better_version (some v) best =
    if ltb (version_rank best) (version_rank (some v)) then some v else best

unfoldable pub record_session : Seen → MailFlow → MailFlow
unfolding count_fingerprints better_version
record_session s flow =
    let counted =
      count_fingerprints (ltb 3 (flow.total_sessions + 1)) s.fingerprints (flow.fingerprints, []) in
    record {
      total_sessions = flow.total_sessions + 1;
      encrypted_sessions =
          if s.encrypted then flow.encrypted_sessions + 1 else flow.encrypted_sessions;
      plaintext_sessions =
          if s.encrypted then flow.plaintext_sessions else flow.plaintext_sessions + 1;
      versions = count_text (given_text s.tls_version) flow.versions;
      ciphers = count_text (given_text s.cipher) flow.ciphers;
      best_version = better_version (given_text s.tls_version) flow.best_version;
      first_seen = if ltb s.at flow.first_seen then s.at else flow.first_seen;
      last_seen = s.at;
      fingerprints = counted.0;
      new_fingerprints = counted.1;
    }

-- The flow's row afterwards, and the regression that was found.
unfoldable pub update_flow : Seen → Option MailFlow → MailFlow × Option Severity
unfolding record_session detect_regression
update_flow s none = (record_session s (new_flow s.tls_version s.at), none)
update_flow s (some flow) =
    (record_session s flow, detect_regression flow s.tls_version s.encrypted)
