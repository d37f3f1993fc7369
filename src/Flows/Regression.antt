-- ===== src/Flows/Regression.antt =====
-- Which regressions of a flow are found.
use Prim.Native.String.{String}
use cipher_post.Prelude.Text.{hex4}
use cipher_post.Prelude.{
  ℕ, ◌+◌, ◌≤◌, ◌≡◌, refl, ap, ◌∙◌, ◌↔◌, inl, inr, true, false, Option, none, some, List, [], ◌∷◌,
  ◌++◌, arith, ◌==◌, if◌then◌else◌, Bool-cases, length, length-append,
}
use cipher_post.Prelude.Bytes.{Bytes, codes, bytes_eq}
use cipher_post.Prelude.Classes.{nat_eq, string_eq}
use cipher_post.Rules.{high}
use cipher_post.Handshake.Ciphers.{tls_version_name, version_name}
use cipher_post.Flows.{
  version_rank, MailFlow, Seen, detect_regression, record_session, update_flow, new_flow,
}

-- The name of a version whose entry in the table is `o`.
abbrev named : ℕ → Option String → Option Bytes
named v none = some (codes "0x" ++ hex4 v)
named v (some name) = some (codes name)

entry_unranked : (v w : ℕ) → version_rank (named w (tls_version_name v)) ≡ 0
unfolding tls_version_name version_rank bytes_eq
entry_unranked v w = elim (Bool-cases (v == 0x0300)) [
  | inl a ↦ rw (a, named)
  | inr a ↦ elim (Bool-cases (v == 0x0301)) [
    | inl b ↦ rw (a, b, named)
    | inr b ↦ elim (Bool-cases (v == 0x0302)) [
      | inl c ↦ rw (a, b, c, named)
      | inr c ↦ elim (Bool-cases (v == 0x0303)) [
        | inl d ↦ rw (a, b, c, d, named)
        | inr d ↦ elim (Bool-cases (v == 0x0304)) [
          | inl e ↦ rw (a, b, c, d, e, named)
          | inr e ↦ rw (a, b, c, d, e, named)
        ]
      ]
    ]
  ]
]

version_name-named : (v : ℕ) → version_name (some v) ≡ named v (tls_version_name v)
unfolding version_name
version_name-named v = same (tls_version_name v)
  where
    same :
        (o : Option String)
        → (elim o [ some name ↦ some (codes name) | none ↦ some (codes "0x" ++ hex4 v) ])
          ≡ named v o
    same none = refl
    same (some name) = refl

name_unranked : (v : ℕ) → version_rank (version_name (some v)) ≡ 0
name_unranked v = ap (λ o. version_rank o) (version_name-named v) ∙ entry_unranked v v

rank_none : version_rank none ≡ 0
unfolding version_rank
rank_none = refl

unranked : (v : Option ℕ) → version_rank (version_name v) ≡ 0
unranked none = unfold version_name version_rank in refl
unranked (some v) = name_unranked v

-- When versions are named as the analysis names them, no fall of the version is found in an
-- encrypted session, whatever the flow's best version and the new one are.
pub detect_regression-version_name :
    (flow : MailFlow) (best v : Option ℕ)
    → flow.best_version ≡ version_name best
    → detect_regression flow (version_name v) true ≡ none
unfolding detect_regression
detect_regression-version_name flow best v e =
    let low_best : version_rank flow.best_version ≡ 0 =
      ap (λ o. version_rank o) e ∙ unranked best in
    ground (arith, unranked v, low_best)

-- The row after a first session and later ones, the newest first.
abbrev pub flow_of : Seen → List Seen → MailFlow
flow_of first [] = (update_flow first none).0
flow_of first (s ∷ later) = (update_flow s (some (flow_of first later))).0

abbrev pub plaintext_in : List Seen → ℕ
plaintext_in [] = 0
plaintext_in (s ∷ ss) = if s.encrypted then plaintext_in ss else plaintext_in ss + 1

-- The counts of a row are those of its sessions.
pub record Tally (ss : List Seen) (flow : MailFlow) : Type 0 where
  pub total : flow.total_sessions ≡ length ss
  pub plaintext : flow.plaintext_sessions ≡ plaintext_in ss
  pub sum : flow.total_sessions ≡ flow.encrypted_sessions + flow.plaintext_sessions

record_session-Tally :
    (s : Seen) (ss : List Seen) (flow : MailFlow)
    → Tally ss flow
    → Tally (s ∷ ss) (record_session s flow)
unfolding record_session
record_session-Tally s ss flow t = elim (Bool-cases s.encrypted) [
  | inl e ↦ record {
    total = omega (arith, t.total);
    plaintext = ground (arith, e, t.plaintext);
    sum = ground (arith, e, t.sum);
  }
  | inr e ↦ record {
    total = omega (arith, t.total);
    plaintext = ground (arith, e, t.plaintext);
    sum = ground (arith, e, t.sum);
  }
]

tally : (first : Seen) (later : List Seen) → Tally (later ++ first ∷ []) (flow_of first later)
unfolding update_flow
tally first [] =
    record_session-Tally first [] (new_flow first.tls_version first.at)
      (record { total = refl; plaintext = refl; sum = refl })
tally first (s ∷ later) =
    record_session-Tally s (later ++ first ∷ []) (flow_of first later) (tally first later)

-- A session in plaintext is reported with high severity exactly if the flow has had three sessions
-- or more and none of them in plaintext.
pub detect_regression-plaintext :
    (first : Seen) (later : List Seen) (v : Option Bytes)
    → (detect_regression (flow_of first later) v false ≡ some high)
      ↔ ((2 ≤ length later) × (plaintext_in (later ++ first ∷ []) ≡ 0))
unfolding detect_regression
detect_regression-plaintext first later v = (
  λ h. judge (flow_of first later) (tally first later) h,
  λ p. judged (flow_of first later) (tally first later) p,
)
  where
    judge :
        (flow : MailFlow)
        → Tally (later ++ first ∷ []) flow
        → detect_regression flow v false ≡ some high
        → (2 ≤ length later) × (plaintext_in (later ++ first ∷ []) ≡ 0)
    judge flow t h =
        let n : length (later ++ first ∷ []) ≡ length later + 1 =
          omega (arith, length-append later (first ∷ [])) in
        (ground (arith, t.total, t.plaintext, n, h), ground (arith, t.total, t.plaintext, n, h))

    judged :
        (flow : MailFlow)
        → Tally (later ++ first ∷ []) flow
        → (2 ≤ length later) × (plaintext_in (later ++ first ∷ []) ≡ 0)
        → detect_regression flow v false ≡ some high
    judged flow t p =
        let n : length (later ++ first ∷ []) ≡ length later + 1 =
          omega (arith, length-append later (first ∷ [])) in
        ground (arith, t.total, t.plaintext, n, p.0, p.1)
