-- ===== src/Alerts/Worst.antt =====
-- The severity of a group of findings.
use cipher_post.Prelude.{
  ℕ, ◌<◌, max, ◌≡◌, refl, sym, ap, ◌∙◌, inl, inr, Option, none, some, List, [], ◌∷◌, arith, ltb,
  if◌then◌else◌, ltb→lt, Bool-cases, Option-cases,
}
use cipher_post.Prelude.Bytes.{Bytes, codes, bytes_eq, bytes_eq→eq}
use cipher_post.Prelude.Classes.{eqb, nat_eq, string_eq}
use cipher_post.Prelude.Dict.{get, put, get-put}
use cipher_post.Flows.{bytes_key}
use cipher_post.Alerts.{
  Finding, or_text, get_or, group_key_of, Bucket, severity_of, order, order_of, new_bucket,
  update_bucket, Buckets, add,
}

-- The findings are added in their order, each at its time.
abbrev pub add_all : ℕ → List (Finding × ℕ) → Buckets → Buckets
add_all hold [] buckets = buckets
add_all hold ((finding, now) ∷ fs) buckets = add_all hold fs (add hold finding now buckets)

-- The highest order of the severities of the group's findings.
abbrev pub worst : Bytes → List (Finding × ℕ) → ℕ
worst key [] = 0
worst key ((finding, now) ∷ fs) =
    max (if eqb (group_key_of finding) key then order_of (severity_of finding) else 0)
      (worst key fs)

abbrev pub order_in : Option Bucket → ℕ
order_in none = 0
order_in (some b) = order b.severity

order-info : (o : Option Bytes) → order (or_text o (codes "info")) ≡ order_of o
unfolding order bytes_eq
order-info none = refl
order-info (some []) = refl
order-info (some (c ∷ cs)) = refl

order-raised :
    (o : Option Bytes) (s : Bytes) → order s < order_of o → order (get_or o s) ≡ order_of o
order-raised none s h = absurd (omega arith)
order-raised (some t) s h = refl

order-update_bucket :
    (finding : Finding) (now : ℕ) (b : Bucket)
    → order (update_bucket finding now b).severity
      ≡ max (order b.severity) (order_of (severity_of finding))
unfolding update_bucket
order-update_bucket finding now b =
    let o : Option Bytes = severity_of finding in
    elim (Bool-cases (ltb (order b.severity) (order_of o))) [
      | inl e ↦ rw e (
          omega (
            arith,
            order-raised o b.severity (ltb→lt (order b.severity) (order_of o) e),
            ltb→lt (order b.severity) (order_of o) e,
          ))
      | inr e ↦ rw e (ground arith)
    ]

put-order_in :
    (k key : Bytes) (b : Bucket) (buckets : Buckets) (more : ℕ)
    → order b.severity ≡ max (order_in (get k buckets)) more
    → order_in (get key (put k b buckets))
      ≡ max (order_in (get key buckets)) (if eqb k key then more else 0)
put-order_in k key b buckets more h = elim (Bool-cases (eqb k key)) [
  | inl e ↦
      let same : order_in (get key buckets) ≡ order_in (get k buckets) =
        ap (λ j. order_in (get j buckets)) (sym (bytes_eq→eq k key e)) in
      ground (arith, ap (λ o. order_in o) (get-put k key b buckets))
  | inr e ↦ ground (arith, ap (λ o. order_in o) (get-put k key b buckets))
]

order-new_bucket :
    (hold : ℕ) (finding : Finding) (now : ℕ)
    → order (new_bucket hold finding now).severity ≡ order_of (severity_of finding)
unfolding new_bucket
order-new_bucket hold finding now = order-info (severity_of finding)

add-order_in :
    (hold : ℕ) (finding : Finding) (now : ℕ) (key : Bytes) (buckets : Buckets)
    → order_in (get key (add hold finding now buckets))
      ≡ max
          (order_in (get key buckets))
          (if eqb (group_key_of finding) key then order_of (severity_of finding) else 0)
unfolding add
add-order_in hold finding now key buckets =
    let k : Bytes = group_key_of finding in
    let o : ℕ = order_of (severity_of finding) in
    elim (Option-cases (get k buckets)) [
      | inl e ↦
          rw (e, add)
            (put-order_in k key (new_bucket hold finding now) buckets o
              (omega (arith, order-new_bucket hold finding now, ap (λ b. order_in b) e)))
      | inr (b, e) ↦
          rw (e, add)
            (put-order_in k key (update_bucket finding now b) buckets o
              (order-update_bucket finding now b ∙ ap (λ c. max (order_in c) o) (sym e)))
    ]

add_all-order_in :
    (hold : ℕ) (fs : List (Finding × ℕ)) (key : Bytes) (buckets : Buckets)
    → order_in (get key (add_all hold fs buckets)) ≡ max (order_in (get key buckets)) (worst key fs)
add_all-order_in hold [] key buckets = omega arith
add_all-order_in hold ((finding, now) ∷ fs) key buckets = omega (
  arith,
  add-order_in hold finding now key buckets,
  add_all-order_in hold fs key (add hold finding now buckets),
)

-- The group of a key has the highest severity of the findings that were added to it, in the order
-- info, low, medium, high, critical; any other name counts as info.
pub add_all-worst :
    (hold : ℕ) (fs : List (Finding × ℕ)) (key : Bytes)
    → order_in (get key (add_all hold fs [])) ≡ worst key fs
unfolding get
add_all-worst hold fs key = omega (arith, add_all-order_in hold fs key [])
