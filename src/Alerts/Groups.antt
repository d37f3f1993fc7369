-- ===== src/Alerts/Groups.antt =====
-- What goes into the buffer of findings comes out of it, once.
use cipher_post.Prelude.{
  ℕ, suc, ◌+◌, ◌≡◌, refl, sym, ap, ◌∙◌, ◌⊎◌, inl, inr, Bool, true, false, Option, none, some, List,
  [], ◌∷◌, ◌++◌, arith, if◌then◌else◌, Bool-cases, Option-cases,
}
use cipher_post.Prelude.Bytes.{Bytes, bytes_eq→eq}
use cipher_post.Prelude.Classes.{eqb, nat_eq, string_eq}
use cipher_post.Prelude.Dict.{get, put, pop, get-put, get-pop}
use cipher_post.Flows.{bytes_key}
use cipher_post.Alerts.{
  Finding, group_key_of, Bucket, new_bucket, update_bucket, Buckets, add, Alert, alert_of,
  expired_keys, flush_keys, flush_expired,
}

abbrev pub Op : Type 0
Op = (Finding × ℕ) ⊎ ℕ

-- The operations in their order: a finding that is added at a time, or a flush at a time.
abbrev pub run : ℕ → List Op → Buckets → List Alert × Buckets
run hold [] buckets = ([], buckets)
run hold (inl (finding, now) ∷ ops) buckets = run hold ops (add hold finding now buckets)
run hold (inr now ∷ ops) buckets =
    let (out, left) = flush_expired now buckets in
    let (more, last) = run hold ops left in (out ++ more, last)

-- How many findings of the group were added.
abbrev pub added : Bytes → List Op → ℕ
added key [] = 0
added key (inl (finding, now) ∷ ops) =
    (if eqb (group_key_of finding) key then 1 else 0) + added key ops
added key (inr now ∷ ops) = added key ops

-- The occurrences that the alerts of the group tell of.
abbrev pub reported : Bytes → List Alert → ℕ
reported key [] = 0
reported key (a ∷ out) = (if eqb a.group_key key then a.occurrence_count else 0) + reported key out

abbrev pub count_in : Option Bucket → ℕ
count_in none = 0
count_in (some b) = b.count

-- The findings of the group that wait.
abbrev pub waiting : Bytes → Buckets → ℕ
waiting key buckets = count_in (get key buckets)

put-waiting :
    (k key : Bytes) (b : Bucket) (buckets : Buckets)
    → waiting key (put k b buckets) ≡ (if eqb k key then b.count else waiting key buckets)
put-waiting k key b buckets = ap (λ o. count_in o) (get-put k key b buckets) ∙ choose (eqb k key)
  where
    choose :
        (t : Bool)
        → count_in (if t then some b else get key buckets)
          ≡ (if t then b.count else waiting key buckets)
    choose true = refl
    choose false = refl

same_key : (k key : Bytes) (buckets : Buckets) → eqb k key ≡ true → get key buckets ≡ get k buckets
same_key k key buckets e = ap (λ j. get j buckets) (sym (bytes_eq→eq k key e))

put_more :
    (k key : Bytes) (b : Bucket) (buckets : Buckets)
    → b.count ≡ suc (waiting k buckets)
    → waiting key (put k b buckets) ≡ (if eqb k key then 1 else 0) + waiting key buckets
put_more k key b buckets c = elim (Bool-cases (eqb k key)) [
  | inl e ↦
      ground (arith, put-waiting k key b buckets, ap (λ o. count_in o) (same_key k key buckets e))
  | inr e ↦ ground (arith, put-waiting k key b buckets)
]

add-waiting :
    (hold : ℕ) (finding : Finding) (now : ℕ) (key : Bytes) (buckets : Buckets)
    → waiting key (add hold finding now buckets)
      ≡ (if eqb (group_key_of finding) key then 1 else 0) + waiting key buckets
unfolding add new_bucket update_bucket
add-waiting hold finding now key buckets =
    let k : Bytes = group_key_of finding in
    elim (Option-cases (get k buckets)) [
      | inl e ↦
          rw (e, add)
            (put_more k key (new_bucket hold finding now) buckets
              (sym (ap (λ o. suc (count_in o)) e)))
      | inr (b, e) ↦
          let more : b.count + 1 ≡ suc (waiting k buckets) =
            omega (arith, ap (λ o. count_in o) e) in
          rw (e, add) (put_more k key (update_bucket finding now b) buckets more)
    ]

pop-waiting :
    (k key : Bytes) (buckets : Buckets)
    → waiting key buckets
      ≡ (if eqb k key then waiting k buckets else 0) + waiting key (pop k buckets)
pop-waiting k key buckets = elim (Bool-cases (eqb k key)) [
  | inl e ↦ ground (
    arith,
    ap (λ o. count_in o) (get-pop k key buckets),
    ap (λ o. count_in o) (same_key k key buckets e),
  )
  | inr e ↦ ground (arith, ap (λ o. count_in o) (get-pop k key buckets))
]

flush_keys-waiting :
    (key : Bytes) (keys : List Bytes) (buckets : Buckets)
    → waiting key buckets
      ≡ reported key (flush_keys keys buckets).0 + waiting key (flush_keys keys buckets).1
unfolding flush_keys alert_of
flush_keys-waiting key [] buckets = omega arith
flush_keys-waiting key (k ∷ keys) buckets = elim (Option-cases (get k buckets)) [
  | inl e ↦
      rw (e, flush_keys)
        (ground (
          arith,
          pop-waiting k key buckets,
          ap (λ o. count_in o) e,
          flush_keys-waiting key keys (pop k buckets),
        ))
  | inr (b, e) ↦
      rw (e, flush_keys)
        (ground (
          arith,
          pop-waiting k key buckets,
          ap (λ o. count_in o) e,
          flush_keys-waiting key keys (pop k buckets),
        ))
]

pub flush_expired-waiting :
    (now : ℕ) (key : Bytes) (buckets : Buckets)
    → waiting key buckets
      ≡ reported key (flush_expired now buckets).0 + waiting key (flush_expired now buckets).1
unfolding flush_expired
flush_expired-waiting now key buckets = flush_keys-waiting key (expired_keys now buckets) buckets

pub reported-append :
    (key : Bytes) (xs ys : List Alert) → reported key (xs ++ ys) ≡ reported key xs + reported key ys
reported-append key [] ys = omega arith
reported-append key (a ∷ xs) ys = ground (arith, reported-append key xs ys)

-- Over any run of additions and flushes, at any times, the findings of a group that were added or
-- waited before are those that the alerts of the group tell of, and those that wait afterwards:
-- none is lost and none counted twice.
pub run-waiting :
    (hold : ℕ) (ops : List Op) (key : Bytes) (buckets : Buckets)
    → added key ops + waiting key buckets
      ≡ reported key (run hold ops buckets).0 + waiting key (run hold ops buckets).1
run-waiting hold [] key buckets = omega arith
run-waiting hold (inl (finding, now) ∷ ops) key buckets = omega (
  arith,
  add-waiting hold finding now key buckets,
  run-waiting hold ops key (add hold finding now buckets),
)
run-waiting hold (inr now ∷ ops) key buckets =
    let flushed : List Alert × Buckets = flush_expired now buckets in
    let more : List Alert × Buckets = run hold ops flushed.1 in
    omega (
      arith,
      reported-append key flushed.0 more.0,
      flush_expired-waiting now key buckets,
      run-waiting hold ops key flushed.1,
    )
