-- ===== src/Alerts/Deadlines.antt =====
-- When the findings that wait are reported.
use cipher_post.Prelude.{
  ℕ, ◌+◌, ◌≤◌, ◌<◌, ◌≡◌, refl, sym, ap, ◌∙◌, ◌⊎◌, inl, inr, true, List, [], ◌∷◌, ◌++◌, arith, leb,
  Bool-cases, Option-cases, All, All-imp,
}
use cipher_post.Prelude.Bytes.{Bytes}
use cipher_post.Prelude.Classes.{eqb_refl, nat_eq, string_eq}
use cipher_post.Prelude.Dict.{get, pop}
use cipher_post.Flows.{bytes_key}
use cipher_post.Alerts.{
  Finding, group_key_of, Bucket, new_bucket, update_bucket, Buckets, add, Alert, expired_keys,
  flush_keys, flush_expired,
}
use mathlib.Core.Path.{subst}
use cipher_post.Prelude.Dict.{All-get, All-put, All-pop}
use cipher_post.Prelude.Removal.{member, remove, All-remove}
use cipher_post.Alerts.Groups.{
  Op, run, added, reported, waiting, run-waiting, flush_expired-waiting, reported-append,
}

flush_keys-left :
    (keys : List Bytes) (buckets : Buckets) → (flush_keys keys buckets).1 ≡ remove keys buckets
unfolding flush_keys remove
flush_keys-left [] buckets = refl
flush_keys-left (key ∷ keys) buckets = elim (Option-cases (get key buckets)) [
  | inl e ↦ rw (e, flush_keys) (flush_keys-left keys (pop key buckets))
  | inr (b, e) ↦ rw (e, flush_keys) (flush_keys-left keys (pop key buckets))
]

abbrev Later : ℕ → Bytes × Bucket → Type 0
Later now e = now < e.1.deadline

expired_keys-member :
    (now : ℕ) (key : Bytes) (b : Bucket) (rest : Buckets) (j : Bytes)
    → member j (expired_keys now rest) ≡ true
    → member j (expired_keys now ((key, b) ∷ rest)) ≡ true
unfolding expired_keys member
expired_keys-member now key b rest j h = ground arith

expired_keys-covers :
    (now : ℕ) (buckets : Buckets)
    → All (λ e. Later now e ⊎ (member e.0 (expired_keys now buckets) ≡ true)) buckets
expired_keys-covers now [] = tt
expired_keys-covers now ((key, b) ∷ rest) = (
  elim (Bool-cases (leb b.deadline now)) [
    | inl e ↦ inr (unfold expired_keys member in rw e (ground (arith, eqb_refl key)))
    | inr e ↦ inl (ground arith)
  ],
  All-imp (λ e. Later now e ⊎ (member e.0 (expired_keys now rest) ≡ true))
      (λ e. Later now e ⊎ (member e.0 (expired_keys now ((key, b) ∷ rest)) ≡ true)) rest
      (λ e h. elim h [ inl l ↦ inl l | inr m ↦ inr (expired_keys-member now key b rest e.0 m) ])
      (expired_keys-covers now rest),
)

flush_expired-Later : (now : ℕ) (buckets : Buckets) → All (Later now) (flush_expired now buckets).1
unfolding flush_expired
flush_expired-Later now buckets =
    subst (All (Later now)) (sym (flush_keys-left (expired_keys now buckets) buckets))
      (All-remove (Later now) (expired_keys now buckets) buckets (expired_keys-covers now buckets))

-- The additions are old enough for their groups to be due at `t`.
abbrev pub Due : ℕ → ℕ → List Op → Type 0
Due hold t [] = Unit
Due hold t (inl (finding, now) ∷ ops) = (now + hold ≤ t) × Due hold t ops
Due hold t (inr now ∷ ops) = Due hold t ops

abbrev DueBy : ℕ → Buckets → Type 0
DueBy t buckets = All (λ e. e.1.deadline ≤ t) buckets

add-DueBy :
    (hold : ℕ) (finding : Finding) (now t : ℕ) (buckets : Buckets)
    → now + hold ≤ t
    → DueBy t buckets
    → DueBy t (add hold finding now buckets)
unfolding add new_bucket update_bucket
add-DueBy hold finding now t buckets le h =
    let k : Bytes = group_key_of finding in
    elim (Option-cases (get k buckets)) [
      | inl e ↦
          rw (e, add) (All-put (λ b. b.deadline ≤ t) k (new_bucket hold finding now) buckets le h)
      | inr (b, e) ↦
          rw (e, add)
            (All-put (λ c. c.deadline ≤ t) k (update_bucket finding now b) buckets
              (All-get (λ c. c.deadline ≤ t) k b buckets e h) h)
    ]

remove-DueBy :
    (t : ℕ) (keys : List Bytes) (buckets : Buckets)
    → DueBy t buckets
    → DueBy t (remove keys buckets)
unfolding remove
remove-DueBy t [] buckets h = h
remove-DueBy t (k ∷ keys) buckets h =
    remove-DueBy t keys (pop k buckets) (All-pop (λ b. b.deadline ≤ t) k buckets h)

flush_expired-DueBy :
    (now t : ℕ) (buckets : Buckets) → DueBy t buckets → DueBy t (flush_expired now buckets).1
unfolding flush_expired
flush_expired-DueBy now t buckets h =
    subst (DueBy t) (sym (flush_keys-left (expired_keys now buckets) buckets))
      (remove-DueBy t (expired_keys now buckets) buckets h)

run-DueBy :
    (hold t : ℕ) (ops : List Op) (buckets : Buckets)
    → Due hold t ops
    → DueBy t buckets
    → DueBy t (run hold ops buckets).1
run-DueBy hold t [] buckets d h = h
run-DueBy hold t (inl (finding, now) ∷ ops) buckets d h =
    run-DueBy hold t ops (add hold finding now buckets) d.1
      (add-DueBy hold finding now t buckets d.0 h)
run-DueBy hold t (inr now ∷ ops) buckets d h =
    run-DueBy hold t ops (flush_expired now buckets).1 d (flush_expired-DueBy now t buckets h)

none_between : (t : ℕ) (buckets : Buckets) → DueBy t buckets → All (Later t) buckets → buckets ≡ []
none_between t [] h k = refl
none_between t (e ∷ rest) h k = absurd (omega (arith, h.0, k.0))

-- Once the hold time has passed since the last addition, a flush reports all that still waits:
-- afterwards the buffer is empty, and the alerts of the whole run tell of every finding of a group
-- that was added, once.
pub run-reported :
    (hold t : ℕ) (ops : List Op) (key : Bytes)
    → Due hold t ops
    → let before = run hold ops [] in
      let final = flush_expired t before.1 in
      (added key ops ≡ reported key (before.0 ++ final.0)) × (final.1 ≡ [])
run-reported hold t ops key d =
    let before : List Alert × Buckets = run hold ops [] in
    let final : List Alert × Buckets = flush_expired t before.1 in
    let empty : final.1 ≡ [] =
      none_between t final.1 (flush_expired-DueBy t t before.1 (run-DueBy hold t ops [] d tt))
        (flush_expired-Later t before.1) in
    let gone : waiting key final.1 ≡ 0 = ap (λ b. waiting key b) empty ∙ waiting_none key in
    (
      omega (
        arith,
        run-waiting hold ops key [],
        waiting_none key,
        flush_expired-waiting t key before.1,
        reported-append key before.0 final.0,
        gone,
      ),
      empty,
    )
  where
    waiting_none : (key : Bytes) → waiting key [] ≡ 0
    waiting_none key = unfold get in refl
