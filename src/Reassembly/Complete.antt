-- ===== src/Reassembly/Complete.antt =====
-- The pieces of a stream give the stream, in whatever order they arrive.
use mathlib.Core.Path.{subst}
use native.Mathlib.Nat.{add-zero, add_assoc}
use cipher_post.Prelude.{
  ℕ, ◌+◌, ◌≤◌, ◌≡◌, refl, sym, ap, ◌∙◌, ◌⊎◌, inl, inr, Option, none, some, List, [], ◌∷◌, ◌++◌,
  append-nil, arith, ==_refl, length, All, length-append,
}
use cipher_post.Prelude.Bytes.{Bytes}
use cipher_post.Prelude.Classes.{nat_eq, string_eq}
use cipher_post.Prelude.Dict.{get}
use cipher_post.Reassembly.HalfStream.{
  HalfStream, new_half, next_segment, base_for, frontier_for, anchor, place, store,
}
use cipher_post.Reassembly.Order.{
  Arrival, store_all, concat, piece_at, NonEmpty, Arrived, here, later,
}
use cipher_post.Reassembly.Arrivals.{Held, Between, place-Between, place-Held_self, place-Held}

store-place :
    (hs : HalfStream) (seq : ℕ) (d : Bytes) (ts : ℕ)
    → NonEmpty d
    → store hs seq d ts ≡ place (anchor hs seq ts) (frontier_for hs seq) seq d
unfolding store
store-place hs seq [] ts h = absurd (omega arith)
store-place hs seq (x ∷ d) ts h = refl

anchor_frontier :
    (hs : HalfStream) (seq ts : ℕ) → (anchor hs seq ts).frontier ≡ some (frontier_for hs seq)
unfolding anchor
anchor_frontier hs seq ts = refl

anchor_set :
    (hs : HalfStream) (seq ts f : ℕ)
    → hs.frontier ≡ some f
    → (anchor hs seq ts).frontier ≡ hs.frontier
unfolding anchor
anchor_set hs seq ts f e = ground arith

piece_at-NonEmpty :
    (b : ℕ) (ds : List Bytes) (s : ℕ) (d : Bytes)
    → All NonEmpty ds
    → piece_at b ds s ≡ some d
    → NonEmpty d
piece_at-NonEmpty b [] s d v h = cc
piece_at-NonEmpty b (x ∷ xs) s d v h = ground (arith, piece_at-NonEmpty (b + length x) xs s d v.1)

module _ (b : ℕ) (ds : List Bytes) (full : All NonEmpty ds) where
  -- Whatever the next segment, the state that `_store` anchors for it is in order.
  Ready : HalfStream → Type 0
  Ready hs = (seq ts : ℕ) → Between b ds (anchor hs seq ts)

  HeldNext : ℕ → Bytes → HalfStream → Type 0
  HeldNext s d hs = (seq ts : ℕ) → Held b ds s d (anchor hs seq ts)

  Between-Ready : (hs : HalfStream) → Between b ds hs → Ready hs
  unfolding Ready
  Between-Ready hs n seq ts = record {
    progress = record {
      done = n.progress.done;
      todo = n.progress.todo;
      whole = n.progress.whole;
      emitted = unfold anchor in n.progress.emitted;
      front =
          anchor_set hs seq ts (b + length (concat n.progress.done)) n.progress.front
          ∙ n.progress.front;
      waiting = unfold anchor in n.progress.waiting;
    };
    settled =
        rw (anchor_set hs seq ts (b + length (concat n.progress.done)) n.progress.front)
          (unfold anchor in n.settled);
  }

  Held-HeldNext :
      (s : ℕ) (d : Bytes) (hs : HalfStream) → Between b ds hs → Held b ds s d hs → HeldNext s d hs
  unfolding HeldNext
  Held-HeldNext s d hs n h seq ts f at =
      unfold anchor in
      h f (sym (anchor_set hs seq ts (b + length (concat n.progress.done)) n.progress.front) ∙ at)

  module _ (hs : HalfStream) (ready : Ready hs) (s : ℕ) (d : Bytes) (ts : ℕ)
      (piece : piece_at b ds s ≡ some d) where
    store-Between : Between b ds (store hs s d ts)
    unfolding Ready
    store-Between = rw (store-place hs s d ts (piece_at-NonEmpty b ds s d full piece)) (
        place-Between b ds s d piece (piece_at-NonEmpty b ds s d full piece) (anchor hs s ts)
          (ready s ts) (frontier_for hs s) (anchor_frontier hs s ts))

    store-Held_self : Held b ds s d (store hs s d ts)
    unfolding Ready
    store-Held_self = rw (store-place hs s d ts (piece_at-NonEmpty b ds s d full piece)) (
        place-Held_self b ds s d piece (piece_at-NonEmpty b ds s d full piece) (anchor hs s ts)
          (ready s ts) (frontier_for hs s) (anchor_frontier hs s ts))

    store-Held :
        (s' : ℕ) (d' : Bytes)
        → piece_at b ds s' ≡ some d'
        → HeldNext s' d' hs
        → Held b ds s' d' (store hs s d ts)
    unfolding Ready HeldNext
    store-Held s' d' piece' h = rw (store-place hs s d ts (piece_at-NonEmpty b ds s d full piece)) (
        place-Held b ds s d piece (piece_at-NonEmpty b ds s d full piece) (anchor hs s ts)
          (ready s ts) (frontier_for hs s) (anchor_frontier hs s ts) s' d' piece' (h s ts))

  abbrev IsPiece : Arrival → Type 0
  IsPiece a = piece_at b ds a.seq ≡ some a.payload

  store_all-Ready :
      (hs : HalfStream) (arrivals : List Arrival)
      → Ready hs
      → All IsPiece arrivals
      → Ready (store_all hs arrivals)
  store_all-Ready hs [] r v = r
  store_all-Ready hs (a ∷ more) r v =
      store_all-Ready (store hs a.seq a.payload a.ts) more
        (Between-Ready (store hs a.seq a.payload a.ts)
          (store-Between hs r a.seq a.payload a.ts v.0))
        v.1

  store_all-HeldNext :
      (hs : HalfStream) (arrivals : List Arrival) (s : ℕ) (d : Bytes)
      → Ready hs
      → All IsPiece arrivals
      → piece_at b ds s ≡ some d
      → Arrived s d arrivals ⊎ HeldNext s d hs
      → HeldNext s d (store_all hs arrivals)
  store_all-HeldNext hs [] s d r v piece (inl e) = elim e [ ]
  store_all-HeldNext hs [] s d r v piece (inr h) = h
  store_all-HeldNext hs (a ∷ more) s d r v piece e =
      store_all-HeldNext (store hs a.seq a.payload a.ts) more s d
        (Between-Ready (store hs a.seq a.payload a.ts) n) v.1 piece (held e)
    where
      n : Between b ds (store hs a.seq a.payload a.ts)
      n = store-Between hs r a.seq a.payload a.ts v.0

      held :
          Arrived s d (a ∷ more) ⊎ HeldNext s d hs
          → Arrived s d more ⊎ HeldNext s d (store hs a.seq a.payload a.ts)
      held (inl (here p q)) = inr (
          Held-HeldNext s d (store hs a.seq a.payload a.ts) n (
            subst (λ x. Held b ds x d (store hs a.seq a.payload a.ts)) p
              (subst (λ y. Held b ds a.seq y (store hs a.seq a.payload a.ts)) q
                (store-Held_self hs r a.seq a.payload a.ts v.0))))
      held (inl (later k)) = inl k
      held (inr h) = inr (
          Held-HeldNext s d (store hs a.seq a.payload a.ts) n
            (store-Held hs r a.seq a.payload a.ts v.0 s d piece h))

  piece_at-next :
      (c : ℕ) (xs ys : List Bytes) (d : Bytes)
      → All NonEmpty xs
      → piece_at c (xs ++ d ∷ ys) (c + length (concat xs)) ≡ some d
  piece_at-next c [] ys d v = rw (add-zero, ==_refl c)
  piece_at-next c (x ∷ xs) ys d v =
      rw (length-append x (concat xs), ← add_assoc c (length x) (length (concat xs)))
        (ground (arith, v.0, piece_at-next (c + length x) xs ys d v.1))

  -- Once every piece is held, nothing is left to do.
  todo_nil :
      (hs : HalfStream) (done todo : List Bytes)
      → ds ≡ done ++ todo
      → All NonEmpty done
      → hs.frontier ≡ some (b + length (concat done))
      → next_segment hs.frontier hs.pending ≡ none
      → All NonEmpty todo
      → ((s : ℕ) (d : Bytes) → piece_at b ds s ≡ some d → Held b ds s d hs)
      → todo ≡ []
  unfolding next_segment
  todo_nil hs done [] whole v at settled w h = refl
  todo_nil hs done (d ∷ rest) whole v at settled w h =
      absurd (stuck (h f d (rw whole (piece_at-next b done rest d v)) f at))
    where
      f : ℕ
      f = b + length (concat done)

      stuck : (f + length d ≤ f) ⊎ (get f hs.pending ≡ some d) → ⊥
      stuck (inl k) = omega arith
      stuck (inr k) = ground (arith, at, settled, k)

  All-prefix : (xs ys : List Bytes) → All NonEmpty (xs ++ ys) → All NonEmpty xs × All NonEmpty ys
  All-prefix [] ys v = (tt, v)
  All-prefix (x ∷ xs) ys v = ((v.0, (All-prefix xs ys v.1).0), (All-prefix xs ys v.1).1)

  all-Held :
      (hs : HalfStream)
      → Between b ds hs
      → ((s : ℕ) (d : Bytes) → piece_at b ds s ≡ some d → Held b ds s d hs)
      → (hs.buf ≡ concat ds) × ((s : ℕ) → get s hs.pending ≡ none)
  all-Held hs n h = (n.progress.emitted ∙ ap concat all_done, λ s. empty s (get s hs.pending) refl)
    where
      nonempty : All NonEmpty n.progress.done × All NonEmpty n.progress.todo
      nonempty =
          All-prefix n.progress.done n.progress.todo (subst (All NonEmpty) n.progress.whole full)

      nothing : n.progress.todo ≡ []
      nothing =
          todo_nil hs n.progress.done n.progress.todo n.progress.whole nonempty.0 n.progress.front
            n.settled nonempty.1 h

      all_done : n.progress.done ≡ ds
      all_done =
          sym
            (n.progress.whole ∙ ap (λ t. n.progress.done ++ t) nothing ∙ append-nil n.progress.done)

      empty : (s : ℕ) (o : Option Bytes) → get s hs.pending ≡ o → get s hs.pending ≡ none
      empty s none e = e
      empty s (some d) e = cc (
        n.progress.waiting s d e,
        ap (λ t. piece_at (b + length (concat n.progress.done)) t s) nothing,
      )

-- A half stream for which only a SYN with the sequence number `isn` has been seen.
abbrev pub opened : ℕ → ℕ → HalfStream
opened isn ts = record new_half { syn_seq = some isn; syn_ts = ts }

opened-Ready :
    (isn t : ℕ) (ds : List Bytes) (full : All NonEmpty ds) → Ready (isn + 1) ds full (opened isn t)
unfolding Ready anchor frontier_for base_for next_segment get
opened-Ready isn t ds full seq ts = record {
  progress = record {
    done = [];
    todo = ds;
    whole = refl;
    emitted = refl;
    front = rw add-zero;
    waiting = λ s d h. cc;
  };
  settled = refl;
}

-- After a SYN, let the pieces of a stream arrive in any order and any of them more than once, as
-- long as each arrives: then the buffer is the whole stream, and nothing waits any more.
pub store_all_complete :
    (isn syn_ts : ℕ) (ds : List Bytes) (arrivals : List Arrival)
    → All NonEmpty ds
    → All (λ a. piece_at (isn + 1) ds a.seq ≡ some a.payload) arrivals
    → ((s : ℕ) (d : Bytes) → piece_at (isn + 1) ds s ≡ some d → Arrived s d arrivals)
    → ((store_all (opened isn syn_ts) arrivals).buf ≡ concat ds)
      × ((s : ℕ) → get s (store_all (opened isn syn_ts) arrivals).pending ≡ none)
unfolding anchor Ready HeldNext
store_all_complete isn t ds arrivals full pieces all =
    all-Held (isn + 1) ds full (anchor (store_all (opened isn t) arrivals) 0 0)
      (store_all-Ready (isn + 1) ds full (opened isn t) arrivals ready pieces 0 0)
      (λ s d piece.
        store_all-HeldNext (isn + 1) ds full (opened isn t) arrivals s d ready pieces piece
          (inl (all s d piece)) 0 0)
  where
    ready : Ready (isn + 1) ds full (opened isn t)
    ready = opened-Ready isn t ds full
