-- ===== src/Reassembly/Arrivals.antt =====
-- What a stored piece changes, and that at the end every piece is emitted.
use cipher_post.Prelude.{
  ℕ, ◌+◌, ◌≤◌, ◌≡◌, sym, ◌∙◌, ◌⊎◌, inl, inr, none, some, List, arith, ◌==◌, ==_iff, Bool-cases,
  length,
}
use cipher_post.Prelude.Bytes.{Bytes}
use cipher_post.Prelude.Classes.{nat_eq, string_eq}
use cipher_post.Prelude.Dict.{get, put, get-put, get-pop, get-put_self}
use cipher_post.Reassembly.HalfStream.{HalfStream, next_segment, advance, flush, place}
use cipher_post.Reassembly.Flush.{flush_rule}
use cipher_post.Reassembly.Order.{
  concat, piece_at, NonEmpty, piece_at-append, piece_at-le, Progress, advance-Progress,
}

module _ (b : ℕ) (ds : List Bytes) where
  -- A piece that has arrived is emitted, or waits.
  abbrev pub Held : ℕ → Bytes → HalfStream → Type 0
  Held s d hs = (f : ℕ) → hs.frontier ≡ some f → (s + length d ≤ f) ⊎ (get s hs.pending ≡ some d)

  advance-Held :
      (s : ℕ) (d : Bytes) (hs : HalfStream) (f : ℕ) (seg : Bytes)
      → hs.frontier ≡ some f
      → get f hs.pending ≡ some seg
      → Held s d hs
      → Held s d (advance hs f seg)
  unfolding advance
  advance-Held s d hs f seg at found h g k = elim (h f at) [
    | inl below ↦ inl (ground arith)
    | inr waits ↦ elim (Bool-cases (f == s)) [
      | inl e ↦ inl (ground arith)
      | inr e ↦ inr (ground (arith, get-pop f s hs.pending))
    ]
  ]

  module _ (s : ℕ) (d : Bytes) (piece : piece_at b ds s ≡ some d) (hs : HalfStream) where
    put-Held_self : Held s d (record hs { pending = put s d hs.pending })
    put-Held_self f at = inr (get-put_self s d hs.pending)

    put-Held :
        (s' : ℕ) (d' : Bytes)
        → piece_at b ds s' ≡ some d'
        → Held s' d' hs
        → Held s' d' (record hs { pending = put s d hs.pending })
    put-Held s' d' piece' h f at = elim (h f at) [
      | inl below ↦ inl below
      | inr waits ↦ inr (elim (Bool-cases (s == s')) [
        | inl e ↦ get-put s s' d hs.pending ∙ (rw e (sym piece ∙ (rw ((==_iff s s').0 e) piece')))
        | inr e ↦ ground (arith, get-put s s' d hs.pending)
      ])
    ]

    put-Progress :
        (p : Progress b ds hs)
        → piece_at (b + length (concat p.done)) p.todo s ≡ some d
        → Progress b ds (record hs { pending = put s d hs.pending })
    put-Progress p here' = record {
      done = p.done;
      todo = p.todo;
      whole = p.whole;
      emitted = p.emitted;
      front = p.front;
      waiting = λ s' d' h. ground (arith, get-put s s' d hs.pending, p.waiting s' d');
    }

  -- The state between two segments, with the base and the frontier set.
  pub record Between (hs : HalfStream) : Type 0 where
    pub progress : Progress b ds hs
    pub settled : next_segment hs.frontier hs.pending ≡ none

  flush-Between : (hs : HalfStream) → Progress b ds hs → Between (flush hs)
  flush-Between hs p =
      let (q, e) =
        flush_rule (Progress b ds) (λ h f seg at found r. advance-Progress b ds h f seg at found r)
          hs p in
      record { progress = q; settled = e }

  flush-Held : (s : ℕ) (d : Bytes) (hs : HalfStream) → Held s d hs → Held s d (flush hs)
  flush-Held s d hs h =
      (flush_rule (Held s d) (λ k f seg at found r. advance-Held s d k f seg at found r) hs h).0

  module _ (s : ℕ) (d : Bytes) (piece : piece_at b ds s ≡ some d) (full : NonEmpty d)
      (hs : HalfStream) (now : Between hs) (f : ℕ) (at : hs.frontier ≡ some f) where
    frontier_eq : f ≡ b + length (concat now.progress.done)
    frontier_eq = ground (arith, now.progress.front)

    split :
        (s + length d ≤ f)
        ⊎ (piece_at (b + length (concat now.progress.done)) now.progress.todo s ≡ some d)
    split =
        elim (piece_at-append b now.progress.done now.progress.todo s d
          (rw (← now.progress.whole) piece)) [
            | inl k ↦ inl (omega (arith, frontier_eq))
            | inr k ↦ inr k
          ]

    place_new :
        piece_at (b + length (concat now.progress.done)) now.progress.todo s ≡ some d
        → place hs f s d ≡ flush (record hs { pending = put s d hs.pending })
    unfolding place
    place_new k = ground (
      arith,
      frontier_eq,
      piece_at-le (b + length (concat now.progress.done)) now.progress.todo s d k,
    )

    place_old : s + length d ≤ f → place hs f s d ≡ hs
    unfolding place
    place_old k = ground arith

    pub place-Between : Between (place hs f s d)
    place-Between = elim split [
      | inl k ↦ rw (place_old k) now
      | inr k ↦ rw (place_new k) (
          flush-Between (record hs { pending = put s d hs.pending })
            (put-Progress s d piece hs now.progress k))
    ]

    pub place-Held_self : Held s d (place hs f s d)
    place-Held_self = elim split [
      | inl k ↦ rw (place_old k) (λ g e. inl (ground arith))
      | inr k ↦
          rw (place_new k) (
            flush-Held s d (record hs { pending = put s d hs.pending })
              (put-Held_self s d piece hs))
    ]

    pub place-Held :
        (s' : ℕ) (d' : Bytes)
        → piece_at b ds s' ≡ some d'
        → Held s' d' hs
        → Held s' d' (place hs f s d)
    place-Held s' d' piece' h = elim split [
      | inl k ↦ rw (place_old k) h
      | inr k ↦ rw (place_new k) (
          flush-Held s' d' (record hs { pending = put s d hs.pending })
            (put-Held s d piece hs s' d' piece' h))
    ]
