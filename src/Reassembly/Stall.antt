-- ===== src/Reassembly/Stall.antt =====
-- A single segment ahead of the frontier or at it; and one way in which bytes that have arrived are
-- not emitted.
use cipher_post.Prelude.{
  ℕ, suc, ◌+◌, ◌<◌, ◌≡◌, refl, ◌∙◌, none, some, [], ◌∷◌, ◌++◌, arith, length, length-append,
}
use cipher_post.Prelude.Bytes.{Bytes}
use cipher_post.Prelude.Classes.{nat_eq, string_eq}
use cipher_post.Prelude.Dict.{Dict, get, put, pop, get-put, get-pop, get-put_self}
use cipher_post.Reassembly.HalfStream.{
  HalfStream, next_segment, advance, flush, base_for, frontier_for, anchor, place, store,
}
use cipher_post.Reassembly.Flush.{flush_loop_stop, flush_loop_go}
use cipher_post.Reassembly.Order.{store_all, NonEmpty}
use cipher_post.Reassembly.Complete.{opened}

next_segment_at :
    (f : ℕ) (pending : Dict ℕ Bytes) (seg : Bytes)
    → get f pending ≡ some seg
    → next_segment (some f) pending ≡ some (f, seg)
unfolding next_segment
next_segment_at f pending seg e = rw (e, next_segment)

next_segment-none :
    (f : ℕ) (pending : Dict ℕ Bytes) → get f pending ≡ none → next_segment (some f) pending ≡ none
unfolding next_segment
next_segment-none f pending e = rw (e, next_segment)

module _ (hs : HalfStream) (f : ℕ) (at : hs.frontier ≡ some f) (bs : Bytes)
    (full : NonEmpty bs) where
  -- A segment that leaves a gap waits.
  pub place_ahead :
      (seq : ℕ)
      → f < seq
      → get f hs.pending ≡ none
      → place hs f seq bs ≡ record hs { pending = put seq bs hs.pending }
  unfolding place flush
  place_ahead seq gap e =
      let stop : next_segment hs.frontier (put seq bs hs.pending) ≡ none = rw at (
        next_segment-none f (put seq bs hs.pending)
          (ground (arith, get-put seq f bs hs.pending))) in
      ground (
        arith,
        flush_loop_stop (suc (length (put seq bs hs.pending)))
            (record hs { pending = put seq bs hs.pending }) stop,
      )

  -- A segment at the frontier is emitted, and if none waits at its end, that is all.
  pub place_next :
      get (f + length bs) hs.pending ≡ none
      → place hs f f bs ≡ advance (record hs { pending = put f bs hs.pending }) f bs
  unfolding place flush
  place_next e =
      let mid : HalfStream = record hs { pending = put f bs hs.pending } in
      let go : next_segment mid.frontier mid.pending ≡ some (f, bs) =
        rw at (next_segment_at f (put f bs hs.pending) bs (get-put_self f bs hs.pending)) in
      let stop : next_segment (advance mid f bs).frontier (advance mid f bs).pending ≡ none =
        unfold advance in
        next_segment-none (f + length bs) (pop f (put f bs hs.pending)) (
          ground (
            arith,
            get-pop f (f + length bs) (put f bs hs.pending),
            get-put f (f + length bs) bs hs.pending,
          )) in
      ground (
        arith,
        flush_loop_go (length mid.pending) mid f bs go,
        flush_loop_stop (length mid.pending) (advance mid f bs) stop,
      )

store-place :
    (hs : HalfStream) (seq : ℕ) (d : Bytes) (ts f : ℕ)
    → NonEmpty d
    → frontier_for hs seq ≡ f
    → store hs seq d ts ≡ place (anchor hs seq ts) f seq d
unfolding store
store-place hs seq [] ts f h e = absurd (omega arith)
store-place hs seq (x ∷ d) ts f h e = rw e

-- A segment that starts behind the frontier and waits is not emitted if the gap is closed by a
-- segment that reaches into it: of the stream `x ++ y ++ z`, let `y ++ z` arrive before `x ++ y`.
-- Then all of the stream has arrived, and `z` is not emitted.
pub overlap_stalls :
    (isn syn_ts t u : ℕ) (x y z : Bytes)
    → NonEmpty x
    → NonEmpty y
    → NonEmpty z
    → (store_all (opened isn syn_ts) (
        record { seq = isn + 1 + length x; payload = y ++ z; ts = t }
        ∷ record { seq = isn + 1; payload = x ++ y; ts = u }
        ∷ [])).buf
      ≡ x ++ y
unfolding anchor frontier_for base_for
overlap_stalls isn s t u x y z hx hy hz = rw first (rw second (unfold advance in refl))
  where
    start : ℕ
    start = isn + 1

    gap : ℕ
    gap = isn + 1 + length x

    waiting : HalfStream
    waiting = record (anchor (opened isn s) gap t) { pending = put gap (y ++ z) [] }

    first : store (opened isn s) gap (y ++ z) t ≡ waiting
    first =
        store-place (opened isn s) gap (y ++ z) t start (omega (arith, length-append y z)) refl
        ∙ place_ahead (anchor (opened isn s) gap t) start refl (y ++ z)
            (omega (arith, length-append y z)) gap (omega arith) (unfold get in refl)

    second :
        store waiting start (x ++ y) u
        ≡ advance
            (record (anchor waiting start u) { pending = put start (x ++ y) (put gap (y ++ z) []) })
            start
            (x ++ y)
    second =
        store-place waiting start (x ++ y) u start (omega (arith, length-append x y)) refl
        ∙ place_next (anchor waiting start u) start refl (x ++ y) (omega (arith, length-append x y))
            (unfold put get in ground (arith, length-append x y))
