-- ===== src/Reassembly/Closing.antt =====
-- When a stream is complete, over any run of packets.
use cipher_post.Prelude.{
  ℕ, ◌-◌, ◌≡◌, refl, Bool, true, false, ◌&&◌, ◌||◌, List, [], ◌∷◌, arith, if◌then◌else◌, drop,
}
use cipher_post.Prelude.Bytes.{Bytes}
use cipher_post.Prelude.Classes.{nat_eq, string_eq}
use cipher_post.Prelude.Dict.{put}
use cipher_post.Reassembly.Assembler.{
  Key, key_eq, Stream, new_stream, Packet, fin, rst, mark_half, feed_half, is_some, is_closed,
  set_complete, feed_stream,
}
use cipher_post.Reassembly.HalfStream.{
  HalfStream, advance, flush, frontier_for, anchor, place, store,
}
use cipher_post.Reassembly.Flush.{flush_rule}

-- The packets of one stream, each with its direction.
abbrev pub feed_all : Stream → List (Bool × Packet) → Stream
feed_all st [] = st
feed_all st ((dir_a, p) ∷ ps) = feed_all (feed_stream dir_a p st) ps

abbrev pub any_rst : List (Bool × Packet) → Bool
any_rst [] = false
any_rst ((_, p) ∷ ps) = rst p.flags || any_rst ps

-- A FIN from the A side, and one from the B side.
abbrev pub any_fin : Bool → List (Bool × Packet) → Bool
any_fin side [] = false
any_fin true ((true, p) ∷ ps) = fin p.flags || any_fin true ps
any_fin true ((false, p) ∷ ps) = any_fin true ps
any_fin false ((true, p) ∷ ps) = any_fin false ps
any_fin false ((false, p) ∷ ps) = fin p.flags || any_fin false ps

abbrev SameMarks : HalfStream → HalfStream → Type 0
SameMarks before hs = (hs.fin_seq ≡ before.fin_seq) × (hs.rst ≡ before.rst)

flush-SameMarks : (hs : HalfStream) → SameMarks hs (flush hs)
flush-SameMarks hs =
    (flush_rule (SameMarks hs) (λ h f seg at found k. unfold advance in k) hs (refl, refl)).0

-- Storing a payload marks nothing.
store-SameMarks :
    (hs : HalfStream) (seq : ℕ) (bs : Bytes) (ts : ℕ) → SameMarks hs (store hs seq bs ts)
unfolding store place anchor
store-SameMarks hs seq [] ts = (refl, refl)
store-SameMarks hs seq (b ∷ bs) ts =
    let f = frontier_for hs seq in
    let a = anchor hs seq ts in
    ground (
      arith,
      flush-SameMarks (record a { pending = put f (drop (f - seq) (b ∷ bs)) a.pending }),
      flush-SameMarks (record a { pending = put seq (b ∷ bs) a.pending }),
    )

feed_half-marks :
    (p : Packet) (hs : HalfStream)
    → ((feed_half p hs).rst ≡ (rst p.flags || hs.rst))
      × (is_some (feed_half p hs).fin_seq ≡ (fin p.flags || is_some hs.fin_seq))
unfolding feed_half mark_half
feed_half-marks p hs = ground (arith, store-SameMarks (mark_half p hs) p.seq p.payload p.ts)

-- A stream is complete exactly if it is closed by its marks, and what those are.
record Marked (st : Stream) (r a b : Bool) : Type 0 where
  resets : (st.ha.rst || st.hb.rst) ≡ r
  fin_a : is_some st.ha.fin_seq ≡ a
  fin_b : is_some st.hb.fin_seq ≡ b
  closed : st.complete ≡ (r || (a && b))

feed_stream-Marked :
    (dir_a : Bool) (p : Packet) (st : Stream) (r a b : Bool)
    → Marked st r a b
    → Marked
        (feed_stream dir_a p st)
        (r || rst p.flags)
        (if dir_a then a || fin p.flags else a)
        (if dir_a then b else b || fin p.flags)
unfolding feed_stream is_closed set_complete
feed_stream-Marked true p st r a b m = ground (arith, feed_half-marks p st.ha)
feed_stream-Marked false p st r a b m = ground (arith, feed_half-marks p st.hb)

feed_all-Marked :
    (ps : List (Bool × Packet)) (st : Stream) (r a b : Bool)
    → Marked st r a b
    → Marked (feed_all st ps) (r || any_rst ps) (a || any_fin true ps) (b || any_fin false ps)
feed_all-Marked [] st r a b m = ground arith
feed_all-Marked ((true, p) ∷ ps) st r a b m = ground (
  arith,
  feed_all-Marked ps (feed_stream true p st) (r || rst p.flags) (a || fin p.flags) b
      (feed_stream-Marked true p st r a b m),
)
feed_all-Marked ((false, p) ∷ ps) st r a b m = ground (
  arith,
  feed_all-Marked ps (feed_stream false p st) (r || rst p.flags) a (b || fin p.flags)
      (feed_stream-Marked false p st r a b m),
)

-- After any packets, in any order and direction, a stream is complete exactly if one of them was a
-- RST, or both sides have sent a FIN.
pub feed_all-complete :
    (k : Key) (ts : ℕ) (ps : List (Bool × Packet))
    → (feed_all (new_stream k ts) ps).complete
      ≡ (any_rst ps || (any_fin true ps && any_fin false ps))
unfolding new_stream
feed_all-complete k ts ps =
    (feed_all-Marked ps (new_stream k ts) false false false
      (record { resets = refl; fin_a = refl; fin_b = refl; closed = refl })).closed
