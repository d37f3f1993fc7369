-- ===== src/Live/Silent.antt =====
-- Streams without data.
use cipher_post.Prelude.{ℕ, ◌≡◌, refl, Bool, true, false, none, List, [], ◌∷◌, arith, All}
use cipher_post.Prelude.Classes.{nat_eq, string_eq}
use cipher_post.Live.{Limits, last_seen, buffered, verdict}
use cipher_post.Reassembly.HalfStream.{HalfStream, store}
use cipher_post.Reassembly.Assembler.{
  Key, key_eq, Stream, Packet, feed_stream, feed_half, mark_half, set_complete, new_stream,
}
use cipher_post.Reassembly.Closing.{feed_all}

record IsSilent (st : Stream) : Type 0 where
  seen_a : st.ha.last_ts ≡ 0
  seen_b : st.hb.last_ts ≡ 0
  buf_a : st.ha.buf ≡ []
  buf_b : st.hb.buf ≡ []

feed_half-silent :
    (p : Packet) (hs : HalfStream)
    → p.payload ≡ []
    → ((feed_half p hs).last_ts ≡ hs.last_ts) × ((feed_half p hs).buf ≡ hs.buf)
unfolding feed_half mark_half store
feed_half-silent p hs e = rw e (refl, refl)

feed_stream-IsSilent :
    (dir_a : Bool) (p : Packet) (st : Stream)
    → p.payload ≡ []
    → IsSilent st
    → IsSilent (feed_stream dir_a p st)
unfolding feed_stream set_complete
feed_stream-IsSilent true p st e s = ground (arith, feed_half-silent p st.ha e)
feed_stream-IsSilent false p st e s = ground (arith, feed_half-silent p st.hb e)

feed_all-IsSilent :
    (ps : List (Bool × Packet)) (st : Stream)
    → All (λ e. e.1.payload ≡ []) ps
    → IsSilent st
    → IsSilent (feed_all st ps)
feed_all-IsSilent [] st h s = s
feed_all-IsSilent ((dir_a, p) ∷ ps) st h s =
    feed_all-IsSilent ps (feed_stream dir_a p st) h.1 (feed_stream-IsSilent dir_a p st h.0 s)

silent_verdict :
    (limits : Limits) (now : ℕ) (st : Stream)
    → IsSilent st
    → st.complete ≡ false
    → verdict limits now st ≡ none
unfolding verdict
silent_verdict limits now st s e =
    let seen : last_seen st ≡ 0 = omega (arith, s.seen_a, s.seen_b) in
    let size : buffered st ≡ 0 = rw (s.buf_a, s.buf_b) refl in ground arith

-- A stream whose packets carry no data, such as a SYN that nobody answers, is never closed by a
-- sweep, however late it is, unless its marks make it complete.
pub silent_never_idle :
    (k : Key) (ts : ℕ) (ps : List (Bool × Packet)) (limits : Limits) (now : ℕ)
    → All (λ e. e.1.payload ≡ []) ps
    → (feed_all (new_stream k ts) ps).complete ≡ false
    → verdict limits now (feed_all (new_stream k ts) ps) ≡ none
silent_never_idle k ts ps limits now h e =
    silent_verdict limits now (feed_all (new_stream k ts) ps)
      (feed_all-IsSilent ps (new_stream k ts) h
        (unfold new_stream in record { seen_a = refl; seen_b = refl; buf_a = refl; buf_b = refl }))
      e
