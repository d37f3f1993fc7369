-- ===== src/Reassembly/Wrap.antt =====
-- Sequence numbers that wrap around: `_store` compares them as they are.
use cipher_post.Prelude.{ℕ, ◌+◌, ◌%◌, ◌^◌, ◌≤◌, ◌≡◌, refl, some, [], ◌∷◌, arith, length}
use cipher_post.Prelude.Bytes.{Bytes}
use cipher_post.Prelude.Classes.{nat_eq, string_eq}
use cipher_post.Reassembly.HalfStream.{HalfStream, frontier_for, anchor, place, store}

passed_over :
    (hs : HalfStream) (f seq ts b : ℕ) (bs : Bytes)
    → hs.frontier ≡ some f
    → seq + length (b ∷ bs) ≤ f
    → store hs seq (b ∷ bs) ts ≡ anchor hs seq ts
unfolding store place
passed_over hs f seq ts b bs h low =
    let front : frontier_for hs seq ≡ f = unfold frontier_for in rw (h) in ground (arith, front)

-- When a stream has been emitted up to the last sequence number of 32 bits, the segment that comes
-- next, of at most 2 ^ 31 bytes, carries a number that has wrapped around to 0, and nothing of it is
-- emitted or kept.
pub wrapped_lost :
    (hs : HalfStream) (f ts : ℕ) (bs : Bytes)
    → hs.frontier ≡ some f
    → f ≡ 2 ^ 32
    → length bs ≤ 2 ^ 31
    → ((store hs (f % 2 ^ 32) bs ts).buf ≡ hs.buf)
      × ((store hs (f % 2 ^ 32) bs ts).pending ≡ hs.pending)
wrapped_lost hs f ts [] h e small = (unfold store in refl, unfold store in refl)
wrapped_lost hs f ts (b ∷ bs) h e small =
    rw (passed_over hs f (f % 2 ^ 32) ts b bs h (omega (arith, e)))
      (unfold anchor in refl, unfold anchor in refl)
