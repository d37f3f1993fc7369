-- ===== src/Reassembly/Flush.antt =====
-- The loop of `_flush` ends by its own test, and what a round keeps.
use cipher_post.Prelude.{
  ℕ, zero, suc, ◌<◌, ◌≡◌, refl, inl, inr, Option, none, some, arith, Option-cases, length,
}
use cipher_post.Prelude.Bytes.{Bytes}
use cipher_post.Prelude.Classes.{nat_eq, string_eq}
use cipher_post.Prelude.Dict.{Dict, get, length-pop-lt}
use cipher_post.Reassembly.HalfStream.{HalfStream, next_segment, advance, flush_loop, flush}

pub flush_loop_stop :
    (fuel : ℕ) (hs : HalfStream)
    → next_segment hs.frontier hs.pending ≡ none
    → flush_loop fuel hs ≡ hs
unfolding flush_loop
flush_loop_stop zero hs e = refl
flush_loop_stop (suc n) hs e = rw (e, flush_loop)

pub flush_loop_go :
    (fuel : ℕ) (hs : HalfStream) (f : ℕ) (seg : Bytes)
    → next_segment hs.frontier hs.pending ≡ some (f, seg)
    → flush_loop (suc fuel) hs ≡ flush_loop fuel (advance hs f seg)
unfolding flush_loop
flush_loop_go n hs f seg e = rw (e, flush_loop)

pub next_segment-get :
    (o : Option ℕ) (d : Dict ℕ Bytes) (f : ℕ) (seg : Bytes)
    → next_segment o d ≡ some (f, seg)
    → (o ≡ some f) × (get f d ≡ some seg)
unfolding next_segment
next_segment-get none d f seg h = cc
next_segment-get (some g) d f seg h = elim (Option-cases (get g d)) [
  | inl e ↦ ground arith
  | inr (x, e) ↦ (ground arith, ground arith)
]

-- A rule for the loop: what every round keeps holds at the end, and there no segment is left that
-- starts at the frontier.
pub flush_loop_rule {ℓ} :
    (P : HalfStream → Type ℓ)
    → ((hs : HalfStream) (f : ℕ) (seg : Bytes)
        → hs.frontier ≡ some f
        → get f hs.pending ≡ some seg
        → P hs
        → P (advance hs f seg))
    → (fuel : ℕ) (hs : HalfStream) → length hs.pending < fuel
    → P hs
    → P (flush_loop fuel hs)
      × (next_segment (flush_loop fuel hs).frontier (flush_loop fuel hs).pending ≡ none)
flush_loop_rule P step zero hs h p = absurd (omega arith)
flush_loop_rule P step (suc n) hs h p = elim (Option-cases (next_segment hs.frontier hs.pending)) [
  | inl e ↦ rw (flush_loop_stop (suc n) hs e) (p, e)
  | inr ((f, seg), e) ↦
      let (at, found) = next_segment-get hs.frontier hs.pending f seg e in
      rw (flush_loop_go n hs f seg e) (
        flush_loop_rule P step n (advance hs f seg)
          (unfold advance in omega (arith, length-pop-lt f seg hs.pending found))
          (step hs f seg at found p))
]

pub flush_rule {ℓ} :
    (P : HalfStream → Type ℓ)
    → ((hs : HalfStream) (f : ℕ) (seg : Bytes)
        → hs.frontier ≡ some f
        → get f hs.pending ≡ some seg
        → P hs
        → P (advance hs f seg))
    → (hs : HalfStream) → P hs
    → P (flush hs) × (next_segment (flush hs).frontier (flush hs).pending ≡ none)
unfolding flush
flush_rule P step hs p = flush_loop_rule P step (suc (length hs.pending)) hs (omega arith) p

-- The loop of `_flush` ends by its own test: no buffered segment starts at the frontier any more.
pub flush_done : (hs : HalfStream) → next_segment (flush hs).frontier (flush hs).pending ≡ none
flush_done hs = (flush_rule (λ _. Unit {0}) (λ _ _ _ _ _ _. tt) hs tt).1
