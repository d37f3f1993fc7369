-- ===== src/Reassembly/Genuine.antt =====
-- What reassembly emits is what the stream holds, whatever overlaps and repeats; and one way in
-- which bytes that have arrived are not emitted.
use mathlib.Core.Path.{subst}
use native.Mathlib.Nat.{add-zero}
use cipher_post.Prelude.{
  ℕ, zero, suc, ◌+◌, ◌-◌, ◌≡◌, refl, sym, inl, inr, none, some, List, [], ◌∷◌, ◌++◌, arith, ltb,
  leb, ◌==◌, ==_iff, Bool-cases, Option-cases, length, drop, All, length-append,
}
use cipher_post.Prelude.Bytes.{Bytes}
use cipher_post.Prelude.Classes.{nat_eq, string_eq}
use cipher_post.Prelude.Dict.{get, put, get-put, get-pop}
use cipher_post.Reassembly.HalfStream.{
  HalfStream, advance, flush, base_for, frontier_for, anchor, place, store,
}
use cipher_post.Reassembly.Flush.{flush_rule}
use cipher_post.Reassembly.Order.{Arrival, store_all}
use cipher_post.Reassembly.Complete.{opened}

-- `bs` is what the stream `wire` holds at the sequence numbers from `p` on.
abbrev pub Reads : (ℕ → ℕ) → ℕ → Bytes → Type 0
Reads wire p [] = Unit
Reads wire p (x ∷ xs) = (x ≡ wire p) × Reads wire (suc p) xs

Reads-append :
    (wire : ℕ → ℕ) (p : ℕ) (xs ys : Bytes)
    → Reads wire p xs
    → Reads wire (p + length xs) ys
    → Reads wire p (xs ++ ys)
Reads-append w p [] ys h k = rw add-zero at k
Reads-append w p (x ∷ xs) ys h k =
    (h.0, Reads-append w (suc p) xs ys h.1 (subst (λ n. Reads w n ys) (omega arith) k))

Reads-drop :
    (wire : ℕ → ℕ) (p n : ℕ) (xs : Bytes) → Reads wire p xs → Reads wire (p + n) (drop n xs)
Reads-drop w p zero xs h = rw add-zero h
Reads-drop w p (suc n) [] h = tt
Reads-drop w p (suc n) (x ∷ xs) h =
    subst (λ k. Reads w k (drop n xs)) (omega arith) (Reads-drop w (suc p) n xs h.1)

-- Everything that is emitted or waits is read off `wire`, and the buffer has no gap: it runs from
-- the base up to the frontier.
pub record IsGenuine (wire : ℕ → ℕ) (hs : HalfStream) : Type 0 where
  pub waiting : (s : ℕ) (d : Bytes) → get s hs.pending ≡ some d → Reads wire s d
  pub emitted :
      (f : ℕ)
      → hs.frontier ≡ some f
      → (b : ℕ) × (hs.base_seq ≡ some b) × (f ≡ b + length hs.buf) × Reads wire b hs.buf
  pub fresh : hs.frontier ≡ none → (hs.buf ≡ []) × (hs.base_seq ≡ none)

module _ (wire : ℕ → ℕ) where
  advance-IsGenuine :
      (hs : HalfStream) (f : ℕ) (seg : Bytes)
      → hs.frontier ≡ some f
      → get f hs.pending ≡ some seg
      → IsGenuine wire hs
      → IsGenuine wire (advance hs f seg)
  unfolding advance
  advance-IsGenuine hs f seg at found g =
      let (b, base, len, reads) = g.emitted f at in
      record {
        waiting = λ s d h. g.waiting s d (ground (arith, get-pop f s hs.pending));
        emitted = λ f' e. (
          b,
          base,
          ground (arith, length-append hs.buf seg),
          Reads-append wire b hs.buf seg reads
              (subst (λ n. Reads wire n seg) len (g.waiting f seg found)),
        );
        fresh = λ e. cc;
      }

  put-IsGenuine :
      (hs : HalfStream) (s : ℕ) (d : Bytes)
      → Reads wire s d
      → IsGenuine wire hs
      → IsGenuine wire (record hs { pending = put s d hs.pending })
  put-IsGenuine hs s d r g = record {
    waiting = λ s' d' h. elim (Bool-cases (s == s')) [
      | inl e ↦
          subst (λ n. Reads wire n d') ((==_iff s s').0 e)
            (subst (Reads wire s) (ground (arith, get-put s s' d hs.pending)) r)
      | inr e ↦ g.waiting s' d' (ground (arith, get-put s s' d hs.pending))
    ];
    emitted = g.emitted;
    fresh = g.fresh;
  }

  flush-IsGenuine : (hs : HalfStream) → IsGenuine wire hs → IsGenuine wire (flush hs)
  flush-IsGenuine hs g = (flush_rule (IsGenuine wire) advance-IsGenuine hs g).0

  anchor-IsGenuine :
      (hs : HalfStream) (seq ts : ℕ) → IsGenuine wire hs → IsGenuine wire (anchor hs seq ts)
  unfolding anchor frontier_for base_for
  anchor-IsGenuine hs seq ts g = elim (Option-cases hs.frontier) [
    | inl e ↦ record {
      waiting = g.waiting;
      emitted = λ f at. (
        base_for hs seq,
        refl,
        ground (arith, g.fresh e),
        subst (Reads wire (base_for hs seq)) (sym (g.fresh e).0) tt,
      );
      fresh = λ k. cc;
    }
    | inr (f₀, e) ↦
        (let (b, base, len, reads) = g.emitted f₀ e in
          record {
            waiting = g.waiting;
            emitted = λ f at. (b, ground arith, ground arith, reads);
            fresh = λ k. cc;
          })
  ]

  place-IsGenuine :
      (hs : HalfStream) (f seq : ℕ) (bs : Bytes)
      → Reads wire seq bs
      → IsGenuine wire hs
      → IsGenuine wire (place hs f seq bs)
  unfolding place
  place-IsGenuine hs f seq bs r g = elim (Bool-cases (leb (seq + length bs) f)) [
    | inl e ↦ rw e g
    | inr e ↦ elim (Bool-cases (ltb seq f)) [
      | inl k ↦
          rw (e, k)
            (flush-IsGenuine (record hs { pending = put f (drop (f - seq) bs) hs.pending })
              (put-IsGenuine hs f (drop (f - seq) bs)
                (subst (λ n. Reads wire n (drop (f - seq) bs)) (ground arith)
                  (Reads-drop wire seq (f - seq) bs r))
                g))
      | inr k ↦
          rw (e, k)
            (flush-IsGenuine (record hs { pending = put seq bs hs.pending })
              (put-IsGenuine hs seq bs r g))
    ]
  ]

  store-IsGenuine :
      (hs : HalfStream) (seq : ℕ) (bs : Bytes) (ts : ℕ)
      → Reads wire seq bs
      → IsGenuine wire hs
      → IsGenuine wire (store hs seq bs ts)
  unfolding store
  store-IsGenuine hs seq [] ts r g = g
  store-IsGenuine hs seq (x ∷ bs) ts r g =
      place-IsGenuine (anchor hs seq ts) (frontier_for hs seq) seq (x ∷ bs) r
        (anchor-IsGenuine hs seq ts g)

  -- Let every segment that arrives be read off the stream, with any overlaps, gaps, repeats and
  -- order. Then what is emitted is the stream's contents from the base to the frontier.
  pub store_all-IsGenuine :
      (hs : HalfStream) (arrivals : List Arrival)
      → IsGenuine wire hs
      → All (λ a. Reads wire a.seq a.payload) arrivals
      → IsGenuine wire (store_all hs arrivals)
  store_all-IsGenuine hs [] g r = g
  store_all-IsGenuine hs (a ∷ more) g r =
      store_all-IsGenuine (store hs a.seq a.payload a.ts) more
        (store-IsGenuine hs a.seq a.payload a.ts r.0 g) r.1

  pub opened-IsGenuine : (isn ts : ℕ) → IsGenuine wire (opened isn ts)
  unfolding get
  opened-IsGenuine isn ts = record {
    waiting = λ s d h. cc;
    emitted = λ f e. cc;
    fresh = λ e. (refl, refl);
  }
