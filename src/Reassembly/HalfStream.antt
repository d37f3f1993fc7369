-- ===== src/Reassembly/HalfStream.antt =====
-- One direction of a TCP stream: `_HalfStream`, `_Stream._store` and `_Stream._flush` of
-- backend/app/parsing/reassembly.py. Times are counted in whole ticks from an epoch, so `0` is the
-- false value of the source's floats.
use cipher_post.Prelude.{
  ℕ, zero, suc, ◌+◌, ◌-◌, Bool, false, Option, none, some, [], ◌∷◌, ◌++◌, ltb, leb, ◌==◌,
  if◌then◌else◌, length, drop,
}
use cipher_post.Prelude.Bytes.{Bytes}
use cipher_post.Prelude.Classes.{nat_eq, string_eq}
use cipher_post.Prelude.Dict.{Dict, get, put, pop}

pub record HalfStream : Type 0 where
  pub base_seq : Option ℕ
  pub frontier : Option ℕ
  pub pending : Dict ℕ Bytes
  pub buf : Bytes
  pub fin_seq : Option ℕ
  pub rst : Bool
  pub first_ts : ℕ
  pub last_ts : ℕ
  pub syn_seq : Option ℕ
  pub syn_ts : ℕ
  pub first_non_syn_ts : ℕ

abbrev pub new_half : HalfStream
new_half = record {
  base_seq = none;
  frontier = none;
  pending = [];
  buf = [];
  fin_seq = none;
  rst = false;
  first_ts = 0;
  last_ts = 0;
  syn_seq = none;
  syn_ts = 0;
  first_non_syn_ts = 0;
}

-- hs.pending.get(hs.frontier): a frontier that is not set is no key.
unfoldable pub next_segment : Option ℕ → Dict ℕ Bytes → Option (ℕ × Bytes)
next_segment none pending = none
next_segment (some f) pending = elim (get f pending) [ none ↦ none | some seg ↦ some (f, seg) ]

-- The body of the loop of `_flush`, for the segment `seg` found at the frontier `f`.
unfoldable pub advance : HalfStream → ℕ → Bytes → HalfStream
advance hs f seg = record hs {
  buf = hs.buf ++ seg;
  frontier = some (f + length seg);
  pending = pop f hs.pending;
}

unfoldable pub flush_loop : ℕ → HalfStream → HalfStream
flush_loop zero hs = hs
flush_loop (suc fuel) hs = elim (next_segment hs.frontier hs.pending) [
  | none ↦ hs
  | some (f, seg) ↦ flush_loop fuel (advance hs f seg)
]

-- Each round takes a segment out of `pending`.
unfoldable pub flush : HalfStream → HalfStream
flush hs = flush_loop (suc (length hs.pending)) hs

-- The base and the frontier as `_store` sets them before it looks at the segment.
unfoldable pub base_for : HalfStream → ℕ → ℕ
base_for hs seq = elim hs.base_seq [
  | some base ↦ base
  | none ↦ elim hs.syn_seq [ some isn ↦ isn + 1 | none ↦ seq ]
]

unfoldable pub frontier_for : HalfStream → ℕ → ℕ
unfolding base_for
frontier_for hs seq = elim hs.frontier [ some f ↦ f | none ↦ base_for hs seq ]

unfoldable pub anchor : HalfStream → ℕ → ℕ → HalfStream
unfolding base_for frontier_for
anchor hs seq ts = record hs {
  first_ts = if hs.first_ts == 0 then ts else hs.first_ts;
  last_ts = ts;
  base_seq = some (base_for hs seq);
  frontier = some (frontier_for hs seq);
}

-- The rest of `_store`, with the frontier `f`: nothing of a segment that ends below it is kept,
-- and only the tail of one that starts below it.
unfoldable pub place : HalfStream → ℕ → ℕ → Bytes → HalfStream
place hs f seq bs =
    if leb (seq + length bs) f
    then hs
    else if ltb seq f
    then flush (record hs { pending = put f (drop (f - seq) bs) hs.pending })
    else flush (record hs { pending = put seq bs hs.pending })

unfoldable pub store : HalfStream → ℕ → Bytes → ℕ → HalfStream
store hs seq [] ts = hs
store hs seq (b ∷ bs) ts = place (anchor hs seq ts) (frontier_for hs seq) seq (b ∷ bs)
