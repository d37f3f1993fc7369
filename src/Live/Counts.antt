-- ===== src/Live/Counts.antt =====
-- The counters and the references of the live reassembly, over any run of it.
use cipher_post.Prelude.{
  ℕ, ◌+◌, ◌≤◌, ◌≡◌, refl, ◌∙◌, ◌≢◌, inl, inr, false, Option, none, some, List, [], ◌∷◌, ◌++◌, arith,
  Option-cases,
}
use cipher_post.Prelude.Classes.{eqb, nat_eq, string_eq}
use cipher_post.Prelude.Dict.{Dict, get, get-pop}
use cipher_post.Live.{
  RawRef, ReassemblyStats, LiveReassembler, CloseReason, by_fin, by_rst, by_idle, by_cap,
  by_eviction, add_ref, feed_packet, count_close, drop_stream,
}
use cipher_post.Prelude.Dict.{get-put-none, get-put_other, get-pop-none, get-pop_keeps}
use cipher_post.Reassembly.Assembler.{
  Key, key_eq, Packet, packet_key, feed, feed_stream, is_from_a, stream_for,
}
use cipher_post.Live.Rule.{IsKept, Reach, Reach-Kept}

-- The counters agree with each other and with the number `n` of sessions that were returned.
pub record IsBalanced (n : ℕ) (s : ReassemblyStats) : Type 0 where
  pub returned : s.completed ≡ n
  pub parts : s.completed ≡ s.closed_fin + s.closed_rst + s.closed_idle + s.closed_cap
  pub cut : s.truncated ≤ s.closed_cap
  pub capped : s.closed_cap ≤ s.truncated + s.evicted

count_close-IsBalanced :
    (reason : CloseReason) (n : ℕ) (s : ReassemblyStats)
    → reason ≢ by_eviction
    → IsBalanced n s
    → IsBalanced (n + 1) (count_close reason s)
unfolding count_close
count_close-IsBalanced by_fin n s h b = ground arith
count_close-IsBalanced by_rst n s h b = ground arith
count_close-IsBalanced by_idle n s h b = ground arith
count_close-IsBalanced by_cap n s h b = ground arith
count_close-IsBalanced by_eviction n s h b = absurd (h refl)

IsBalanced-kept : IsKept (λ n self. IsBalanced n self.stats)
IsBalanced-kept = record {
  fed = λ n p ref self b. unfold feed_packet in ground arith;
  dropped = λ n key self b. b;
  closed = λ n key reason self h b. count_close-IsBalanced reason n self.stats h b;
  counted = λ n self b. ground arith;
  evicted = λ n key self b. unfold count_close in ground arith;
  active = λ n self b. ground arith;
}

-- In every state that a run of packets, sweeps and drains reaches, the number of completed
-- sessions is the number of sessions that were returned, and the sum of the counts by reason; every
-- session closed by a limit was cut at its size or belongs to an eviction.
pub Reach-IsBalanced : {n : ℕ} {self : LiveReassembler} → Reach n self → IsBalanced n self.stats
Reach-IsBalanced r =
    Reach-Kept (λ n self. IsBalanced n self.stats) IsBalanced-kept
      (record { returned = refl; parts = refl; cut = omega arith; capped = omega arith }) r

abbrev pub RefsHaveStreams : LiveReassembler → Type 0
RefsHaveStreams self = (key : Key) → get key self.streams ≡ none → get key self.refs ≡ none

add_ref-elsewhere :
    (k : Key) (ref : Option RawRef) (refs : Dict Key (List RawRef)) (key : Key)
    → eqb k key ≡ false
    → get key (add_ref k ref refs) ≡ get key refs
unfolding add_ref
add_ref-elsewhere k none refs key ne = refl
add_ref-elsewhere k (some ref) refs key ne = elim (Option-cases (get k refs)) [
  | inl e ↦ rw (e, add_ref) (get-put_other k key (ref ∷ []) refs ne)
  | inr (old, e) ↦ rw (e, add_ref) (get-put_other k key (old ++ ref ∷ []) refs ne)
]

feed_packet-RefsHaveStreams :
    (p : Packet) (ref : Option RawRef) (self : LiveReassembler)
    → RefsHaveStreams self
    → RefsHaveStreams (feed_packet p ref self)
unfolding feed_packet feed
feed_packet-RefsHaveStreams p ref self h key e =
    let (ne, absent) =
      get-put-none (packet_key p) key
        (feed_stream (is_from_a p (packet_key p)) p (stream_for p self.streams)) self.streams e in
    add_ref-elsewhere (packet_key p) ref self.refs key ne ∙ h key absent

drop_stream-RefsHaveStreams :
    (key : Key) (self : LiveReassembler)
    → RefsHaveStreams self
    → RefsHaveStreams (drop_stream key self)
drop_stream-RefsHaveStreams key self h k e = elim (get-pop-none key k self.streams e) [
  | inl same ↦ ground (arith, get-pop key k self.refs)
  | inr absent ↦ get-pop_keeps key k self.refs (h k absent)
]

refs_kept : IsKept (λ n self. RefsHaveStreams self)
refs_kept = record {
  fed = λ n p ref self h. feed_packet-RefsHaveStreams p ref self h;
  dropped = λ n key self h. drop_stream-RefsHaveStreams key self h;
  closed = λ n key reason self ne h. drop_stream-RefsHaveStreams key self h;
  counted = λ n self h. h;
  evicted = λ n key self h. drop_stream-RefsHaveStreams key self h;
  active = λ n self h. h;
}

-- In every state that a run reaches, references to raw frames are kept only for streams that are in
-- the table: a stream that is closed, evicted or of an unknown protocol leaves none behind.
pub Reach-RefsHaveStreams :
    {n : ℕ} {self : LiveReassembler}
    → Reach n self
    → (key : Key) → get key self.streams ≡ none
    → get key self.refs ≡ none
unfolding get
Reach-RefsHaveStreams r = Reach-Kept (λ n self. RefsHaveStreams self) refs_kept (λ key e. refl) r
