-- ===== src/Live/Rule.antt =====
-- The rule for invariants of the live reassembly: what the single changes of a sweep preserve, the
-- sweep, the drain and every run of the operations preserve.
use cipher_post.Prelude.{
  ℕ, ◌+◌, ◌≡◌, refl, ◌≢◌, inl, inr, Option, none, some, List, [], ◌∷◌, ◌++◌, arith, Bool-cases,
  Option-cases, All,
}
use cipher_post.Prelude.Classes.{nat_eq, string_eq}
use cipher_post.Prelude.Dict.{get}
use cipher_post.Live.{
  RawRef, LiveReassembler, new_reassembler, Limits, CloseReason, by_eviction, ClosedSession,
  feed_packet, close_reason, verdict, add_closing, to_close, count_close, drop_stream, emit_one,
  emit_all, overflow, count_evicted, add_emitted, evict_all, set_active, sweep, drain_loop, drain,
}
use mathlib.Core.Path.{subst}
use cipher_post.Prelude.Sort.{count, count-append}
use cipher_post.Reassembly.Assembler.{Key, key_eq, Stream, Streams, Packet, is_some}
use cipher_post.Live.EmitOne.{emit_one-rule}

-- How many sessions a list of results holds.
abbrev pub emitted : List (Option ClosedSession) → ℕ
emitted = count is_some

-- The state once the session of `key` is returned.
abbrev pub close_stream : Key → CloseReason → LiveReassembler → LiveReassembler
close_stream key reason self = record (drop_stream key self) {
  stats = count_close reason self.stats;
}

-- An invariant over the number of sessions that were returned so far, and the state.
pub record IsKept (I : ℕ → LiveReassembler → Type 0) : Type 0 where
  pub fed :
      (n : ℕ) (p : Packet) (ref : Option RawRef) (self : LiveReassembler)
      → I n self
      → I n (feed_packet p ref self)
  pub dropped : (n : ℕ) (key : Key) (self : LiveReassembler) → I n self → I n (drop_stream key self)
  pub closed :
      (n : ℕ) (key : Key) (reason : CloseReason) (self : LiveReassembler)
      → reason ≢ by_eviction
      → I n self
      → I (n + 1) (close_stream key reason self)
  pub counted : (n : ℕ) (self : LiveReassembler) → I n self → I n (count_evicted self)
  pub evicted :
      (n : ℕ) (key : Key) (self : LiveReassembler)
      → I n self
      → I (n + 1) (close_stream key by_eviction (count_evicted self))
  pub active : (n : ℕ) (self : LiveReassembler) → I n self → I n (set_active self)

abbrev results : Option ClosedSession → ℕ
results sess = emitted (sess ∷ [])

verdict_reason :
    (limits : Limits) (now : ℕ) (st st2 : Stream) (reason : CloseReason)
    → verdict limits now st ≡ some (st2, reason)
    → reason ≢ by_eviction
unfolding verdict close_reason
verdict_reason limits now st st2 reason h e = ground arith

natural_reason : (st : Stream) → close_reason st ≢ by_eviction
unfolding close_reason
natural_reason st e = ground arith

add_closing-reasons :
    (key : Key) (o : Option (Stream × CloseReason)) (more : List (Key × Stream × CloseReason))
    → ((st : Stream) (reason : CloseReason) → o ≡ some (st, reason) → reason ≢ by_eviction)
    → All (λ e. e.2 ≢ by_eviction) more
    → All (λ e. e.2 ≢ by_eviction) (add_closing key o more)
add_closing-reasons key none more h k = k
add_closing-reasons key (some (st, reason)) more h k = (h st reason refl, k)

to_close-reasons :
    (limits : Limits) (now : ℕ) (streams : Streams)
    → All (λ e. e.2 ≢ by_eviction) (to_close limits now streams)
unfolding to_close
to_close-reasons limits now [] = tt
to_close-reasons limits now ((key, st) ∷ rest) =
    add_closing-reasons key (verdict limits now st) (to_close limits now rest)
      (verdict_reason limits now st) (to_close-reasons limits now rest)

emitted-add :
    (o : Option ClosedSession) (out : List (Option ClosedSession))
    → emitted (add_emitted o out) ≡ results o + emitted out
unfolding count
emitted-add none out = omega arith
emitted-add (some sess) out = omega arith

module _ (I : ℕ → LiveReassembler → Type 0) (kept : IsKept I) where
  none_more : (n : ℕ) (self : LiveReassembler) → I n self → I (n + 0) self
  none_more n self i = let e : n ≡ n + 0 = omega arith in subst (λ k. I k self) e i

  abbrev Kept : ℕ → List (Option ClosedSession) × LiveReassembler → Type 0
  Kept n r = I (n + emitted r.0) r.1

  emit_one-Kept :
      (n : ℕ) (key : Key) (st : Stream) (reason : CloseReason) (self : LiveReassembler)
      → reason ≢ by_eviction
      → I n self
      → I (n + results (emit_one key st reason self).0) (emit_one key st reason self).1
  unfolding count
  emit_one-Kept n key st reason self h i =
      emit_one-rule (λ r. I (n + results r.0) r.1) key st reason self (λ _. none_more n self i)
        (none_more n (drop_stream key self) (kept.dropped n key self i))
        (λ sess _. kept.closed n key reason self h i)

  evict_one-Kept :
      (n : ℕ) (key : Key) (st : Stream) (self : LiveReassembler)
      → I n self
      → let r = emit_one key st by_eviction (count_evicted self) in I (n + results r.0) r.1
  unfolding count
  evict_one-Kept n key st self i =
      emit_one-rule (λ r. I (n + results r.0) r.1) key st by_eviction (count_evicted self)
        (λ _. none_more n (count_evicted self) (kept.counted n self i))
        (none_more n (drop_stream key (count_evicted self))
          (kept.dropped n key (count_evicted self) (kept.counted n self i)))
        (λ sess _. kept.evicted n key self i)

  emit_all-Kept :
      (n : ℕ) (es : List (Key × Stream × CloseReason)) (self : LiveReassembler)
      → All (λ e. e.2 ≢ by_eviction) es
      → I n self
      → Kept n (emit_all es self)
  unfolding emit_all count
  emit_all-Kept n [] self h i = none_more n self i
  emit_all-Kept n ((key, st, reason) ∷ es) self h i =
      let one : Option ClosedSession × LiveReassembler = emit_one key st reason self in
      let rest : List (Option ClosedSession) × LiveReassembler = emit_all es one.1 in
      let e : (n + results one.0) + emitted rest.0 ≡ n + emitted (one.0 ∷ rest.0) =
        omega (arith, count-append is_some (one.0 ∷ []) rest.0) in
      subst (λ k. I k rest.1) e
        (emit_all-Kept (n + results one.0) es one.1 h.1 (emit_one-Kept n key st reason self h.0 i))

  evict_all-Kept :
      (n : ℕ) (keys : List Key) (self : LiveReassembler) → I n self → Kept n (evict_all keys self)
  unfolding evict_all count
  evict_all-Kept n [] self i = none_more n self i
  evict_all-Kept n (key ∷ keys) self i = elim (Option-cases (get key self.streams)) [
    | inl e ↦ rw (e, evict_all) (evict_all-Kept n keys (count_evicted self) (kept.counted n self i))
    | inr (st, e) ↦
        let one : Option ClosedSession × LiveReassembler =
          emit_one key st by_eviction (count_evicted self) in
        let rest : List (Option ClosedSession) × LiveReassembler = evict_all keys one.1 in
        let sum : (n + results one.0) + emitted rest.0 ≡ n + emitted (add_emitted one.0 rest.0) =
          omega (arith, emitted-add one.0 rest.0) in
        rw (e, evict_all)
          (subst (λ k. I k rest.1) sum
            (evict_all-Kept (n + results one.0) keys one.1 (evict_one-Kept n key st self i)))
  ]

  pub sweep-Kept :
      (n : ℕ) (limits : Limits) (now : ℕ) (self : LiveReassembler)
      → I n self
      → I (n + emitted (sweep limits now self).0) (sweep limits now self).1
  unfolding sweep
  sweep-Kept n limits now self i =
      let one : List (Option ClosedSession) × LiveReassembler =
        emit_all (to_close limits now self.streams) self in
      let two : List (Option ClosedSession) × LiveReassembler =
        evict_all (overflow limits.max_sessions one.1.streams) one.1 in
      let sum : (n + emitted one.0) + emitted two.0 ≡ n + emitted (one.0 ++ two.0) =
        omega (arith, count-append is_some one.0 two.0) in
      subst (λ k. I k (set_active two.1)) sum
        (kept.active ((n + emitted one.0) + emitted two.0) two.1 (
          evict_all-Kept (n + emitted one.0) (overflow limits.max_sessions one.1.streams) one.1 (
            emit_all-Kept n (to_close limits now self.streams) self
              (to_close-reasons limits now self.streams) i)))

  drain_loop-Kept :
      (n : ℕ) (streams : Streams) (self : LiveReassembler)
      → I n self
      → Kept n (drain_loop streams self)
  unfolding drain_loop count emit_one
  drain_loop-Kept n [] self i = none_more n self i
  drain_loop-Kept n ((key, st) ∷ rest) self i = elim (Bool-cases st.complete) [
    | inr e ↦ rw (e, drain_loop) (drain_loop-Kept n rest self i)
    | inl e ↦
        let one : Option ClosedSession × LiveReassembler = emit_one key st (close_reason st) self in
        let more : List (Option ClosedSession) × LiveReassembler = drain_loop rest one.1 in
        let sum : (n + results one.0) + emitted more.0 ≡ n + emitted (add_emitted one.0 more.0) =
          omega (arith, emitted-add one.0 more.0) in
        rw (e, drain_loop)
          (subst (λ k. I k more.1) sum
            (drain_loop-Kept (n + results one.0) rest one.1
              (emit_one-Kept n key st (close_reason st) self (natural_reason st) i)))
  ]

  pub drain-Kept :
      (n : ℕ) (self : LiveReassembler) → I n self → I (n + emitted (drain self).0) (drain self).1
  unfolding drain
  drain-Kept n self i =
      let one : List (Option ClosedSession) × LiveReassembler = drain_loop self.streams self in
      kept.active (n + emitted one.0) one.1 (drain_loop-Kept n self.streams self i)

-- The states that a run of the operations reaches, with the number of sessions returned so far.
pub data Reach : ℕ → LiveReassembler → Type 0 where
  start : Reach 0 new_reassembler
  feeds :
      {n : ℕ} {self : LiveReassembler}
      → Reach n self
      → (p : Packet) (ref : Option RawRef) → Reach n (feed_packet p ref self)
  sweeps :
      {n : ℕ} {self : LiveReassembler}
      → Reach n self
      → (limits : Limits) (now : ℕ)
      → Reach (n + emitted (sweep limits now self).0) (sweep limits now self).1
  drains :
      {n : ℕ} {self : LiveReassembler}
      → Reach n self
      → Reach (n + emitted (drain self).0) (drain self).1

pub Reach-Kept :
    (I : ℕ → LiveReassembler → Type 0)
    → IsKept I
    → I 0 new_reassembler
    → {n : ℕ} {self : LiveReassembler} → Reach n self
    → I n self
Reach-Kept I kept i start = i
Reach-Kept I kept i (feeds {n} {self} r p ref) = kept.fed n p ref self (Reach-Kept I kept i r)
Reach-Kept I kept i (sweeps {n} {self} r limits now) =
    sweep-Kept I kept n limits now self (Reach-Kept I kept i r)
Reach-Kept I kept i (drains {n} {self} r) = drain-Kept I kept n self (Reach-Kept I kept i r)
