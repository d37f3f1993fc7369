-- ===== src/Live/Table.antt =====
-- The table of streams after a sweep.
use cipher_post.Prelude.{
  ℕ, ◌+◌, ◌-◌, ◌≤◌, ◌≡◌, refl, sym, ap, ◌∙◌, ◌⊎◌, inl, inr, true, false, not, ◌&&◌, Option, none,
  some, List, [], ◌∷◌, map, arith, ltb, ◌==◌, Bool-cases, Option-cases, length, take, All, All-imp,
}
use cipher_post.Prelude.Classes.{eqb, eqb_refl, nat_eq, string_eq}
use cipher_post.Prelude.Dict.{get, pop}
use cipher_post.Live.{
  LiveReassembler, Limits, CloseReason, by_eviction, last_seen, buffered, verdict, add_closing,
  to_close, emit_one, emit_all, active_keys, first_ts_of, overflow, count_evicted, evict_all, sweep,
}
use mathlib.Core.Path.{subst}
use cipher_post.Prelude.Dict.{pop_missing}
use cipher_post.Prelude.Sort.{count, sorted}
use cipher_post.Prelude.Removal.{
  member, count-outside, remove, All-remove, length-remove, count-keys,
}
use cipher_post.Reassembly.Assembler.{Key, key_eq, Stream, Streams}
use cipher_post.Live.EmitOne.{emit_one-rule}

pub emit_one-streams :
    (key : Key) (st : Stream) (reason : CloseReason) (self : LiveReassembler)
    → (emit_one key st reason self).1.streams ≡ pop key self.streams
emit_one-streams key st reason self =
    emit_one-rule (λ r. r.1.streams ≡ pop key self.streams) key st reason self
      (λ e. sym (pop_missing key self.streams e)) refl (λ sess f. refl)

abbrev pub keys_to_close : List (Key × Stream × CloseReason) → List Key
keys_to_close = map (λ e. e.0)

pub emit_all-streams :
    (es : List (Key × Stream × CloseReason)) (self : LiveReassembler)
    → (emit_all es self).1.streams ≡ remove (keys_to_close es) self.streams
unfolding emit_all remove
emit_all-streams [] self = refl
emit_all-streams ((key, st, reason) ∷ es) self =
    emit_all-streams es (emit_one key st reason self).1
    ∙ ap (λ s. remove (keys_to_close es) s) (emit_one-streams key st reason self)

evict_all-streams :
    (keys : List Key) (self : LiveReassembler)
    → (evict_all keys self).1.streams ≡ remove keys self.streams
unfolding evict_all remove
evict_all-streams [] self = refl
evict_all-streams (key ∷ keys) self = elim (Option-cases (get key self.streams)) [
  | inl e ↦
      rw (e, evict_all)
        (evict_all-streams keys (count_evicted self)
          ∙ ap (λ s. remove keys s) (sym (pop_missing key self.streams e)))
  | inr (st, e) ↦
      rw (e, evict_all)
        (evict_all-streams keys (emit_one key st by_eviction (count_evicted self)).1
          ∙ ap (λ s. remove keys s) (emit_one-streams key st by_eviction (count_evicted self)))
]

-- Nothing that a sweep looks at closes the stream.
abbrev pub Stays : Limits → ℕ → Key × Stream → Type 0
Stays limits now e = verdict limits now e.1 ≡ none

add_closing-member :
    (key : Key) (o : Option (Stream × CloseReason)) (more : List (Key × Stream × CloseReason))
    → (o ≡ none) ⊎ (member key (keys_to_close (add_closing key o more)) ≡ true)
unfolding member
add_closing-member key none more = inl refl
add_closing-member key (some (st, reason)) more = inr (ground (arith, eqb_refl key))

add_closing-more :
    (key j : Key) (o : Option (Stream × CloseReason)) (more : List (Key × Stream × CloseReason))
    → member j (keys_to_close more) ≡ true
    → member j (keys_to_close (add_closing key o more)) ≡ true
unfolding member
add_closing-more key j none more h = h
add_closing-more key j (some (st, reason)) more h = ground arith

to_close-covers :
    (limits : Limits) (now : ℕ) (streams : Streams)
    → All
        (λ e.
          Stays limits now e ⊎ (member e.0 (keys_to_close (to_close limits now streams)) ≡ true))
        streams
unfolding to_close
to_close-covers limits now [] = tt
to_close-covers limits now ((key, st) ∷ rest) =
    let more : List (Key × Stream × CloseReason) = to_close limits now rest in
    let o : Option (Stream × CloseReason) = verdict limits now st in
    (
      add_closing-member key o more,
      All-imp (λ e. Stays limits now e ⊎ (member e.0 (keys_to_close more) ≡ true))
          (λ e. Stays limits now e ⊎ (member e.0 (keys_to_close (add_closing key o more)) ≡ true))
          rest (λ e h. elim h [ inl s ↦ inl s | inr m ↦ inr (add_closing-more key e.0 o more m) ])
          (to_close-covers limits now rest),
    )

-- The table between the two loops of a sweep.
abbrev pub between : Limits → ℕ → LiveReassembler → Streams
between limits now self = remove (keys_to_close (to_close limits now self.streams)) self.streams

pub between-Stays :
    (limits : Limits) (now : ℕ) (self : LiveReassembler)
    → All (Stays limits now) (between limits now self)
between-Stays limits now self =
    All-remove (Stays limits now) (keys_to_close (to_close limits now self.streams)) self.streams
      (to_close-covers limits now self.streams)

sweep-streams :
    (limits : Limits) (now : ℕ) (self : LiveReassembler)
    → (sweep limits now self).1.streams
      ≡ remove (overflow limits.max_sessions (between limits now self)) (between limits now self)
unfolding sweep
sweep-streams limits now self =
    let first : LiveReassembler = (emit_all (to_close limits now self.streams) self).1 in
    evict_all-streams (overflow limits.max_sessions first.streams) first
    ∙ ap (λ s. remove (overflow limits.max_sessions s) s)
        (emit_all-streams (to_close limits now self.streams) self)

-- The stream is not closed by its marks, was seen within the timeout or never, and its buffers are
-- within the limit.
pub record IsOpen (limits : Limits) (now : ℕ) (st : Stream) : Type 0 where
  pub incomplete : st.complete ≡ false
  pub recent : (last_seen st ≡ 0) ⊎ (now ≤ last_seen st + limits.idle_timeout)
  pub small : buffered st ≤ limits.max_buffer_bytes

recently :
    (seen timeout now : ℕ)
    → (not (seen == 0) && ltb (seen + timeout) now) ≡ false
    → (seen ≡ 0) ⊎ (now ≤ seen + timeout)
recently seen timeout now h = ground arith

Stays-IsOpen :
    (limits : Limits) (now : ℕ) (e : Key × Stream) → Stays limits now e → IsOpen limits now e.1
unfolding verdict
Stays-IsOpen limits now (key, st) h = record {
  incomplete = ground arith;
  recent = recently (last_seen st) limits.idle_timeout now (ground arith);
  small = ground arith;
}

active_keys-All :
    (streams : Streams)
    → All (λ e. e.1.complete ≡ false) streams
    → active_keys streams ≡ map (λ e. e.0) streams
unfolding active_keys
active_keys-All [] h = refl
active_keys-All ((key, st) ∷ rest) h = rw (h.0, active_keys-All rest h.1) refl

-- Evicting the overflow leaves at most `n` streams of a table in which none is complete.
length-evicted :
    (n : ℕ) (streams : Streams)
    → All (λ e. e.1.complete ≡ false) streams
    → length (remove (overflow n streams) streams) ≤ n
unfolding overflow
length-evicted n streams h =
    let keys : List Key = map (λ e. e.0) streams in
    let over : List Key = take (length keys - n) (sorted (first_ts_of streams) keys) in
    let all : overflow n streams ≡ over =
      ap (λ ks. take (length ks - n) (sorted (first_ts_of streams) ks))
        (active_keys-All streams h) in
    let left : length (remove over streams) ≡ count (λ k. not (member k over)) keys =
      length-remove over streams ∙ sym (count-keys (λ k. not (member k over)) streams) in
    subst (λ ks. length (remove ks streams) ≤ n) (sym all)
      (omega (arith, left, count-outside (first_ts_of streams) (length keys - n) keys))

pub pop-All :
    (P : Key × Stream → Type 0) (key : Key) (streams : Streams)
    → All P streams
    → All P (pop key streams)
unfolding pop
pop-All P key [] h = tt
pop-All P key ((j, st) ∷ rest) h = elim (Bool-cases (eqb j key)) [
  | inl e ↦ rw e (pop-All P key rest h.1)
  | inr e ↦ rw e (h.0, pop-All P key rest h.1)
]

pub remove-All :
    (P : Key × Stream → Type 0) (keys : List Key) (streams : Streams)
    → All P streams
    → All P (remove keys streams)
unfolding remove
remove-All P [] streams h = h
remove-All P (key ∷ keys) streams h = remove-All P keys (pop key streams) (pop-All P key streams h)

-- After a sweep the table holds at most `max_sessions` streams, and each of them is incomplete, has
-- been seen within the timeout or never, and has in its two buffers at most `max_buffer_bytes`
-- bytes, where only bytes in order are counted: segments that wait behind a gap are not.
pub sweep-IsOpen :
    (limits : Limits) (now : ℕ) (self : LiveReassembler)
    → let after = (sweep limits now self).1.streams in
      (length after ≤ limits.max_sessions) × All (λ e. IsOpen limits now e.1) after
sweep-IsOpen limits now self =
    let mid : Streams = between limits now self in
    let over : List Key = overflow limits.max_sessions mid in
    let fine : All (λ e. IsOpen limits now e.1) mid =
      All-imp (Stays limits now) (λ e. IsOpen limits now e.1) mid (Stays-IsOpen limits now)
        (between-Stays limits now self) in
    subst (λ s. (length s ≤ limits.max_sessions) × All (λ e. IsOpen limits now e.1) s)
      (sym (sweep-streams limits now self))
      (
        length-evicted limits.max_sessions mid (
            All-imp (λ e. IsOpen limits now e.1) (λ e. e.1.complete ≡ false) mid
              (λ e o. o.incomplete) fine),
        remove-All (λ e. IsOpen limits now e.1) over mid fine,
      )
