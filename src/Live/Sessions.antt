-- ===== src/Live/Sessions.antt =====
-- The sessions that a sweep returns.
use cipher_post.Prelude.{
  ℕ, ◌≡◌, refl, sym, inl, inr, Option, none, some, List, [], ◌∷◌, Option-cases, All, All-append,
  All-imp,
}
use cipher_post.Prelude.Classes.{nat_eq, string_eq}
use cipher_post.Prelude.Dict.{get}
use cipher_post.Live.{
  LiveReassembler, Limits, CloseReason, by_eviction, ClosedSession, verdict, add_closing, to_close,
  emit_one, emit_all, overflow, count_evicted, add_emitted, evict_all, sweep,
}
use mathlib.Core.Path.{subst}
use cipher_post.Reassembly.Assembler.{Key, key_eq, Stream, Streams}
use cipher_post.Live.Table.{
  Stays, keys_to_close, between, between-Stays, emit_one-streams, emit_all-streams, remove-All,
  pop-All,
}
use cipher_post.Prelude.Dict.{All-get}
use cipher_post.Live.EmitOne.{closed_as, emit_one-rule}
use cipher_post.Live.Verdicts.{
  Any, here, later, Tells, Why, Explains, session_of_closed-ends, verdict-Why, verdict-Tells,
}

emit_one-Tells :
    (P : Option ClosedSession → Type 0) (key : Key) (st : Stream) (reason : CloseReason)
    (self : LiveReassembler)
    → P none
    → ((c : ClosedSession) → Tells st c → c.closed_by ≡ reason → P (some c))
    → P (emit_one key st reason self).0
emit_one-Tells P key st reason self without known =
    emit_one-rule (λ r. P r.0) key st reason self (λ _. without) without
      (λ sess f.
        known (closed_as key st reason sess self)
          (record { ends = session_of_closed-ends st sess f; size = refl }) refl)

module _ (limits : Limits) (now : ℕ) (table : Streams) where
  -- What is returned for a stream with this reason is explained by an entry of the table.
  abbrev Sound : Stream → CloseReason → Type 0
  Sound st reason =
      (c : ClosedSession) → Tells st c → c.closed_by ≡ reason → Any (Explains limits now c) table

  abbrev pub IsExplained : Option ClosedSession → Type 0
  IsExplained none = Unit
  IsExplained (some c) = Any (Explains limits now c) table

  Sound-IsExplained :
      (key : Key) (st : Stream) (reason : CloseReason) (self : LiveReassembler)
      → Sound st reason
      → IsExplained (emit_one key st reason self).0
  Sound-IsExplained key st reason self s = emit_one-Tells IsExplained key st reason self tt s

  emit_all-IsExplained :
      (es : List (Key × Stream × CloseReason)) (self : LiveReassembler)
      → All (λ e. Sound e.1 e.2) es
      → All IsExplained (emit_all es self).0
  unfolding emit_all
  emit_all-IsExplained [] self h = tt
  emit_all-IsExplained ((key, st, reason) ∷ es) self h = (
    Sound-IsExplained key st reason self h.0,
    emit_all-IsExplained es (emit_one key st reason self).1 h.1,
  )

  All-add_emitted :
      (o : Option ClosedSession) (out : List (Option ClosedSession))
      → IsExplained o
      → All IsExplained out
      → All IsExplained (add_emitted o out)
  All-add_emitted none out h k = k
  All-add_emitted (some c) out h k = (h, k)

  evict_all-IsExplained :
      (keys : List Key) (self : LiveReassembler)
      → All (λ e. Sound e.1 by_eviction) self.streams
      → All IsExplained (evict_all keys self).0
  unfolding evict_all
  evict_all-IsExplained [] self h = tt
  evict_all-IsExplained (key ∷ keys) self h = elim (Option-cases (get key self.streams)) [
    | inl e ↦ rw (e, evict_all) (evict_all-IsExplained keys (count_evicted self) h)
    | inr (st, e) ↦
        let one : Option ClosedSession × LiveReassembler =
          emit_one key st by_eviction (count_evicted self) in
        rw (e, evict_all)
          (All-add_emitted one.0 (evict_all keys one.1).0
            (Sound-IsExplained key st by_eviction (count_evicted self)
              (All-get (λ s. Sound s by_eviction) key st self.streams e h))
            (evict_all-IsExplained keys one.1 (
              subst (All (λ e. Sound e.1 by_eviction))
                (sym (emit_one-streams key st by_eviction (count_evicted self)))
                (pop-All (λ e. Sound e.1 by_eviction) key self.streams h))))
  ]

  abbrev Within : Key × Stream → Type 0
  Within e = (c : ClosedSession) → Explains limits now c e → Any (Explains limits now c) table

  All-add_closing :
      (key : Key) (st : Stream) (o : Option (Stream × CloseReason))
      (more : List (Key × Stream × CloseReason))
      → Within (key, st)
      → verdict limits now st ≡ o
      → All (λ e. Sound e.1 e.2) more
      → All (λ e. Sound e.1 e.2) (add_closing key o more)
  All-add_closing key st none more w v h = h
  All-add_closing key st (some (st2, reason)) more w v h = (
    λ c t r. w c (
      verdict-Tells limits now st st2 reason c v t,
      subst (λ k. Why limits now k st) (sym r) (verdict-Why limits now st st2 reason v),
    ),
    h,
  )

  to_close-Sound :
      (streams : Streams)
      → All Within streams
      → All (λ e. Sound e.1 e.2) (to_close limits now streams)
  unfolding to_close
  to_close-Sound [] h = tt
  to_close-Sound ((key, st) ∷ rest) h =
      All-add_closing key st (verdict limits now st) (to_close limits now rest) h.0 refl
        (to_close-Sound rest h.1)

All-Within : (limits : Limits) (now : ℕ) (table : Streams) → All (Within limits now table) table
All-Within limits now [] = tt
All-Within limits now (e ∷ rest) = (
  λ c x. here x,
  All-imp (Within limits now rest) (Within limits now (e ∷ rest)) rest (λ f w c x. later (w c x))
      (All-Within limits now rest),
)

All-both :
    (P Q : Key × Stream → Type 0) (streams : Streams)
    → All P streams
    → All Q streams
    → All (λ e. P e × Q e) streams
All-both P Q [] h k = tt
All-both P Q (e ∷ rest) h k = ((h.0, k.0), All-both P Q rest h.1 k.1)

-- Every session that a sweep returns is that of a stream of the table: one of the stream's ends is
-- its client, with all of that side's bytes, and it names the right reason. A "fin" or "rst" stream
-- was complete, without or with a reset; an "idle" one was last seen longer ago than the timeout;
-- a "cap" one had buffered more than the limit; an evicted one was none of these.
pub sweep-IsExplained :
    (limits : Limits) (now : ℕ) (self : LiveReassembler)
    → All (IsExplained limits now self.streams) (sweep limits now self).0
unfolding sweep
sweep-IsExplained limits now self =
    let es : List (Key × Stream × CloseReason) = to_close limits now self.streams in
    let first : List (Option ClosedSession) × LiveReassembler = emit_all es self in
    let keys : List Key = overflow limits.max_sessions first.1.streams in
    let within : All (Within limits now self.streams) self.streams =
      All-Within limits now self.streams in
    let left : All (λ e. Stays limits now e × Within limits now self.streams e)
        (between limits now self) =
      All-both (Stays limits now) (Within limits now self.streams) (between limits now self)
        (between-Stays limits now self)
        (remove-All (Within limits now self.streams) (keys_to_close es) self.streams within) in
    let evictable : All (λ e. Sound limits now self.streams e.1 by_eviction)
        (between limits now self) =
      All-imp (λ e. Stays limits now e × Within limits now self.streams e)
        (λ e. Sound limits now self.streams e.1 by_eviction) (between limits now self)
        (λ e h c t r. h.1 c (t, subst (λ k. Why limits now k e.1) (sym r) h.0)) left in
    All-append (IsExplained limits now self.streams) first.0 (evict_all keys first.1).0
      (emit_all-IsExplained limits now self.streams es self
        (to_close-Sound limits now self.streams self.streams within))
      (evict_all-IsExplained limits now self.streams keys first.1 (
        subst (All (λ e. Sound limits now self.streams e.1 by_eviction))
          (sym (emit_all-streams es self)) evictable))
