-- ===== src/Live/Verdicts.antt =====
-- Why a sweep closes a stream, and what the session of a closed stream tells of it.
use cipher_post.Prelude.{
  ℕ, ◌+◌, ◌<◌, ◌≡◌, ◌⊎◌, inl, inr, true, false, ◌||◌, none, some, ◌∷◌, arith, Bool-cases,
}
use cipher_post.Prelude.Classes.{nat_eq, string_eq}
use cipher_post.Live.{
  Limits, CloseReason, by_fin, by_rst, by_idle, by_cap, by_eviction, ClosedSession, close_reason,
  last_seen, buffered, set_rst, verdict, session_of_closed,
}
use mathlib.Core.Path.{subst}
use cipher_post.Reassembly.Session.{Session}
use cipher_post.Reassembly.Assembler.{Key, key_eq, Stream, Streams, client_is_a}
use cipher_post.Reassembly.Emission.{FromA, FromB, classify-HasEnds}

-- Some entry of the table satisfies the predicate.
pub data Any (P : Key × Stream → Type 0) : Streams → Type 0 where
  here : {e : Key × Stream} {rest : Streams} → P e → Any P (e ∷ rest)
  later : {e : Key × Stream} {rest : Streams} → Any P rest → Any P (e ∷ rest)

-- The session is that of the stream, with its client side's bytes, and says how many bytes both
-- sides had.
pub record Tells (st : Stream) (c : ClosedSession) : Type 0 where
  pub ends : FromA st c.session ⊎ FromB st c.session
  pub size : c.tracked_bytes ≡ buffered st

-- Why a sweep closes a stream.
abbrev pub Why : Limits → ℕ → CloseReason → Stream → Type 0
Why limits now by_fin st = (st.complete ≡ true) × ((st.ha.rst || st.hb.rst) ≡ false)
Why limits now by_rst st = (st.complete ≡ true) × ((st.ha.rst || st.hb.rst) ≡ true)
Why limits now by_idle st = (st.complete ≡ false) × (last_seen st + limits.idle_timeout < now)
Why limits now by_cap st = (st.complete ≡ false) × (limits.max_buffer_bytes < buffered st)
Why limits now by_eviction st = verdict limits now st ≡ none

abbrev pub Explains : Limits → ℕ → ClosedSession → Key × Stream → Type 0
Explains limits now c e = Tells e.1 c × Why limits now c.closed_by e.1

pub session_of_closed-ends :
    (st : Stream) (sess : Session)
    → session_of_closed st ≡ some sess
    → FromA st sess ⊎ FromB st sess
session_of_closed-ends st sess h = elim (Bool-cases (client_is_a st)) [
  | inl e ↦ inl (
      classify-HasEnds st.ip_a st.port_a st.ip_b st.port_b st.first_ts (last_seen st) st.ha.buf
        st.hb.buf sess (unfold session_of_closed in ground arith))
  | inr e ↦ inr (
      classify-HasEnds st.ip_b st.port_b st.ip_a st.port_a st.first_ts (last_seen st) st.hb.buf
        st.ha.buf sess (unfold session_of_closed in ground arith))
]

pub verdict-Why :
    (limits : Limits) (now : ℕ) (st st2 : Stream) (reason : CloseReason)
    → verdict limits now st ≡ some (st2, reason)
    → Why limits now reason st
unfolding verdict close_reason
verdict-Why limits now st st2 by_fin v = ground arith
verdict-Why limits now st st2 by_rst v = ground arith
verdict-Why limits now st st2 by_idle v = ground arith
verdict-Why limits now st st2 by_cap v = ground arith
verdict-Why limits now st st2 by_eviction v = absurd (ground arith)

-- The stream that a verdict passes on differs from the one that it is about in its marks only.
pub verdict-Tells :
    (limits : Limits) (now : ℕ) (st st2 : Stream) (reason : CloseReason) (c : ClosedSession)
    → verdict limits now st ≡ some (st2, reason)
    → Tells st2 c
    → Tells st c
unfolding verdict set_rst
verdict-Tells limits now st st2 reason c v t = elim (same limits now st st2 reason v) [
  | inl e ↦ subst (λ s. Tells s c) e t
  | inr e ↦ marks st c (subst (λ s. Tells s c) e t)
]
  where
    same :
        (limits : Limits) (now : ℕ) (st st2 : Stream) (reason : CloseReason)
        → verdict limits now st ≡ some (st2, reason)
        → (st2 ≡ st) ⊎ (st2 ≡ set_rst st)
    same limits now st st2 reason v = ground arith

    marks : (st : Stream) (c : ClosedSession) → Tells (set_rst st) c → Tells st c
    marks st c t = unfold set_rst in record { ends = t.ends; size = t.size }
