-- ===== src/Publisher.antt =====
-- The bounded publisher of the capture path (ResilientPublisher of backend/app/live/streams.py).
-- Whether Redis takes an entry is an argument: the answer to each attempt. The stream is the same
-- for all entries, and the pauses between attempts have no effect on the state.
pub mod Order
mod Tests
use cipher_post.Prelude.{
  ℕ, zero, suc, ◌+◌, ◌-◌, ◌*◌, ◌/◌, ◌%◌, ◌^◌, ◌≤◌, ◌<◌, min, max, ◌≡◌, refl, sym, ap, ◌∙◌, ◌≢◌, ◌↔◌,
  ◌⊎◌, inl, inr, Bool, true, false, not, ◌&&◌, ◌||◌, Option, none, some, List, [], ◌∷◌, ◌++◌, map,
  append-nil, append_assoc, arith, ltb, leb, ◌==◌, if◌then◌else◌, ltb→lt, lt→ltb, ge→ltb, leb→le,
  ==_iff, ==_refl, Bool-cases, Option-cases, length, get_elem?, take, drop, All, length-append,
  take-append-drop, length-take, length-drop, take-append, drop-append, drop_all, All-append,
  All-drop, All-take, All-imp,
}
use cipher_post.Prelude.Bytes.{Bytes, IsBytes, codes, bytes_eq, bytes_eq_refl, bytes_eq→eq}
use cipher_post.Prelude.Bytes.{
  starts_with, find_at, find, find_from, contains, upper_byte, Occurs, find_at-Occurs,
  starts_with-append,
}
use cipher_post.Prelude.Classes.{Eq, eqb, eqb_refl, nat_eq, string_eq}
use cipher_post.Prelude.Dict.{
  Dict, get, put, pop, get-put, get-pop, length-pop-le, length-pop-lt, get-put_self, get-pop_self,
}

pub record ResilientPublisher {ℓ} (A : Type ℓ) : Type ℓ where
  pub max_buffer : ℕ
  pub buf : List A
  pub dropped : ℕ

-- The attempts for one entry: whether one of them succeeds, and the answers that are left.
unfoldable pub attempts : ℕ → List Bool → Bool × List Bool
attempts zero answers = (false, answers)
attempts (suc n) [] = (false, [])
attempts (suc n) (true ∷ answers) = (true, answers)
attempts (suc n) (false ∷ answers) = attempts n answers

module _ {ℓ} {A : Type ℓ} where
  -- deque.popleft(), which raises an error if it is empty
  abbrev pub popleft : List A → Option (List A)
  popleft [] = none
  popleft (x ∷ xs) = some xs

  -- The branch of `publish` on an exception. `none` is the error of an empty deque.
  unfoldable pub buffer_entry : A → ResilientPublisher A → Option (ResilientPublisher A)
  buffer_entry entry self =
      if leb self.max_buffer (length self.buf)
      then elim (popleft self.buf) [
        | none ↦ none
        | some rest ↦ some (record self { buf = rest ++ entry ∷ []; dropped = self.dropped + 1 })
      ]
      else some (record self { buf = self.buf ++ entry ∷ [] })

  -- `taken` tells whether Redis takes the entry.
  unfoldable pub publish : Bool → A → ResilientPublisher A → Option (ResilientPublisher A)
  unfolding buffer_entry
  publish true entry self = some self
  publish false entry self = buffer_entry entry self

  -- The loop of `flush`: what was sent, and what is left of the buffer.
  unfoldable pub flush_loop : ℕ → List Bool → List A → List A × List A
  unfolding attempts
  flush_loop retries answers [] = ([], [])
  flush_loop retries answers (entry ∷ buf) =
      let (ok, left) = attempts (max 1 retries) answers in
      let (sent, rest) = flush_loop retries left buf in
      if ok then (entry ∷ sent, rest) else ([], entry ∷ buf)

  unfoldable pub flush : ℕ → List Bool → ResilientPublisher A → List A × ResilientPublisher A
  unfolding flush_loop
  flush retries answers self =
      let (sent, rest) = flush_loop retries answers self.buf in (sent, record self { buf = rest })

  unfoldable pub depth : ResilientPublisher A → ℕ
  depth self = length self.buf
