-- ===== src/Live/EmitOne.antt =====
-- What one call of `_emit_one` returns and leaves, in each of its cases.
use cipher_post.Prelude.{◌≡◌, refl, sym, inl, inr, Option, none, some, Option-cases}
use cipher_post.Prelude.Classes.{nat_eq, string_eq}
use mathlib.Core.Path.{subst}
use cipher_post.Prelude.Dict.{get}
use cipher_post.Live.{
  LiveReassembler, CloseReason, ClosedSession, buffered, count_close, session_of_closed, refs_of,
  drop_stream, emit_one,
}
use cipher_post.Reassembly.Session.{Session}
use cipher_post.Reassembly.Assembler.{Key, key_eq, Stream}

pub emit_one_missing :
    (key : Key) (st : Stream) (reason : CloseReason) (self : LiveReassembler)
    → get key self.streams ≡ none
    → emit_one key st reason self ≡ (none, self)
unfolding emit_one
emit_one_missing key st reason self e = rw (e, emit_one) refl

pub emit_one_unknown :
    (key : Key) (st found : Stream) (reason : CloseReason) (self : LiveReassembler)
    → get key self.streams ≡ some found
    → session_of_closed st ≡ none
    → emit_one key st reason self ≡ (none, drop_stream key self)
unfolding emit_one
emit_one_unknown key st found reason self e f = rw (e, emit_one, f) refl

abbrev pub closed_as : Key → Stream → CloseReason → Session → LiveReassembler → ClosedSession
closed_as key st reason sess self = record {
  session = sess;
  closed_by = reason;
  raw_refs = refs_of key self.refs;
  tracked_bytes = buffered st;
}

pub emit_one_known :
    (key : Key) (st found : Stream) (reason : CloseReason) (self : LiveReassembler) (sess : Session)
    → get key self.streams ≡ some found
    → session_of_closed st ≡ some sess
    → emit_one key st reason self ≡ (
      some (closed_as key st reason sess self),
      record (drop_stream key self) { stats = count_close reason self.stats },
    )
unfolding emit_one
emit_one_known key st found reason self sess e f = rw (e, emit_one, f) refl

-- What holds of the three outcomes holds of the call.
pub emit_one-rule {ℓ} :
    (P : Option ClosedSession × LiveReassembler → Type ℓ)
    → (key : Key) (st : Stream) (reason : CloseReason) (self : LiveReassembler)
    → (get key self.streams ≡ none → P (none, self))
    → P (none, drop_stream key self)
    → ((sess : Session)
        → session_of_closed st ≡ some sess
        → P (
          some (closed_as key st reason sess self),
          record (drop_stream key self) { stats = count_close reason self.stats },
        ))
    → P (emit_one key st reason self)
emit_one-rule P key st reason self missing without known =
    elim (Option-cases (get key self.streams)) [
      | inl e ↦ subst P (sym (emit_one_missing key st reason self e)) (missing e)
      | inr (found, e) ↦ elim (Option-cases (session_of_closed st)) [
        | inl f ↦ subst P (sym (emit_one_unknown key st found reason self e f)) without
        | inr (sess, f) ↦
            subst P (sym (emit_one_known key st found reason self sess e f)) (known sess f)
      ]
    ]
