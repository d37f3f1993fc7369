-- ===== src/Publisher/Order.antt =====
-- What happens to the entries that a publisher buffers.
use cipher_post.Prelude.{
  ℕ, suc, ◌+◌, ◌<◌, max, ◌≡◌, refl, sym, ap, ◌∙◌, ◌⊎◌, inl, inr, Bool, true, false, Option, none,
  some, List, [], ◌∷◌, ◌++◌, append-nil, append_assoc, arith, leb, Bool-cases, length,
}
use cipher_post.Prelude.Classes.{nat_eq, string_eq}
use mathlib.Core.Path.{subst}
use cipher_post.Publisher.{ResilientPublisher, buffer_entry, publish, attempts, flush_loop, flush}

pub data Op (A : Type 0) : Type 0 where
  offers : Bool → A → Op A
  flushes : ℕ → List Bool → Op A

module _ {A : Type 0} where
  -- The entries that reach Redis by a flush, and the publisher; `none` if an error is raised.
  abbrev pub run : List (Op A) → ResilientPublisher A → Option (List A × ResilientPublisher A)
  run [] self = some ([], self)
  run (offers taken entry ∷ ops) self = elim (publish taken entry self) [
    | none ↦ none
    | some next ↦ run ops next
  ]
  run (flushes retries answers ∷ ops) self =
      let (sent, next) = flush retries answers self in
      elim (run ops next) [ none ↦ none | some (more, last) ↦ some (sent ++ more, last) ]

  -- The entries that Redis did not take when they were offered.
  abbrev pub held_back : List (Op A) → List A
  held_back [] = []
  held_back (offers true entry ∷ ops) = held_back ops
  held_back (offers false entry ∷ ops) = entry ∷ held_back ops
  held_back (flushes retries answers ∷ ops) = held_back ops

  -- `xs` is `ys` without some elements, `n` of them.
  pub data Without : ℕ → List A → List A → Type 0 where
    done : Without 0 [] []
    kept : {n : ℕ} {x : A} {xs ys : List A} → Without n xs ys → Without n (x ∷ xs) (x ∷ ys)
    lost : {n : ℕ} {y : A} {xs ys : List A} → Without n xs ys → Without (suc n) xs (y ∷ ys)

  flush_loop-split :
      (retries : ℕ) (answers : List Bool) (buf : List A)
      → (flush_loop retries answers buf).0 ++ (flush_loop retries answers buf).1 ≡ buf
  unfolding flush_loop
  flush_loop-split retries answers [] = refl
  flush_loop-split retries answers (entry ∷ buf) =
      elim (Bool-cases (attempts (max 1 retries) answers).0) [
        | inl e ↦ rw e (
            ap (λ b. entry ∷ b) (flush_loop-split retries (attempts (max 1 retries) answers).1 buf))
        | inr e ↦ rw e refl
      ]

  Without-all : (xs : List A) → Without 0 xs xs
  Without-all [] = done
  Without-all (x ∷ xs) = kept (Without-all xs)

  Without-front :
      (zs : List A) {n : ℕ} {xs ys : List A} → Without n xs ys → Without n (zs ++ xs) (zs ++ ys)
  Without-front [] w = w
  Without-front (z ∷ zs) w = kept (Without-front zs w)

  -- A run that ended well: nothing is lost but what was counted, and the order is kept.
  pub record Delivers (ops : List (Op A)) (self : ResilientPublisher A) : Type 0 where
    pub sent : List A
    pub last : ResilientPublisher A
    pub ends : run ops self ≡ some (sent, last)
    pub count : ℕ
    pub counted : last.dropped ≡ self.dropped + count
    pub order : Without count (sent ++ last.buf) (self.buf ++ held_back ops)

  publish_full :
      (entry x : A) (rest : List A) (self : ResilientPublisher A)
      → self.buf ≡ x ∷ rest
      → leb self.max_buffer (length self.buf) ≡ true
      → publish false entry self
        ≡ some (record self { buf = rest ++ entry ∷ []; dropped = self.dropped + 1 })
  unfolding publish
  publish_full entry x rest self e full = rw (full, buffer_entry, e) refl

  publish_room :
      (entry : A) (self : ResilientPublisher A)
      → leb self.max_buffer (length self.buf) ≡ false
      → publish false entry self ≡ some (record self { buf = self.buf ++ entry ∷ [] })
  unfolding publish
  publish_room entry self room = rw (room, buffer_entry) refl

  run-offer :
      (entry : A) (ops : List (Op A)) (self next : ResilientPublisher A)
      → publish false entry self ≡ some next
      → run (offers false entry ∷ ops) self ≡ run ops next
  run-offer entry ops self next e = ap (λ o. elim o [ none ↦ none | some p ↦ run ops p ]) e

  after_full :
      (entry x : A) (rest : List A) (ops : List (Op A)) (self : ResilientPublisher A)
      → self.buf ≡ x ∷ rest
      → leb self.max_buffer (length self.buf) ≡ true
      → Delivers ops (record self { buf = rest ++ entry ∷ []; dropped = self.dropped + 1 })
      → Delivers (offers false entry ∷ ops) self
  after_full entry x rest ops self e full d = record {
    sent = d.sent;
    last = d.last;
    ends =
        run-offer entry ops self
          (record self { buf = rest ++ entry ∷ []; dropped = self.dropped + 1 })
          (publish_full entry x rest self e full)
        ∙ d.ends;
    count = suc d.count;
    counted = omega (arith, d.counted);
    order =
        subst (λ b. Without (suc d.count) (d.sent ++ d.last.buf) (b ++ entry ∷ held_back ops))
          (sym e)
          (lost (
            subst (Without d.count (d.sent ++ d.last.buf))
              (append_assoc rest (entry ∷ []) (held_back ops)) d.order));
  }

  after_room :
      (entry : A) (ops : List (Op A)) (self : ResilientPublisher A)
      → leb self.max_buffer (length self.buf) ≡ false
      → Delivers ops (record self { buf = self.buf ++ entry ∷ [] })
      → Delivers (offers false entry ∷ ops) self
  after_room entry ops self room d = record {
    sent = d.sent;
    last = d.last;
    ends =
        run-offer entry ops self (record self { buf = self.buf ++ entry ∷ [] })
          (publish_room entry self room)
        ∙ d.ends;
    count = d.count;
    counted = d.counted;
    order =
        subst (Without d.count (d.sent ++ d.last.buf))
          (append_assoc self.buf (entry ∷ []) (held_back ops)) d.order;
  }

  after_flush :
      (retries : ℕ) (answers : List Bool) (ops : List (Op A)) (self : ResilientPublisher A)
      → Delivers ops (flush retries answers self).1
      → Delivers (flushes retries answers ∷ ops) self
  unfolding flush
  after_flush retries answers ops self d =
      let sent : List A = (flush_loop retries answers self.buf).0 in
      let rest : List A = (flush_loop retries answers self.buf).1 in
      let split : sent ++ (rest ++ held_back ops) ≡ self.buf ++ held_back ops =
        sym (append_assoc sent rest (held_back ops))
        ∙ ap (λ b. b ++ held_back ops) (flush_loop-split retries answers self.buf) in
      record {
        sent = sent ++ d.sent;
        last = d.last;
        ends =
            ap (λ o. elim o [ none ↦ none | some (more, last) ↦ some (sent ++ more, last) ]) d.ends;
        count = d.count;
        counted = d.counted;
        order =
            subst (λ xs. Without d.count xs (self.buf ++ held_back ops))
              (sym (append_assoc sent d.sent d.last.buf))
              (subst (Without d.count (sent ++ (d.sent ++ d.last.buf))) split
                (Without-front sent d.order));
      }

  after_taken :
      (entry : A) (ops : List (Op A)) (self : ResilientPublisher A)
      → Delivers ops self
      → Delivers (offers true entry ∷ ops) self
  unfolding publish
  after_taken entry ops self d = record {
    sent = d.sent;
    last = d.last;
    ends = d.ends;
    count = d.count;
    counted = d.counted;
    order = d.order;
  }

  List-cases : (xs : List A) → (xs ≡ []) ⊎ ((x : A) × ((rest : List A) × (xs ≡ x ∷ rest)))
  List-cases [] = inl refl
  List-cases (x ∷ xs) = inr (x, (xs, refl))

  -- With room for one entry at least, a publisher never raises an error, and of the entries that
  -- were in the buffer or that Redis did not take, in their order, the flushes send and the buffer
  -- keeps all but the ones that are counted as dropped, each once and in the same order.
  pub run-Delivers :
      (ops : List (Op A)) (self : ResilientPublisher A) → 0 < self.max_buffer → Delivers ops self
  run-Delivers [] self pos = record {
    sent = [];
    last = self;
    ends = refl;
    count = 0;
    counted = omega arith;
    order = subst (Without 0 self.buf) (sym (append-nil self.buf)) (Without-all self.buf);
  }
  run-Delivers (offers true entry ∷ ops) self pos =
      after_taken entry ops self (run-Delivers ops self pos)
  run-Delivers (offers false entry ∷ ops) self pos =
      elim (Bool-cases (leb self.max_buffer (length self.buf))) [
        | inr room ↦
            after_room entry ops self room
              (run-Delivers ops (record self { buf = self.buf ++ entry ∷ [] }) pos)
        | inl full ↦ elim (List-cases self.buf) [
          | inl e ↦ absurd (ground (arith, ap (λ b. length b) e))
          | inr (x, (rest, e)) ↦ after_full entry x rest ops self e full (
              run-Delivers ops
                (record self { buf = rest ++ entry ∷ []; dropped = self.dropped + 1 }) pos)
        ]
      ]
  run-Delivers (flushes retries answers ∷ ops) self pos =
      after_flush retries answers ops self
        (run-Delivers ops (flush retries answers self).1 (unfold flush in pos))
