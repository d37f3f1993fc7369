-- ===== src/Transport/Cache.antt =====
-- What the cache of DNS answers returns and how large it grows.
use cipher_post.Prelude.{
  ℕ, ◌+◌, ◌/◌, ◌≤◌, ◌<◌, max, ◌≡◌, refl, sym, ap, ◌∙◌, inl, inr, true, false, not, ◌&&◌, Option,
  none, some, List, [], ◌∷◌, arith, ltb, leb, ◌==◌, if◌then◌else◌, Bool-cases, Option-cases, length,
}
use cipher_post.Prelude.Bytes.{Bytes}
use cipher_post.Prelude.Classes.{eqb, nat_eq, string_eq}
use cipher_post.Prelude.Dict.{Dict, get, put, pop, get-put, get-pop, length-pop-le, get-put_self}
use mathlib.Core.Path.{subst}
use cipher_post.Prelude.Dict.{length-put-le}
use cipher_post.Prelude.Removal.{remove, length-remove_first}
use cipher_post.Flows.{bytes_key}
use cipher_post.Transport.TtlCache.{TtlCache, get_cached, evicted_keys, make_room, put_cached}

pub data Op {ℓ} (V : Type ℓ) : Type ℓ where
  store : Bytes → V → ℕ → ℕ → Op V
  read : Bytes → ℕ → Op V

module _ {ℓ} {V : Type ℓ} where
  get-remove :
      (j : Bytes) (ks : List Bytes) (d : Dict Bytes (ℕ × V)) (e : ℕ × V)
      → get j (remove ks d) ≡ some e
      → get j d ≡ some e
  unfolding remove
  get-remove j [] d e h = h
  get-remove j (k ∷ ks) d e h =
      let kept : get j (pop k d) ≡ some e = get-remove j ks (pop k d) e h in
      ground (arith, kept, get-pop k j d)

  make_room_small :
      (c : TtlCache V) → leb c.max_entries (length c.data_of) ≡ false → make_room c ≡ c.data_of
  unfolding make_room
  make_room_small c f = rw f refl

  get-make_room :
      (j : Bytes) (c : TtlCache V) (e : ℕ × V)
      → get j (make_room c) ≡ some e
      → get j c.data_of ≡ some e
  unfolding make_room
  get-make_room j c e h = elim (Bool-cases (leb c.max_entries (length c.data_of))) [
    | inl f ↦
        let removed : make_room c ≡ remove (evicted_keys c) c.data_of = rw f refl in
        get-remove j (evicted_keys c) c.data_of e (ap (λ d. get j d) (sym removed) ∙ h)
    | inr f ↦ ap (λ d. get j d) (sym (make_room_small c f)) ∙ h
  ]

  length-make_room :
      (c : TtlCache V)
      → 1 ≤ c.max_entries
      → length c.data_of ≤ c.max_entries
      → length (make_room c) < c.max_entries
  unfolding make_room
  length-make_room c one h = elim (Bool-cases (leb c.max_entries (length c.data_of))) [
    | inl f ↦ rw f (
        omega
          (arith, one, h, length-remove_first (λ e. e.1.0) (max 1 (c.max_entries / 10)) c.data_of))
    | inr f ↦ rw f (ground arith)
  ]

  -- The cache after the operations, the last of which comes first.
  abbrev pub run : List (Op V) → TtlCache V → TtlCache V
  run [] c = c
  run (store key value ttl now ∷ older) c = put_cached key value ttl now (run older c)
  run (read key now ∷ older) c = (get_cached key now (run older c)).1

  -- What was last stored under a key, with its end.
  abbrev pub last_stored : Bytes → List (Op V) → Option (ℕ × V)
  last_stored j [] = none
  last_stored j (read key now ∷ older) = last_stored j older
  last_stored j (store key value ttl now ∷ older) =
      if not (ttl == 0) && eqb key j then some (now + ttl, value) else last_stored j older

  abbrev pub new_cache : ℕ → TtlCache V
  new_cache max_entries = record { max_entries = max_entries; data_of = [] }

  put_cached-rule {μ} :
      (P : TtlCache V → Type μ) (key : Bytes) (value : V) (ttl now : ℕ) (c : TtlCache V)
      → ((ttl == 0) ≡ true → P c)
      → ((ttl == 0) ≡ false → P (record c { data_of = put key (now + ttl, value) (make_room c) }))
      → P (put_cached key value ttl now c)
  unfolding put_cached
  put_cached-rule P key value ttl now c ignored stored = elim (Bool-cases (ttl == 0)) [
    | inl f ↦ rw f (ignored f)
    | inr f ↦ rw f (stored f)
  ]

  get_cached-rule {μ} :
      (P : Option V × TtlCache V → Type μ) (key : Bytes) (now : ℕ) (c : TtlCache V)
      → P (none, c)
      → P (none, record c { data_of = pop key c.data_of })
      → ((exp : ℕ) (val : V) → get key c.data_of ≡ some (exp, val) → now ≤ exp → P (some val, c))
      → P (get_cached key now c)
  unfolding get_cached
  get_cached-rule P key now c missing over hit = elim (Option-cases (get key c.data_of)) [
    | inl e ↦ subst P (sym (rw (e, get_cached) refl)) missing
    | inr ((exp, val), e) ↦ elim (Bool-cases (ltb exp now)) [
      | inl f ↦ subst P (sym (rw (e, get_cached, f) refl)) over
      | inr f ↦ subst P (sym (rw (e, get_cached, f) refl)) (hit exp val e (ground arith))
    ]
  ]

  -- A cache for `limit` entries, of which none or some are in use.
  abbrev IsWithin : ℕ → TtlCache V → Type 0
  IsWithin limit c = (c.max_entries ≡ limit) × (length c.data_of ≤ limit)

  run-IsWithin :
      (limit : ℕ) (history : List (Op V)) (c : TtlCache V)
      → 1 ≤ limit
      → IsWithin limit c
      → IsWithin limit (run history c)
  run-IsWithin limit [] c one h = h
  run-IsWithin limit (store key value ttl now ∷ older) c one h =
      let before : IsWithin limit (run older c) = run-IsWithin limit older c one h in
      put_cached-rule (IsWithin limit) key value ttl now (run older c) (λ _. before)
        (λ _. (
          before.0,
          omega (
            arith,
            before.0,
            before.1,
            one,
            length-make_room (run older c) (omega (arith, before.0, one))
                (omega (arith, before.0, before.1)),
            length-put-le key (now + ttl, value) (make_room (run older c)),
          ),
        ))
  run-IsWithin limit (read key now ∷ older) c one h =
      let before : IsWithin limit (run older c) = run-IsWithin limit older c one h in
      get_cached-rule (λ r. IsWithin limit r.1) key now (run older c) before
        (before.0, omega (arith, before.1, length-pop-le key (run older c).data_of))
        (λ _ _ _ _. before)

  -- A cache for one entry or more never holds more entries than it is for.
  pub run-bounded :
      (limit : ℕ) (history : List (Op V))
      → 1 ≤ limit
      → length (run history (new_cache limit)).data_of ≤ limit
  run-bounded limit history one =
      (run-IsWithin limit history (new_cache limit) one (refl, omega arith)).1

  -- An entry is what was last stored under its key.
  run-last_stored :
      (limit : ℕ) (history : List (Op V)) (j : Bytes) (e : ℕ × V)
      → get j (run history (new_cache limit)).data_of ≡ some e
      → last_stored j history ≡ some e
  unfolding get
  run-last_stored limit [] j e = λ h. absurd (ground (arith, h))
  run-last_stored limit (store key value ttl now ∷ older) j e =
      let c : TtlCache V = run older (new_cache limit) in
      put_cached-rule
        (λ c. get j c.data_of ≡ some e → last_stored j (store key value ttl now ∷ older) ≡ some e)
        key value ttl now c (λ f h. rw f (run-last_stored limit older j e h))
        (λ f h.
          let new : (if eqb key j then some (now + ttl, value) else get j (make_room c)) ≡ some e =
            sym (get-put key j (now + ttl, value) (make_room c)) ∙ h in
          rw f (elim (Bool-cases (eqb key j)) [
            | inl g ↦ rw g (ground (arith, g, new))
            | inr g ↦
                rw g
                  (run-last_stored limit older j e (get-make_room j c e (ground (arith, g, new))))
          ]))
  run-last_stored limit (read key now ∷ older) j e =
      let c : TtlCache V = run older (new_cache limit) in
      get_cached-rule (λ r. get j r.1.data_of ≡ some e → last_stored j older ≡ some e) key now c
        (λ h. run-last_stored limit older j e h)
        (λ h. run-last_stored limit older j e (ground (arith, h, get-pop key j c.data_of)))
        (λ _ _ _ _ h. run-last_stored limit older j e h)

  -- What a read may return at this time: nothing, or the value that was last stored, if it has not
  -- ended.
  abbrev pub IsCurrent : ℕ → Option (ℕ × V) → Option V → Type ℓ
  IsCurrent now stored none = Unit
  IsCurrent now stored (some v) = (exp : ℕ) × (stored ≡ some (exp, v)) × (now ≤ exp)

  -- Whatever was stored and read before, a read returns nothing or the value that was last stored
  -- under the key, and that only up to its end.
  pub get_cached-IsCurrent :
      (limit : ℕ) (history : List (Op V)) (key : Bytes) (now : ℕ)
      → IsCurrent now
          (last_stored key history)
          (get_cached key now (run history (new_cache limit))).0
  get_cached-IsCurrent limit history key now =
      get_cached-rule (λ r. IsCurrent now (last_stored key history) r.0) key now
        (run history (new_cache limit)) tt tt
        (λ exp val e h. (exp, run-last_stored limit history key (exp, val) e, h))

  -- A value that has just been stored is there until its end.
  pub get_cached-put_cached :
      (key : Bytes) (value : V) (ttl now later : ℕ) (c : TtlCache V)
      → 1 ≤ ttl
      → later ≤ now + ttl
      → (get_cached key later (put_cached key value ttl now c)).0 ≡ some value
  unfolding get_cached
  get_cached-put_cached key value ttl now later c one h =
      put_cached-rule (λ c. (get_cached key later c).0 ≡ some value) key value ttl now c
        (λ f. absurd (ground (arith, f, one)))
        (λ _. rw (get-put_self key (now + ttl, value) (make_room c), get_cached) (ground arith))
