-- ===== src/Queue/Delivery.antt =====
-- Delivery from the queue on disk.
use cipher_post.Prelude.{
  ℕ, zero, suc, ◌+◌, ◌≤◌, min, ◌≡◌, refl, sym, ap, ◌∙◌, inl, inr, Option, some, List, [], ◌∷◌, ◌++◌,
  map, append-nil, append_assoc, arith, ltb, ge→ltb, Bool-cases, length, take, drop, length-append,
  take-append-drop, length-take, length-drop,
}
use cipher_post.Prelude.Bytes.{Bytes}
use cipher_post.Prelude.Classes.{nat_eq, string_eq}
use mathlib.Core.Path.{subst}
use cipher_post.Queue.{DiskQueue, file_size, load_all, compact_above, ack, append, read_batch, ship}

drop_nil : {A : Type 0} (n : ℕ) → drop {A = A} n [] ≡ []
drop_nil zero = refl
drop_nil (suc n) = refl

pub drop-drop : {A : Type 0} (n m : ℕ) (xs : List A) → drop m (drop n xs) ≡ drop (n + m) xs
drop-drop zero m xs = let plus : m ≡ 0 + m = omega arith in ap (λ j. drop j xs) plus
drop-drop (suc n) m [] = drop_nil m ∙ sym (drop_nil (suc n + m))
drop-drop (suc n) m (x ∷ xs) =
    let plus : suc (n + m) ≡ suc n + m = omega arith in
    drop-drop n m xs ∙ ap (λ j. drop j (x ∷ xs)) plus

drop-length-take : {A : Type 0} (n : ℕ) (xs : List A) → drop (length (take n xs)) xs ≡ drop n xs
drop-length-take zero xs = refl
drop-length-take (suc n) [] = refl
drop-length-take (suc n) (x ∷ xs) = drop-length-take n xs

drop-before :
    {A : Type 0} (n : ℕ) (xs ys : List A) → n ≤ length xs → drop n (xs ++ ys) ≡ drop n xs ++ ys
drop-before zero xs ys h = refl
drop-before (suc n) [] ys h = absurd (omega arith)
drop-before (suc n) (x ∷ xs) ys h = drop-before n xs ys (omega arith)

module _ {A : Type 0} (dumps : A → Bytes) (loads : Bytes → Option A)
    (round_trip : (a : A) → loads (dumps a) ≡ some a) (max_bytes : ℕ) where
  -- The items that wait to be sent, in their order.
  pub record Waiting (q : DiskQueue) (items : List A) : Type 0 where
    pub inside : q.offset ≤ length q.lines
    pub rest : drop q.offset q.lines ≡ map dumps items

  load_map : (n : ℕ) (items : List A) → load_all loads (take n (map dumps items)) ≡ take n items
  unfolding load_all
  load_map zero items = refl
  load_map (suc n) [] = refl
  load_map (suc n) (a ∷ items) = rw (round_trip a, load_map n items)

  drop-map : (n : ℕ) (items : List A) → drop n (map dumps items) ≡ map dumps (drop n items)
  drop-map zero items = refl
  drop-map (suc n) [] = refl
  drop-map (suc n) (a ∷ items) = drop-map n items

  map_last :
      (items : List A) (a : A) → map dumps items ++ dumps a ∷ [] ≡ map dumps (items ++ a ∷ [])
  map_last [] a = refl
  map_last (b ∷ items) a = ap (λ r. dumps b ∷ r) (map_last items a)

  -- Unless the file grows too large, an item that is appended waits behind the others.
  pub append-Waiting :
      (q : DiskQueue) (items : List A) (a : A)
      → Waiting q items
      → file_size (q.lines ++ dumps a ∷ []) ≤ max_bytes
      → Waiting (append dumps loads max_bytes a q) (items ++ a ∷ [])
  append-Waiting q items a w fits =
      subst (λ r. Waiting r (items ++ a ∷ [])) (sym longer)
        (record {
          inside = omega (arith, w.inside, length-append q.lines (dumps a ∷ []));
          rest =
              drop-before q.offset q.lines (dumps a ∷ []) w.inside
              ∙ ap (λ r. r ++ dumps a ∷ []) w.rest
              ∙ map_last items a;
        })
    where
      longer : append dumps loads max_bytes a q ≡ record q { lines = q.lines ++ dumps a ∷ [] }
      longer = unfold append in rw (ge→ltb max_bytes (file_size (q.lines ++ dumps a ∷ [])) fits)

  length-map : (items : List A) → length (map dumps items) ≡ length items
  length-map [] = refl
  length-map (a ∷ items) = ap (λ n. suc n) (length-map items)

  ack-Waiting :
      (q : DiskQueue) (items : List A) (n t : ℕ)
      → Waiting q items
      → n ≤ length items
      → t ≡ q.offset + n
      → Waiting (ack t q) (drop n items)
  ack-Waiting q items n t w le e = elim (Bool-cases (ltb compact_above t)) [
    | inl c ↦
        let kept : ack t q ≡ record q { lines = drop t q.lines; offset = 0 } = unfold ack in rw c in
        subst (λ r. Waiting r (drop n items)) (sym kept)
          (record { inside = omega arith; rest = moved })
    | inr c ↦
        let kept : ack t q ≡ record q { offset = t } = unfold ack in rw c in
        subst (λ r. Waiting r (drop n items)) (sym kept) (record { inside = bounded; rest = moved })
  ]
    where
      moved : drop t q.lines ≡ map dumps (drop n items)
      moved =
          ap (λ k. drop k q.lines) e
          ∙ sym (drop-drop q.offset n q.lines)
          ∙ ap (λ ls. drop n ls) w.rest
          ∙ drop-map n items

      left : length (drop q.offset q.lines) ≡ length items
      left = ap (λ ls. length ls) w.rest ∙ length-map items

      bounded : t ≤ length q.lines
      bounded = omega (arith, left, length-drop q.offset q.lines, w.inside, le, e)

  -- A round of shipping sends the first items that wait, up to `limit`, and the others still wait.
  pub ship-Waiting :
      (limit : ℕ) (q : DiskQueue) (items : List A)
      → Waiting q items
      → ((ship dumps loads max_bytes limit q).0 ≡ take limit items)
        × Waiting (ship dumps loads max_bytes limit q).1 (drop limit items)
  unfolding ship read_batch
  ship-Waiting limit q items w = (
    sent,
    subst (λ r. Waiting (ack total q) r) (drop-length-take limit items)
        (ack-Waiting q items (length (take limit items)) total w
          (omega (arith, length-take limit items))
          (ap
              (λ k.
                k
                + length
                    (load_all loads (take limit (drop (min q.offset (length q.lines)) q.lines))))
              start_is
            ∙ ap (λ b. q.offset + length b) sent)),
  )
    where
      total : ℕ
      total =
          min q.offset (length q.lines)
          + length (load_all loads (take limit (drop (min q.offset (length q.lines)) q.lines)))

      start_is : min q.offset (length q.lines) ≡ q.offset
      start_is = omega (arith, w.inside)

      sent :
          load_all loads (take limit (drop (min q.offset (length q.lines)) q.lines))
          ≡ take limit items
      sent = rw (start_is, w.rest, load_map limit items)

  pub data Op : Type 0 where
    push : A → Op
    send : ℕ → Op

  -- The items that are sent in the course of the operations, and the queue afterwards.
  abbrev pub run : List Op → DiskQueue → List A × DiskQueue
  run [] q = ([], q)
  run (push a ∷ ops) q = run ops (append dumps loads max_bytes a q)
  run (send limit ∷ ops) q =
      let rest = run ops (ship dumps loads max_bytes limit q).1 in
      ((ship dumps loads max_bytes limit q).0 ++ rest.0, rest.1)

  abbrev pub pushed : List Op → List A
  pushed [] = []
  pushed (push a ∷ ops) = a ∷ pushed ops
  pushed (send limit ∷ ops) = pushed ops

  -- The file never grows above its limit.
  abbrev pub Fits : List Op → DiskQueue → Type 0
  Fits [] q = Unit
  Fits (push a ∷ ops) q =
      (file_size (q.lines ++ dumps a ∷ []) ≤ max_bytes)
      × Fits ops (append dumps loads max_bytes a q)
  Fits (send limit ∷ ops) q = Fits ops (ship dumps loads max_bytes limit q).1

  -- Let JSON read back what it writes, and items be appended and batches be sent and acknowledged
  -- in any order and of any sizes, with the compactions that come with it, while the file stays
  -- within its limit. Then the items sent, followed by those that wait at the end, are those that
  -- waited at the start followed by those appended.
  pub run-Waiting :
      (ops : List Op) (q : DiskQueue) (items : List A)
      → Waiting q items
      → Fits ops q
      → (rest : List A) × ((run ops q).0 ++ rest ≡ items ++ pushed ops) × Waiting (run ops q).1 rest
  run-Waiting [] q items w f = (items, sym (append-nil items), w)
  run-Waiting (push a ∷ ops) q items w f =
      let (rest, e, v) =
        run-Waiting ops (append dumps loads max_bytes a q) (items ++ a ∷ [])
          (append-Waiting q items a w f.0) f.1 in
      (rest, e ∙ append_assoc items (a ∷ []) (pushed ops), v)
  run-Waiting (send limit ∷ ops) q items w f =
      let (sent, left) = ship-Waiting limit q items w in
      let (rest, e, v) =
        run-Waiting ops (ship dumps loads max_bytes limit q).1 (drop limit items) left f in
      (
        rest,
        append_assoc (ship dumps loads max_bytes limit q).0 _ rest
            ∙ ap (λ r. (ship dumps loads max_bytes limit q).0 ++ r) e
            ∙ ap (λ r. r ++ (drop limit items ++ pushed ops)) sent
            ∙ sym (append_assoc (take limit items) (drop limit items) (pushed ops))
            ∙ ap (λ r. r ++ pushed ops) (take-append-drop limit items),
        v,
      )
