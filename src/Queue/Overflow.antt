-- ===== src/Queue/Overflow.antt =====
-- The queue on disk when its file grows too large.
use cipher_post.Prelude.{
  ℕ, ◌+◌, ◌≤◌, ◌<◌, ◌≡◌, refl, inl, inr, Option, [], ◌∷◌, ◌++◌, arith, ltb, lt→ltb, ge→ltb,
  Bool-cases, length, drop, length-append, length-drop,
}
use cipher_post.Prelude.Bytes.{Bytes}
use cipher_post.Prelude.Classes.{nat_eq, string_eq}
use cipher_post.Queue.{DiskQueue, file_size, drop_count, drop_oldest, compact_above, ack, append}
use cipher_post.Queue.Delivery.{drop-drop}

module _ {A : Type 0} (dumps : A → Bytes) (loads : Bytes → Option A) (max_bytes : ℕ) where
  longer : A → DiskQueue → DiskQueue
  longer a q = record q { lines = q.lines ++ dumps a ∷ [] }

  -- Every line that was ever written is in the file or counted as dropped: an append adds one to
  -- the sum of both, whether or not the file overflows.
  pub append-counted :
      (a : A) (q : DiskQueue)
      → (append dumps loads max_bytes a q).dropped + length (append dumps loads max_bytes a q).lines
        ≡ q.dropped + length q.lines + 1
  unfolding append drop_oldest
  append-counted a q = elim (Bool-cases (ltb max_bytes (file_size (q.lines ++ dumps a ∷ [])))) [
    | inl e ↦ rw e (
        omega (
          arith,
          length-append q.lines (dumps a ∷ []),
          length-drop (drop_count (q.lines ++ dumps a ∷ [])) (q.lines ++ dumps a ∷ []),
        ))
    | inr e ↦ rw e (omega (arith, length-append q.lines (dumps a ∷ [])))
  ]

  -- Let `k` lines, 5000 at most, be read from the start of the file, and let an append overflow it
  -- before they are acknowledged, so that `d` lines are dropped. Then what waits after the
  -- acknowledgement starts `d + k` lines behind the old start: the `d` lines behind those that were
  -- read are neither sent nor waiting.
  pub overflow_skips :
      (a : A) (q : DiskQueue) (k : ℕ)
      → max_bytes < file_size (q.lines ++ dumps a ∷ [])
      → k ≤ compact_above
      → let all = q.lines ++ dumps a ∷ [] in
        let after = ack k (append dumps loads max_bytes a q) in
        (drop after.offset after.lines ≡ drop (drop_count all + k) all)
        × (after.dropped ≡ q.dropped + drop_count all)
  unfolding append drop_oldest ack
  overflow_skips a q k full small =
      rw (lt→ltb max_bytes (file_size (q.lines ++ dumps a ∷ [])) full, ge→ltb compact_above k small)
        (drop-drop (drop_count (q.lines ++ dumps a ∷ [])) k (q.lines ++ dumps a ∷ []), refl)
