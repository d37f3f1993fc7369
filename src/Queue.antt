-- ===== src/Queue.antt =====
-- The queue of the agent on disk (backend/app/agent/queue.py). `lines` is the file as `readlines`
-- returns it and `offset` the file beside it; `dumps` and `loads` are the JSON library, with the line
-- end. Errors of the file system are not modelled; a file that is missing is an empty one.
pub mod Delivery
pub mod Overflow
mod Tests
use cipher_post.Prelude.{
  ℕ, zero, suc, ◌+◌, ◌-◌, ◌*◌, ◌/◌, ◌%◌, ◌^◌, ◌≤◌, ◌<◌, min, max, ◌≡◌, refl, sym, ap, ◌∙◌, ◌≢◌, ◌↔◌,
  ◌⊎◌, inl, inr, Bool, true, false, not, ◌&&◌, ◌||◌, Option, none, some, List, [], ◌∷◌, ◌++◌, map,
  append-nil, append_assoc, arith, ltb, leb, ◌==◌, if◌then◌else◌, ltb→lt, lt→ltb, ge→ltb, leb→le,
  ==_iff, ==_refl, Bool-cases, Option-cases, length, get_elem?, take, drop, All, length-append,
  take-append-drop, length-take, length-drop, take-append, drop-append, drop_all, All-append,
  All-drop, All-take, All-imp,
}
use cipher_post.Prelude.Bytes.{Bytes, IsBytes, codes, bytes_eq, bytes_eq_refl, bytes_eq→eq}
use cipher_post.Prelude.Bytes.{
  starts_with, find_at, find, find_from, contains, upper_byte, Occurs, find_at-Occurs,
  starts_with-append,
}
use cipher_post.Prelude.Classes.{Eq, eqb, eqb_refl, nat_eq, string_eq}
use cipher_post.Prelude.Dict.{
  Dict, get, put, pop, get-put, get-pop, length-pop-le, length-pop-lt, get-put_self, get-pop_self,
}

pub record DiskQueue : Type 0 where
  pub lines : List Bytes
  pub offset : ℕ
  pub dropped : ℕ

-- os.path.getsize
unfoldable pub file_size : List Bytes → ℕ
file_size [] = 0
file_size (l ∷ ls) = length l + file_size ls

-- The oldest tenth of the lines, at least one.
abbrev pub drop_count : List Bytes → ℕ
drop_count ls = max 1 (length ls / 10)

unfoldable pub drop_oldest : DiskQueue → DiskQueue
drop_oldest q = record {
  lines = drop (drop_count q.lines) q.lines;
  offset = 0;
  dropped = q.dropped + drop_count q.lines;
}

-- The items of the lines; a line that cannot be read is passed over.
unfoldable pub load_all {ℓ} : {A : Type ℓ} → (Bytes → Option A) → List Bytes → List A
load_all loads [] = []
load_all loads (l ∷ ls) =
    let rest = load_all loads ls in elim (loads l) [ none ↦ rest | some a ↦ a ∷ rest ]

abbrev pub compact_above : ℕ
compact_above = 5000

unfoldable pub ack : ℕ → DiskQueue → DiskQueue
ack through q =
    if ltb compact_above through
    then record q { lines = drop through q.lines; offset = 0 }
    else record q { offset = through }

unfoldable pub depth : DiskQueue → ℕ
depth q = length q.lines - q.offset

module _ {ℓ} {A : Type ℓ} (dumps : A → Bytes) (loads : Bytes → Option A) (max_bytes : ℕ) where
  unfoldable pub append : A → DiskQueue → DiskQueue
  append item q =
      let longer : DiskQueue = record q { lines = q.lines ++ dumps item ∷ [] } in
      if ltb max_bytes (file_size longer.lines) then drop_oldest longer else longer

  -- The start offset, and the items from there.
  unfoldable pub read_batch : ℕ → DiskQueue → ℕ × List A
  read_batch limit q =
      let start = min q.offset (length q.lines) in
      (start, load_all loads (take limit (drop start q.lines)))

  -- A round of the shipping loop of the agent whose batch is sent: read, then acknowledge.
  unfoldable pub ship : ℕ → DiskQueue → List A × DiskQueue
  ship limit q = let (start, batch) = read_batch limit q in (batch, ack (start + length batch) q)
