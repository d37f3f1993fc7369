-- ===== src/Retention.antt =====
-- The store of raw frames (RollingRawStore of backend/app/live/retention.py). `files` are the
-- segment files in its directory: the file cap-N.seg has the key N. Times are whole microseconds.
-- Errors of the file system and texts of the log are not modelled.
pub mod Holds
pub mod Replay
mod Tests
use cipher_post.Prelude.{
  ℕ, zero, suc, ◌+◌, ◌-◌, ◌*◌, ◌/◌, ◌%◌, ◌^◌, ◌≤◌, ◌<◌, min, max, ◌≡◌, refl, sym, ap, ◌∙◌, ◌≢◌, ◌↔◌,
  ◌⊎◌, inl, inr, Bool, true, false, not, ◌&&◌, ◌||◌, Option, none, some, List, [], ◌∷◌, ◌++◌, map,
  append-nil, append_assoc, arith, ltb, leb, ◌==◌, if◌then◌else◌, ltb→lt, lt→ltb, ge→ltb, leb→le,
  ==_iff, ==_refl, Bool-cases, Option-cases, length, get_elem?, take, drop, All, length-append,
  take-append-drop, length-take, length-drop, take-append, drop-append, drop_all, All-append,
  All-drop, All-take, All-imp,
}
use cipher_post.Prelude.Bytes.{Bytes, IsBytes, codes, bytes_eq, bytes_eq_refl, bytes_eq→eq}
use cipher_post.Prelude.Bytes.{
  starts_with, find_at, find, find_from, contains, upper_byte, Occurs, find_at-Occurs,
  starts_with-append,
}
use cipher_post.Prelude.Classes.{Eq, eqb, eqb_refl, nat_eq, string_eq}
use cipher_post.Prelude.Dict.{
  Dict, get, put, pop, get-put, get-pop, length-pop-le, length-pop-lt, get-put_self, get-pop_self,
}

pub record Settings : Type 0 where
  pub retention : ℕ
  pub segment_seconds : ℕ
  pub disk_min_free_bytes : ℕ

-- (segment, offset, length)
pub record FrameRef : Type 0 where
  pub segment : ℕ
  pub offset : ℕ
  pub size : ℕ

pub record RollingRawStore : Type 0 where
  pub files : Dict ℕ Bytes
  pub current : Option ℕ
  pub guard_active : Bool
  pub guard_dropped : ℕ
  pub writes_since_check : ℕ
  pub frames : ℕ
  pub bytes : ℕ

abbrev pub check_every : ℕ
check_every = 128

abbrev pub new_store : Dict ℕ Bytes → RollingRawStore
new_store files = record {
  files = files;
  current = none;
  guard_active = false;
  guard_dropped = 0;
  writes_since_check = check_every;
  frames = 0;
  bytes = 0;
}

-- int(ts), of a time in microseconds
abbrev pub seconds : ℕ → ℕ
seconds ts = ts / 1000000

-- `k` bytes of a number, the lowest first
unfoldable pub little : ℕ → ℕ → Bytes
little zero n = []
little (suc k) n = n % 256 ∷ little k (n / 256)

-- The exponent of the highest power of two that is not above `n`.
unfoldable pub log2_loop : ℕ → ℕ → ℕ
log2_loop zero n = 0
log2_loop (suc fuel) n = let more = log2_loop fuel (n / 2) in if ltb n 2 then 0 else suc more

-- A quotient by a power of two, rounded to the nearest number, in the middle to the even one.
unfoldable pub round_half_even : ℕ → ℕ → ℕ
round_half_even n shift =
    let q = n / 2 ^ shift in
    let r = n % 2 ^ shift in
    if ltb (2 ^ shift) (2 * r) || (2 * r == 2 ^ shift && q % 2 == 1) then suc q else q

-- The bits of a whole number as a double.
unfoldable pub double_bits : ℕ → ℕ
unfolding log2_loop round_half_even
double_bits zero = 0
double_bits (suc m) =
    let e = log2_loop 1024 (suc m) in
    let q = if leb e 52 then suc m * 2 ^ (52 - e) else round_half_even (suc m) (e - 52) in
    (e + 1023) * 2 ^ 52 + (q - 2 ^ 52)

-- _FRAME_HDR.pack(0, int(ts * 1e6), len(frame)), which raises an error for a length of 2^32 or more
unfoldable pub frame_header : ℕ → ℕ → Option Bytes
unfolding little double_bits
frame_header ts len =
    if ltb len (2 ^ 32)
    then some (little 8 0 ++ little 8 (double_bits ts) ++ little 4 len)
    else none

abbrev pub header_size : ℕ
header_size = 20

-- _MAGIC.to_bytes(4, "little")
unfoldable pub magic : Bytes
unfolding little
magic = little 4 0x43505720

unfoldable pub segment_of : Settings → ℕ → ℕ
segment_of s ts = seconds ts / s.segment_seconds * s.segment_seconds

abbrev pub content : Option Bytes → Bytes
content none = []
content (some old) = old

-- _open_segment: the file is there afterwards, and the position is at its end.
unfoldable pub open_segment : ℕ → RollingRawStore → RollingRawStore
open_segment seg self = record self {
  files = put seg (content (get seg self.files)) self.files;
  current = some seg;
}

-- _disk_guard_should_drop, with what the file system answers about its free bytes
unfoldable pub disk_guard : Settings → Option ℕ → RollingRawStore → RollingRawStore
disk_guard s free self =
    let due = self.guard_active || leb check_every (self.writes_since_check + 1) in
    if due
    then elim free [
      | none ↦ record self { writes_since_check = 0 }
      | some n ↦ record self { writes_since_check = 0; guard_active = ltb n s.disk_min_free_bytes }
    ]
    else record self { writes_since_check = self.writes_since_check + 1 }

pub data Outcome : Type 0 where
  dropped : Outcome
  stored : FrameRef → Outcome
  struct_error : Outcome

-- What is written for a frame.
abbrev pub packed : Bytes → Bytes → Bytes
packed header frame = header ++ magic ++ frame

-- The part of `write` behind the guard, with the segment that is open.
unfoldable pub append_frame : ℕ → Option Bytes → Bytes → RollingRawStore → Outcome × RollingRawStore
unfolding magic
append_frame seg none frame self = (struct_error, self)
append_frame seg (some header) frame self =
    let old = content (get seg self.files) in
    let size = header_size + 4 + length frame in
    (
      stored (record { segment = seg; offset = length old; size = size }),
      record self {
        files = put seg (old ++ packed header frame) self.files;
        frames = self.frames + 1;
        bytes = self.bytes + size;
      },
    )

-- `write` once the guard has decided whether to drop the frame
unfoldable pub write_unless :
    Bool → Settings → ℕ → Bytes → RollingRawStore → Outcome × RollingRawStore
unfolding open_segment append_frame segment_of frame_header
write_unless true s ts frame self =
    (dropped, record self { guard_dropped = self.guard_dropped + 1 })
write_unless false s ts frame self =
    append_frame (segment_of s ts) (frame_header ts (length frame)) frame
      (open_segment (segment_of s ts) self)

unfoldable pub write : Settings → Option ℕ → ℕ → Bytes → RollingRawStore → Outcome × RollingRawStore
unfolding disk_guard write_unless
write s free ts frame self =
    let checked = disk_guard s free self in write_unless checked.guard_active s ts frame checked

unfoldable pub read_frames : List FrameRef → RollingRawStore → List Bytes
read_frames [] self = []
read_frames (r ∷ refs) self =
    let more = read_frames refs self in
    elim (get r.segment self.files) [
      | none ↦ more
      | some body ↦ take r.size (drop r.offset body) ∷ more
    ]

-- Is the segment purged at this time? It ends before the cutoff, and is not the open one.
unfoldable pub is_purged : Settings → ℕ → Option ℕ → ℕ → Bool
is_purged s now current seg =
    ltb (seg + s.segment_seconds + s.retention) (seconds now)
    && elim current [ none ↦ true | some c ↦ not (seg == c) ]

unfoldable pub purge_files : Settings → ℕ → Option ℕ → Dict ℕ Bytes → Dict ℕ Bytes
unfolding is_purged
purge_files s now current [] = []
purge_files s now current ((seg, body) ∷ rest) =
    let kept = purge_files s now current rest in
    if is_purged s now current seg then kept else (seg, body) ∷ kept

-- The number of files that are removed, and the store.
unfoldable pub purge : Settings → ℕ → RollingRawStore → ℕ × RollingRawStore
unfolding purge_files
purge s now self =
    let left = purge_files s now self.current self.files in
    (length self.files - length left, record self { files = left })

-- _close_current
unfoldable pub close_current : RollingRawStore → RollingRawStore
close_current self = record self { current = none }
