-- ===== src/Retention/Tests.antt =====
-- A store with one frame.
use cipher_post.Prelude.{◌≡◌, refl, some, List, [], ◌∷◌, ◌++◌, arith}
use cipher_post.Prelude.Bytes.{Bytes}
use cipher_post.Prelude.Classes.{nat_eq, string_eq}
use cipher_post.Prelude.Dict.{get, put}
use cipher_post.Retention.{
  Settings, FrameRef, new_store, little, log2_loop, double_bits, frame_header, segment_of,
  open_segment, disk_guard, stored, packed, append_frame, write_unless, write, read_frames,
}
use cipher_post.Retention.Holds.{Op, writes, purges, closes, run}
use cipher_post.Retention.Replay.{write-replay}

abbrev settings : Settings
settings = record { retention = 60; segment_seconds = 300; disk_min_free_bytes = 1000 }

abbrev header : Bytes
header = little 8 0 ++ little 8 (double_bits 5000000) ++ little 4 2

header_five : frame_header 5000000 2 ≡ some header
unfolding frame_header
header_five = refl

abbrev first_ref : FrameRef
first_ref = record { segment = 0; offset = 0; size = 26 }

first_write : (write settings (some 5000) 5000000 (7 ∷ 8 ∷ []) (new_store [])).0 ≡ stored first_ref
unfolding write write_unless disk_guard segment_of append_frame frame_header open_segment get put
first_write = refl

abbrev ops : List Op
ops = purges 6000000 ∷ writes (some 5000) 301000000 (9 ∷ []) ∷ closes ∷ purges 65000000 ∷ []

write-replay_example :
    read_frames
      (first_ref ∷ [])
      (run settings ops (write settings (some 5000) 5000000 (7 ∷ 8 ∷ []) (new_store [])).1)
    ≡ packed header (7 ∷ 8 ∷ []) ∷ []
write-replay_example =
    write-replay settings (some 5000) 5000000 (7 ∷ 8 ∷ []) header (new_store []) first_ref ops
      (omega arith) header_five first_write (omega arith, (omega arith, tt))

-- The bits of 5.0e6
bits_five : double_bits 5000000 ≡ 0x415312D000000000
unfolding double_bits log2_loop
bits_five = refl
