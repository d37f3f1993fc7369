-- ===== src/Retention/Replay.antt =====
-- What was written to the store of frames can be read back while its time has not run out.
use cipher_post.Prelude.{
  ℕ, zero, suc, ◌+◌, ◌*◌, ◌/◌, ◌≤◌, ◌<◌, ◌≡◌, refl, sym, ap, ◌∙◌, Bool, true, false, Option, some,
  List, [], ◌∷◌, ◌++◌, append-nil, append_assoc, arith, length, take, drop, length-append,
  take-append, drop-append,
}
use cipher_post.Prelude.Bytes.{Bytes}
use cipher_post.Prelude.Classes.{nat_eq, string_eq}
use cipher_post.Prelude.Dict.{get, put, get-put_self}
use cipher_post.Retention.{
  Settings, FrameRef, RollingRawStore, seconds, little, double_bits, frame_header, header_size,
  magic, segment_of, content, open_segment, disk_guard, Outcome, stored, packed, append_frame,
  write_unless, write, read_frames,
}
use mathlib.Core.Path.{subst}
use native.Mathlib.Nat.{div-add-mod', mod-lt}
use cipher_post.Retention.Holds.{Holds, Op, run, PurgedBy, run-Holds}

length-little : (k n : ℕ) → length (little k n) ≡ k
unfolding little
length-little zero n = refl
length-little (suc k) n = ap (λ j. suc j) (length-little k (n / 256))

length-frame_header :
    (ts len : ℕ) (header : Bytes) → frame_header ts len ≡ some header → length header ≡ header_size
unfolding frame_header
length-frame_header ts len header h =
    let all : Bytes = little 8 0 ++ little 8 (double_bits ts) ++ little 4 len in
    let same : all ≡ header = ground arith in
    let size : length all ≡ 20 = simp length-append refl in sym (ap (λ b. length b) same) ∙ size

length-packed :
    (header frame : Bytes)
    → length header ≡ header_size
    → length (packed header frame) ≡ header_size + 4 + length frame
unfolding magic
length-packed header frame h = simp (length-append, length-little) (omega (arith, h))

append_frame-stored :
    (seg : ℕ) (header frame : Bytes) (self : RollingRawStore) (r : FrameRef)
    → length header ≡ header_size
    → (append_frame seg (some header) frame self).0 ≡ stored r
    → (r.segment ≡ seg)
      × (r.size ≡ length (packed header frame))
      × Holds r.segment r.offset
          (packed header frame)
          (append_frame seg (some header) frame self).1.files
unfolding append_frame
append_frame-stored seg header frame self r len h =
    let old : Bytes = content (get seg self.files) in
    let at_seg : seg ≡ r.segment = ground arith in
    let at_offset : length old ≡ r.offset = ground arith in
    let at_size : header_size + 4 + length frame ≡ r.size = ground arith in
    (
      sym at_seg,
      sym at_size ∙ sym (length-packed header frame len),
      subst
          (λ k.
            Holds k r.offset (packed header frame)
              (put seg (old ++ packed header frame) self.files))
          at_seg
          (record {
            pre = old;
            post = [];
            there =
                get-put_self seg (old ++ packed header frame) self.files
                ∙ ap (λ b. some b) (sym (append-nil (old ++ packed header frame)));
            at = at_offset;
          }),
    )

-- A stored frame lies in its segment behind the header and the magic number.
write_unless-stored :
    (drops : Bool) (s : Settings) (ts : ℕ) (frame header : Bytes) (self : RollingRawStore)
    (r : FrameRef)
    → frame_header ts (length frame) ≡ some header
    → (write_unless drops s ts frame self).0 ≡ stored r
    → (r.segment ≡ segment_of s ts)
      × (r.size ≡ length (packed header frame))
      × Holds r.segment r.offset (packed header frame) (write_unless drops s ts frame self).1.files
unfolding write_unless
write_unless-stored true s ts frame header self r e h = absurd (ground arith)
write_unless-stored false s ts frame header self r e h =
    let result : Option Bytes → Outcome × RollingRawStore =
      λ o. append_frame (segment_of s ts) o frame (open_segment (segment_of s ts) self) in
    let found : (r.segment ≡ segment_of s ts)
        × (r.size ≡ length (packed header frame))
        × Holds r.segment r.offset (packed header frame) (result (some header)).1.files =
      append_frame-stored (segment_of s ts) header frame (open_segment (segment_of s ts) self) r
        (length-frame_header ts (length frame) header e) (ap (λ o. (result o).0) (sym e) ∙ h) in
    (
      found.0,
      found.1,
      subst (λ o. Holds r.segment r.offset (packed header frame) (result o).1.files) (sym e)
          found.2,
    )

slice_between :
    (pre body post : Bytes) → take (length body) (drop (length pre) (pre ++ body ++ post)) ≡ body
slice_between pre body post =
    ap (λ b. take (length body) b)
      (ap (λ b. drop (length pre) b) (append_assoc pre body post) ∙ drop-append pre (body ++ post))
    ∙ take-append body post

read-Holds :
    (r : FrameRef) (body : Bytes) (self : RollingRawStore)
    → r.size ≡ length body
    → Holds r.segment r.offset body self.files
    → read_frames (r ∷ []) self ≡ body ∷ []
unfolding read_frames
read-Holds r body self size h =
    rw (h.there, read_frames, size, sym h.at) (ap (λ b. b ∷ []) (slice_between h.pre body h.post))

in_segment :
    (s : Settings) (ts : ℕ)
    → 0 < s.segment_seconds
    → seconds (ts + s.retention * 1000000) ≤ segment_of s ts + s.segment_seconds + s.retention
unfolding segment_of
in_segment s ts pos =
    let t : ℕ = seconds ts in omega (arith, div-add-mod' t s.segment_seconds, mod-lt t pos)

-- The reference that a write returns can be replayed as long as no purge comes later than the
-- retention time after the frame, whatever is written, purged or closed in between: it gives what
-- was written for the frame. That is a header of 24 bytes, and the frame.
pub write-replay :
    (s : Settings) (free : Option ℕ) (ts : ℕ) (frame header : Bytes) (self : RollingRawStore)
    (r : FrameRef) (ops : List Op)
    → 0 < s.segment_seconds
    → frame_header ts (length frame) ≡ some header
    → (write s free ts frame self).0 ≡ stored r
    → PurgedBy (ts + s.retention * 1000000) ops
    → read_frames (r ∷ []) (run s ops (write s free ts frame self).1) ≡ packed header frame ∷ []
unfolding write
write-replay s free ts frame header self r ops pos e h p =
    let checked : RollingRawStore = disk_guard s free self in
    let after : RollingRawStore = (write_unless checked.guard_active s ts frame checked).1 in
    let (seg, size, holds) =
      write_unless-stored checked.guard_active s ts frame header checked r e h in
    read-Holds r (packed header frame) (run s ops after) size (
      run-Holds s r.segment r.offset (packed header frame) (ts + s.retention * 1000000) ops after
        (omega (arith, seg, in_segment s ts pos)) p holds)
