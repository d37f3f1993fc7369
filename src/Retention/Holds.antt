-- ===== src/Retention/Holds.antt =====
-- Bytes of a segment file stay where they are, over every operation of the store of frames.
use cipher_post.Prelude.{
  ℕ, ◌+◌, ◌≤◌, ◌≡◌, refl, sym, ap, ◌∙◌, inl, inr, Bool, true, false, not, ◌&&◌, Option, none, some,
  List, [], ◌∷◌, ◌++◌, append-nil, append_assoc, arith, ◌==◌, ge→ltb, ==_iff, Bool-cases, length,
}
use cipher_post.Prelude.Bytes.{Bytes}
use cipher_post.Prelude.Classes.{nat_eq, string_eq}
use cipher_post.Prelude.Dict.{Dict, get, put, get-put_self}
use cipher_post.Retention.{
  Settings, RollingRawStore, seconds, frame_header, segment_of, content, open_segment, disk_guard,
  packed, append_frame, write_unless, write, is_purged, purge_files, purge, close_current,
}
use mathlib.Core.Path.{subst}
use cipher_post.Prelude.Dict.{get-put_other}

-- The file of the segment holds these bytes from the offset on.
pub record Holds (seg offset : ℕ) (body : Bytes) (files : Dict ℕ Bytes) : Type 0 where
  pub pre : Bytes
  pub post : Bytes
  pub there : get seg files ≡ some (pre ++ body ++ post)
  pub at : length pre ≡ offset

-- The operations on a store, each with what the world answers.
pub data Op : Type 0 where
  writes : Option ℕ → ℕ → Bytes → Op
  purges : ℕ → Op
  closes : Op

abbrev pub step : Settings → Op → RollingRawStore → RollingRawStore
step s (writes free ts frame) self = (write s free ts frame self).1
step s (purges now) self = (purge s now self).1
step s closes self = close_current self

abbrev pub run : Settings → List Op → RollingRawStore → RollingRawStore
run s [] self = self
run s (op ∷ ops) self = run s ops (step s op self)

-- No purge comes later than the time.
abbrev pub PurgedBy : ℕ → List Op → Type 0
PurgedBy t [] = Unit
PurgedBy t (purges now ∷ ops) = (now ≤ t) × PurgedBy t ops
PurgedBy t (writes free ts frame ∷ ops) = PurgedBy t ops
PurgedBy t (closes ∷ ops) = PurgedBy t ops

put-Holds :
    (seg offset : ℕ) (body more : Bytes) (other : ℕ) (files : Dict ℕ Bytes)
    → Holds seg offset body files
    → Holds seg offset body (put other (content (get other files) ++ more) files)
put-Holds seg offset body more other files h = elim (Bool-cases (other == seg)) [
  | inl e ↦
      let same : other ≡ seg = (==_iff other seg).0 e in
      record {
        pre = h.pre;
        post = h.post ++ more;
        there =
            ap (λ k. get seg (put k (content (get k files) ++ more) files)) same
            ∙ get-put_self seg (content (get seg files) ++ more) files
            ∙ ap (λ o. some (content o ++ more)) h.there
            ∙ ap (λ b. some b) (simp append_assoc refl);
        at = h.at;
      }
  | inr e ↦ record {
    pre = h.pre;
    post = h.post;
    there = get-put_other other seg (content (get other files) ++ more) files e ∙ h.there;
    at = h.at;
  }
]

open-Holds :
    (seg offset : ℕ) (body : Bytes) (other : ℕ) (self : RollingRawStore)
    → Holds seg offset body self.files
    → Holds seg offset body (open_segment other self).files
unfolding open_segment
open-Holds seg offset body other self h =
    subst (λ c. Holds seg offset body (put other c self.files))
      (append-nil (content (get other self.files)))
      (put-Holds seg offset body [] other self.files h)

append_frame-Holds :
    (seg offset : ℕ) (body : Bytes) (other : ℕ) (header : Option Bytes) (frame : Bytes)
    (self : RollingRawStore)
    → Holds seg offset body self.files
    → Holds seg offset body (append_frame other header frame self).1.files
unfolding append_frame
append_frame-Holds seg offset body other none frame self h = h
append_frame-Holds seg offset body other (some header) frame self h =
    put-Holds seg offset body (packed header frame) other self.files h

disk_guard-files :
    (s : Settings) (free : Option ℕ) (self : RollingRawStore)
    → (disk_guard s free self).files ≡ self.files
unfolding disk_guard
disk_guard-files s free self = ground arith

write_unless-Holds :
    (drops : Bool) (s : Settings) (seg offset : ℕ) (body : Bytes) (ts : ℕ) (frame : Bytes)
    (self : RollingRawStore)
    → Holds seg offset body self.files
    → Holds seg offset body (write_unless drops s ts frame self).1.files
unfolding write_unless
write_unless-Holds true s seg offset body ts frame self h = h
write_unless-Holds false s seg offset body ts frame self h =
    append_frame-Holds seg offset body (segment_of s ts) (frame_header ts (length frame)) frame
      (open_segment (segment_of s ts) self) (open-Holds seg offset body (segment_of s ts) self h)

write-Holds :
    (s : Settings) (seg offset : ℕ) (body : Bytes) (free : Option ℕ) (ts : ℕ) (frame : Bytes)
    (self : RollingRawStore)
    → Holds seg offset body self.files
    → Holds seg offset body (write s free ts frame self).1.files
unfolding write
write-Holds s seg offset body free ts frame self h =
    write_unless-Holds (disk_guard s free self).guard_active s seg offset body ts frame
      (disk_guard s free self)
      (subst (Holds seg offset body) (sym (disk_guard-files s free self)) h)

get-purge_files :
    (s : Settings) (now : ℕ) (current : Option ℕ) (seg : ℕ) (files : Dict ℕ Bytes)
    → is_purged s now current seg ≡ false
    → get seg (purge_files s now current files) ≡ get seg files
unfolding purge_files get
get-purge_files s now current seg [] e = refl
get-purge_files s now current seg ((k, body) ∷ rest) e = elim (Bool-cases (k == seg)) [
  | inl same ↦
      let kept : is_purged s now current k ≡ false =
        ap (λ j. is_purged s now current j) ((==_iff k seg).0 same) ∙ e in
      ground (arith, kept)
  | inr other ↦ ground (arith, get-purge_files s now current seg rest e)
]

purge-Holds :
    (s : Settings) (seg offset : ℕ) (body : Bytes) (now : ℕ) (self : RollingRawStore)
    → seconds now ≤ seg + s.segment_seconds + s.retention
    → Holds seg offset body self.files
    → Holds seg offset body (purge s now self).1.files
unfolding purge is_purged
purge-Holds s seg offset body now self le h =
    let early : is_purged s now self.current seg ≡ false =
      ap (λ t. t && elim self.current [ none ↦ true | some c ↦ not (seg == c) ])
        (ge→ltb (seg + s.segment_seconds + s.retention) (seconds now) le) in
    record {
      pre = h.pre;
      post = h.post;
      there = get-purge_files s now self.current seg self.files early ∙ h.there;
      at = h.at;
    }

pub run-Holds :
    (s : Settings) (seg offset : ℕ) (body : Bytes) (t : ℕ) (ops : List Op) (self : RollingRawStore)
    → seconds t ≤ seg + s.segment_seconds + s.retention
    → PurgedBy t ops
    → Holds seg offset body self.files
    → Holds seg offset body (run s ops self).files
run-Holds s seg offset body t [] self le p h = h
run-Holds s seg offset body t (writes free ts frame ∷ ops) self le p h =
    run-Holds s seg offset body t ops (write s free ts frame self).1 le p
      (write-Holds s seg offset body free ts frame self h)
run-Holds s seg offset body t (purges now ∷ ops) self le p h =
    run-Holds s seg offset body t ops (purge s now self).1 le p.1
      (purge-Holds s seg offset body now self (omega (arith, le, p.0)) h)
run-Holds s seg offset body t (closes ∷ ops) self le p h =
    run-Holds s seg offset body t ops (close_current self) le p (unfold close_current in h)
