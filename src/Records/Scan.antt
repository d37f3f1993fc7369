-- ===== src/Records/Scan.antt =====
-- `find_tls_offset` finds the first valid record header of the scanned part.
use cipher_post.Prelude.{
  ℕ, zero, suc, ◌+◌, ◌-◌, ◌≤◌, ◌<◌, min, ◌≡◌, refl, ◌↔◌, inl, inr, true, Option, none, some, [],
  ◌∷◌, arith, ltb, ◌==◌, ltb→lt, ==_iff, Bool-cases, Option-cases, length, take, drop, length-take,
  length-drop,
}
use cipher_post.Prelude.Bytes.{Bytes}
use mathlib.Core.Path.{subst}
use native.Mathlib.Nat.{zero-add}
use cipher_post.Records.{
  ok, TlsRecord, u16, is_record_version, parse_tls_records, valid_record_at, scan, find_tls_offset,
}

abbrev pub NoneIn : Bytes → ℕ → ℕ → Type 0
NoneIn bs lo hi = (j : ℕ) → lo ≤ j → j < hi → valid_record_at (drop j bs) ≡ none

-- The answer is the first hit at or after `lo` and before `hi`, if there is one.
abbrev pub FirstIn : Bytes → ℕ → ℕ → Option ℕ → Type 0
FirstIn bs lo hi (some i) =
    (lo ≤ i) × (i < hi) × (hit : ℕ × ℕ) × (valid_record_at (drop i bs) ≡ some hit) × NoneIn bs lo i
FirstIn bs lo hi none = NoneIn bs lo hi

NoneIn-cons :
    (bs : Bytes) (lo hi : ℕ)
    → valid_record_at (drop lo bs) ≡ none
    → NoneIn bs (suc lo) hi
    → NoneIn bs lo hi
NoneIn-cons bs lo hi e h j p q = elim (Bool-cases (lo == j)) [
  | inl same ↦ rw (← (==_iff lo j).0 same) e
  | inr other ↦ h j (ground arith) q
]

scan_hit :
    (n pos : ℕ) (bs : Bytes) {hit : ℕ × ℕ}
    → valid_record_at (drop pos bs) ≡ some hit
    → scan (suc n) pos bs ≡ some pos
unfolding scan
scan_hit n pos bs e = rw (e, scan)

scan_miss :
    (n pos : ℕ) (bs : Bytes)
    → valid_record_at (drop pos bs) ≡ none
    → scan (suc n) pos bs ≡ scan n (suc pos) bs
unfolding scan
scan_miss n pos bs e = rw (e, scan)

FirstIn-miss :
    (n pos : ℕ) (bs : Bytes) (o : Option ℕ)
    → valid_record_at (drop pos bs) ≡ none
    → FirstIn bs (suc pos) (suc pos + n) o
    → FirstIn bs pos (pos + suc n) o
FirstIn-miss n pos bs none e h = NoneIn-cons bs pos (pos + suc n) e (λ j p q. h j p (omega arith))
FirstIn-miss n pos bs (some i) e h =
    (omega arith, omega arith, h.2, h.3, NoneIn-cons bs pos i e h.4)

scan-FirstIn : (rounds pos : ℕ) (bs : Bytes) → FirstIn bs pos (pos + rounds) (scan rounds pos bs)
scan-FirstIn zero pos bs = unfold scan in λ j p q. absurd (omega arith)
scan-FirstIn (suc n) pos bs = elim (Option-cases (valid_record_at (drop pos bs))) [
  | inr (hit, e) ↦
      rw (scan_hit n pos bs e) (omega arith, omega arith, hit, e, λ j p q. absurd (omega arith))
  | inl e ↦
      rw (scan_miss n pos bs e)
        (FirstIn-miss n pos bs (scan n (suc pos) bs) e (scan-FirstIn n (suc pos) bs))
]

valid_record_at-short : (bs : Bytes) → length bs < 5 → valid_record_at bs ≡ none
unfolding valid_record_at
valid_record_at-short (a ∷ b ∷ c ∷ d ∷ e ∷ bs) h = absurd (omega arith)
valid_record_at-short bs h = refl

-- Widening the scanned part by positions at which no header fits.
FirstIn-wider :
    (bs : Bytes) (lo hi top : ℕ) (o : Option ℕ)
    → hi ≤ top
    → ((j : ℕ) → hi ≤ j → j < top → length bs < j + 5)
    → FirstIn bs lo hi o
    → FirstIn bs lo top o
FirstIn-wider bs lo hi top none h k first = λ j p q. elim (Bool-cases (ltb j hi)) [
  | inl near ↦ first j p (ltb→lt j hi near)
  | inr far ↦
      valid_record_at-short (drop j bs) (omega (arith, length-drop j bs, k j (ground arith) q))
]
FirstIn-wider bs lo hi top (some i) h k first = (first.0, omega arith, first.2, first.3, first.4)

-- `find_tls_offset` returns the first position up to `max_scan` at which a valid TLS record
-- starts; it returns nothing only if there is no such position.
pub find_tls_offset-FirstIn :
    (bs : Bytes) (max_scan : ℕ) → FirstIn bs 0 (suc max_scan) (find_tls_offset bs max_scan)
unfolding find_tls_offset
find_tls_offset-FirstIn bs m = elim (Bool-cases (ltb (length bs) 5)) [
  | inl short ↦ rw short (λ j p q.
      valid_record_at-short (drop j bs) (omega (arith, length-drop j bs, ltb→lt _ _ short)))
  | inr fits ↦ rw fits (
      FirstIn-wider bs 0 last (suc m) (scan last 0 bs) (omega arith) (λ j p q. omega arith)
        (subst (λ hi. FirstIn bs 0 hi (scan last 0 bs)) (zero-add last) (scan-FirstIn last 0 bs)))
]
  where
    last : ℕ
    last = suc (min (length bs - 5) m)

-- A header is valid exactly when the parser reads one record there, with a version that is known.
pub valid_record_at-parse :
    (bs : Bytes) (ct len : ℕ)
    → valid_record_at bs ≡ some (ct, len) ↔ (
        (r : TlsRecord) × (parse_tls_records bs 1 ≡ ok (r ∷ []))
        × (is_record_version r.version ≡ true)
        × (r.content_type ≡ ct)
        × (length r.payload ≡ len))
unfolding valid_record_at parse_tls_records
valid_record_at-parse (c ∷ v1 ∷ v0 ∷ l1 ∷ l0 ∷ body) ct len = (
  λ h. (
    record { content_type = c; version = u16 v1 v0; payload = take (u16 l1 l0) body },
    ground arith,
    ground arith,
    ground arith,
    ground (arith, length-take (u16 l1 l0) body),
  ),
  λ h. ground (arith, length-take (u16 l1 l0) body),
)
valid_record_at-parse bs ct len = (λ h. cc, λ h. cc)
