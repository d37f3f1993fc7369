-- ===== src/Records/Sound.antt =====
-- What a result of `parse_tls_records` says of its input.
use cipher_post.Prelude.{
  ℕ, zero, suc, ◌+◌, ◌≤◌, ◌<◌, max, ◌≡◌, refl, sym, ap, ◌∙◌, true, false, List, [], ◌∷◌, ◌++◌,
  append_assoc, arith, length, take, drop, All, length-take, length-drop, All-drop,
}
use cipher_post.Prelude.Bytes.{Bytes, IsBytes}
use cipher_post.Records.{
  invalid_content_type, absurd_length, out_of_fuel, Result, ok, err, TlsRecord, u16,
  is_content_type, prepend, parse_loop, parse_tls_records,
}
use cipher_post.Records.Serialize.{serialize_record, serialize, IsRecord, length-serialize_record}
use cipher_post.Records.Rounds.{
  unknown, absurd_size, partial, full, more, round, ok-prepend, serialize_record-read, read, next,
}

-- `rs` stands at the front of `bs`, in wire form, and `tail` is what follows.
pub record Splits (bs : Bytes) (rs : List TlsRecord) (tail : Bytes) : Type 0 where
  pub same : bs ≡ serialize rs ++ tail
  pub records : All IsRecord rs

Splits-nil : (bs : Bytes) → Splits bs [] bs
Splits-nil bs = record { same = refl; records = tt }

Splits-read :
    (ct v1 v0 l1 l0 : ℕ) (body : Bytes) (rs : List TlsRecord) (tail : Bytes)
    → IsBytes (ct ∷ v1 ∷ v0 ∷ l1 ∷ l0 ∷ body)
    → is_content_type ct ≡ true
    → u16 l1 l0 ≤ length body
    → Splits (drop (u16 l1 l0) body) rs tail
    → Splits
        (ct ∷ v1 ∷ v0 ∷ l1 ∷ l0 ∷ body)
        (record { content_type = ct; version = u16 v1 v0; payload = take (u16 l1 l0) body } ∷ rs)
        tail
Splits-read ct v1 v0 l1 l0 body rs tail b good whole s = record {
  same =
      serialize_record-read ct v1 v0 l1 l0 body (omega arith) (omega arith) whole
      ∙ (rw s.same (
          sym (
            append_assoc
              (serialize_record (record {
                content_type = ct;
                version = u16 v1 v0;
                payload = take (u16 l1 l0) body;
              }))
              (serialize rs) tail)));
  records =
      (record { known = good; fits = omega (arith, length-take (u16 l1 l0) body) }, s.records);
}

-- The tail starts at a byte that is no content type, and the error names both.
pub record Stuck (p : ℕ) (bs : Bytes) (ct at : ℕ) : Type 0 where
  pub parsed : List TlsRecord
  pub rest : Bytes
  pub splits : Splits bs parsed (ct ∷ rest)
  pub unknown_type : is_content_type ct ≡ false
  pub position : at ≡ p + length (serialize parsed)

-- What each result means.
abbrev pub Explained : ℕ → Bytes → Result (List TlsRecord) → Type 0
Explained p bs (ok rs) = (tail : Bytes) × Splits bs rs tail
Explained p bs (err (invalid_content_type ct at)) = Stuck p bs ct at
Explained p bs (err _) = ⊥

module _ (ct v1 v0 l1 l0 : ℕ) (body : Bytes) (p : ℕ) (b : IsBytes (ct ∷ v1 ∷ v0 ∷ l1 ∷ l0 ∷ body))
    (good : is_content_type ct ≡ true) (whole : u16 l1 l0 ≤ length body) where
  Explained-prepend :
      (x : Result (List TlsRecord))
      → Explained (p + 5 + u16 l1 l0) (drop (u16 l1 l0) body) x
      → Explained p (ct ∷ v1 ∷ v0 ∷ l1 ∷ l0 ∷ body) (
          prepend
            (record { content_type = ct; version = u16 v1 v0; payload = take (u16 l1 l0) body })
            x)
  Explained-prepend (ok rs) h = (h.0, Splits-read ct v1 v0 l1 l0 body rs h.0 b good whole h.1)
  Explained-prepend (err (invalid_content_type c at)) h = record {
    parsed =
        record { content_type = ct; version = u16 v1 v0; payload = take (u16 l1 l0) body }
        ∷ h.parsed;
    rest = h.rest;
    splits = Splits-read ct v1 v0 l1 l0 body h.parsed (c ∷ h.rest) b good whole h.splits;
    unknown_type = h.unknown_type;
    position = omega (
      arith,
      h.position,
      length-take (u16 l1 l0) body,
      length-serialize_record
          (record { content_type = ct; version = u16 v1 v0; payload = take (u16 l1 l0) body })
          (serialize h.parsed),
    );
  }
  Explained-prepend (err (absurd_length n at)) h = h
  Explained-prepend (err out_of_fuel) h = h

parse_loop-Explained :
    (fuel m k p : ℕ) (bs : Bytes)
    → IsBytes bs
    → length bs < fuel
    → Explained p bs (parse_loop fuel m k p bs)
parse_loop-Explained zero m k p bs b h = absurd (omega arith)
parse_loop-Explained (suc f) m k p (ct ∷ v1 ∷ v0 ∷ l1 ∷ l0 ∷ body) b h =
    elim (round f m k p ct v1 v0 l1 l0 body) [
      | unknown bad e ↦ rw e (record {
        parsed = [];
        rest = v1 ∷ v0 ∷ l1 ∷ l0 ∷ body;
        splits = Splits-nil (ct ∷ v1 ∷ v0 ∷ l1 ∷ l0 ∷ body);
        unknown_type = bad;
        position = omega arith;
      })
      | absurd_size big e ↦ absurd (omega arith)
      | partial short e ↦
          rw e (ct ∷ v1 ∷ v0 ∷ l1 ∷ l0 ∷ body, Splits-nil (ct ∷ v1 ∷ v0 ∷ l1 ∷ l0 ∷ body))
      | full good whole stop e ↦ rw e (
        drop (u16 l1 l0) body,
        Splits-read ct v1 v0 l1 l0 body [] (drop (u16 l1 l0) body) b good whole
            (Splits-nil (drop (u16 l1 l0) body)),
      )
      | more good whole room e ↦ rw e (
          Explained-prepend ct v1 v0 l1 l0 body p b good whole (next f m k p ct v1 v0 l1 l0 body) (
            parse_loop-Explained f m (suc k) (p + 5 + u16 l1 l0) (drop (u16 l1 l0) body)
              (All-drop (λ x. x < 256) (u16 l1 l0) body (b.1.1.1.1.1))
              (omega (arith, length-drop (u16 l1 l0) body))))
    ]
parse_loop-Explained (suc f) m k p bs b h = unfold parse_loop in (bs, Splits-nil bs)

-- For the bytes of a stream the parser ends without running out of fuel and never finds a length
-- absurd. What it returns stands at the front of the stream in wire form; the one error that it
-- raises names the first byte that stands where a content type should, and that byte's offset.
pub parse_tls_records-Explained :
    (bs : Bytes) (max_records : ℕ) → IsBytes bs → Explained 0 bs (parse_tls_records bs max_records)
unfolding parse_tls_records
parse_tls_records-Explained bs m b = parse_loop-Explained (suc (length bs)) m 0 0 bs b (omega arith)

length-parse_loop :
    (fuel m k p : ℕ) (bs : Bytes) (rs : List TlsRecord)
    → parse_loop fuel m k p bs ≡ ok rs
    → k + length rs ≤ max m (suc k)
length-parse_loop zero m k p bs rs h = unfold parse_loop in cc
length-parse_loop (suc f) m k p (ct ∷ v1 ∷ v0 ∷ l1 ∷ l0 ∷ body) rs h =
    elim (round f m k p ct v1 v0 l1 l0 body) [
      | unknown bad e ↦ cc
      | absurd_size big e ↦ cc
      | partial short e ↦ ground arith
      | full good whole stop e ↦ ground arith
      | more good whole room e ↦
          let (rest, q, same) =
            ok-prepend (read f m k p ct v1 v0 l1 l0 body) (next f m k p ct v1 v0 l1 l0 body)
              (sym e ∙ h) in
          omega (
            arith,
            ap length same,
            length-parse_loop f m (suc k) (p + 5 + u16 l1 l0) (drop (u16 l1 l0) body) rest q,
          )
    ]
length-parse_loop (suc f) m k p bs rs h = unfold parse_loop in ground arith

-- No more than `max_records` records are returned, if that is at least one.
pub length-parse_tls_records :
    (bs : Bytes) (max_records : ℕ) (rs : List TlsRecord)
    → 0 < max_records
    → parse_tls_records bs max_records ≡ ok rs
    → length rs ≤ max_records
unfolding parse_tls_records
length-parse_tls_records bs m rs pos h =
    omega (arith, length-parse_loop (suc (length bs)) m 0 0 bs rs h)
