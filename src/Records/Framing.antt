-- ===== src/Records/Framing.antt =====
-- `parse_tls_records` against the wire form: what it accepts, what it refuses, and where.
use cipher_post.Prelude.{
  ℕ, zero, suc, ◌+◌, ◌≤◌, ◌<◌, ◌≡◌, refl, inl, inr, List, [], ◌∷◌, ◌++◌, append_assoc, arith, leb,
  if◌then◌else◌, lt→ltb, ge→ltb, leb→le, Bool-cases, length, take, All, length-append, length-take,
  take-append, drop-append,
}
use cipher_post.Prelude.Bytes.{Bytes}
use cipher_post.Records.{ok, TlsRecord, max_length, prepend, parse_loop, parse_tls_records}
use cipher_post.Records.Serialize.{
  serialize_record, serialize, IsRecord, u16-div-mod, length-serialize_record,
}

-- A proper prefix of a record ends the loop without an error.
parse_loop-cut :
    (fuel max_records k pos n : ℕ) (r : TlsRecord)
    → IsRecord r
    → n < length (serialize_record r)
    → parse_loop (suc fuel) max_records k pos (take n (serialize_record r)) ≡ ok []
unfolding parse_loop
parse_loop-cut f m k p zero r v h = refl
parse_loop-cut f m k p (suc zero) r v h = refl
parse_loop-cut f m k p (suc (suc zero)) r v h = refl
parse_loop-cut f m k p (suc (suc (suc zero))) r v h = refl
parse_loop-cut f m k p (suc (suc (suc (suc zero)))) r v h = refl
parse_loop-cut f m k p (suc (suc (suc (suc (suc n))))) r v h = rw (
  v.known,
  u16-div-mod (length r.payload),
  ge→ltb max_length (length r.payload) (omega (arith, v.fits)),
  lt→ltb (length (take n r.payload)) (length r.payload) (omega (arith, length-take n r.payload)),
)

-- One whole record in front of the rest of the stream.
parse_loop-step :
    (fuel max_records k pos : ℕ) (r : TlsRecord) (bs : Bytes)
    → IsRecord r
    → parse_loop (suc fuel) max_records k pos (serialize_record r ++ bs) ≡ (
        if leb max_records (suc k)
        then ok (r ∷ [])
        else prepend r (parse_loop fuel max_records (suc k) (pos + 5 + length r.payload) bs))
unfolding parse_loop
parse_loop-step f m k p r bs v = rw (
  v.known,
  u16-div-mod (length r.payload),
  u16-div-mod r.version,
  ge→ltb max_length (length r.payload) (omega (arith, v.fits)),
  ge→ltb (length (r.payload ++ bs)) (length r.payload) (omega (arith, length-append r.payload bs)),
  take-append r.payload bs,
  drop-append r.payload bs,
)

nil_of_length : {A : Type 0} (xs : List A) → length xs ≤ 0 → xs ≡ []
nil_of_length [] h = refl
nil_of_length (x ∷ xs) h = absurd (omega arith)

-- The break on `max_records` comes after the last record, so it drops nothing.
break-prepend :
    (m k : ℕ) (x : TlsRecord) (rs : List TlsRecord)
    → k + length (x ∷ rs) ≤ m
    → (if leb m (suc k) then ok (x ∷ []) else prepend x (ok rs)) ≡ ok (x ∷ rs)
break-prepend m k x rs h = elim (Bool-cases (leb m (suc k))) [
  | inl e ↦ rw (e, nil_of_length rs (omega (arith, leb→le m (suc k) e)))
  | inr e ↦ rw e
]

parse_loop-serialize :
    (fuel max_records k pos n : ℕ) (rs : List TlsRecord) (r : TlsRecord)
    → length rs < fuel
    → k + length rs ≤ max_records
    → All IsRecord rs
    → IsRecord r
    → n < length (serialize_record r)
    → parse_loop fuel max_records k pos (serialize rs ++ take n (serialize_record r)) ≡ ok rs
parse_loop-serialize zero m k p n rs r hf hk vs v h = absurd (omega arith)
parse_loop-serialize (suc f) m k p n [] r hf hk vs v h = parse_loop-cut f m k p n r v h
parse_loop-serialize (suc f) m k p n (x ∷ rs) r hf hk vs v h =
    let rest = serialize rs ++ take n (serialize_record r) in
    rw (append_assoc (serialize_record x) (serialize rs) (take n (serialize_record r))) (
      rw
        (
          parse_loop-step f m k p x rest vs.0,
          parse_loop-serialize f m (suc k) (p + 5 + length x.payload) n rs r (omega arith)
              (omega arith) vs.1 v h,
        )
        (break-prepend m k x rs hk))

length-serialize : (rs : List TlsRecord) → length rs ≤ length (serialize rs)
length-serialize [] = omega arith
length-serialize (r ∷ rs) =
    omega (arith, length-serialize rs, length-serialize_record r (serialize rs))

-- A stream of well-formed records that is cut anywhere inside a further record parses to exactly
-- the records that are complete, as long as their number is within `max_records`.
pub parse_tls_records-serialize :
    (max_records n : ℕ) (rs : List TlsRecord) (r : TlsRecord)
    → length rs ≤ max_records
    → All IsRecord rs
    → IsRecord r
    → n < length (serialize_record r)
    → parse_tls_records (serialize rs ++ take n (serialize_record r)) max_records ≡ ok rs
unfolding parse_tls_records
parse_tls_records-serialize m n rs r hm vs v h =
    let cut = take n (serialize_record r) in
    parse_loop-serialize (suc (length (serialize rs ++ cut))) m 0 0 n rs r
      (omega (arith, length-serialize rs, length-append (serialize rs) cut)) (omega arith) vs v h
