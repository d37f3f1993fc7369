-- ===== src/Records/Rounds.antt =====
-- The five ways in which a round of the loop of `parse_tls_records` can end.
use cipher_post.Prelude.{
  ℕ, suc, ◌+◌, ◌/◌, ◌%◌, ◌≤◌, ◌<◌, ◌≡◌, refl, inl, inr, true, false, List, [], ◌∷◌, ◌++◌, arith,
  ltb, leb, ltb→lt, leb→le, Bool-cases, length, take, drop, take-append-drop, length-take,
}
use cipher_post.Prelude.Bytes.{Bytes}
use cipher_post.Records.{
  TlsParseError, invalid_content_type, absurd_length, Result, ok, err, TlsRecord, u16,
  is_content_type, max_length, prepend, parse_loop,
}
use cipher_post.Records.Serialize.{serialize_record}

module _ (f m k p ct v1 v0 l1 l0 : ℕ) (body : Bytes) where
  abbrev pub read : TlsRecord
  read = record { content_type = ct; version = u16 v1 v0; payload = take (u16 l1 l0) body }

  abbrev pub next : Result (List TlsRecord)
  next = parse_loop f m (suc k) (p + 5 + u16 l1 l0) (drop (u16 l1 l0) body)

  pub data Round (result : Result (List TlsRecord)) : Type 0 where
    unknown : is_content_type ct ≡ false → result ≡ err (invalid_content_type ct p) → Round result
    absurd_size : max_length < u16 l1 l0 → result ≡ err (absurd_length (u16 l1 l0) p) → Round result
    partial : length body < u16 l1 l0 → result ≡ ok [] → Round result
    full :
        is_content_type ct ≡ true
        → u16 l1 l0 ≤ length body
        → m ≤ suc k
        → result ≡ ok (read ∷ [])
        → Round result
    more :
        is_content_type ct ≡ true
        → u16 l1 l0 ≤ length body
        → suc k < m
        → result ≡ prepend read next
        → Round result

  pub round : Round (parse_loop (suc f) m k p (ct ∷ v1 ∷ v0 ∷ l1 ∷ l0 ∷ body))
  unfolding parse_loop
  round = elim (Bool-cases (is_content_type ct)) [
    | inr bad ↦ unknown bad (rw bad)
    | inl good ↦ elim (Bool-cases (ltb max_length (u16 l1 l0))) [
      | inl long ↦ absurd_size (ltb→lt _ _ long) (rw (good, long))
      | inr fine ↦ elim (Bool-cases (ltb (length body) (u16 l1 l0))) [
        | inl short ↦ partial (ltb→lt _ _ short) (rw (good, fine, short))
        | inr whole ↦ elim (Bool-cases (leb m (suc k))) [
          | inl stop ↦ full good (ground arith) (leb→le _ _ stop) (rw (good, fine, whole, stop))
          | inr go ↦ more good (ground arith) (ground arith) (rw (good, fine, whole, go))
        ]
      ]
    ]
  ]

pub ok-prepend :
    (r : TlsRecord) (x : Result (List TlsRecord)) {rs : List TlsRecord}
    → prepend r x ≡ ok rs
    → (rest : List TlsRecord) × (x ≡ ok rest) × (rs ≡ r ∷ rest)
ok-prepend r (ok rs) h = (rs, refl, cc)
ok-prepend r (err e) h = cc

pub err-prepend :
    (r : TlsRecord) (x : Result (List TlsRecord)) {e : TlsParseError}
    → prepend r x ≡ err e
    → x ≡ err e
err-prepend r (ok rs) h = cc
err-prepend r (err e) h = cc

-- A header and a payload that is all there are the wire form of the record that is read.
pub serialize_record-read :
    (ct v1 v0 l1 l0 : ℕ) (body : Bytes)
    → v0 < 256
    → l0 < 256
    → u16 l1 l0 ≤ length body
    → ct ∷ v1 ∷ v0 ∷ l1 ∷ l0 ∷ body
      ≡ serialize_record
          (record { content_type = ct; version = u16 v1 v0; payload = take (u16 l1 l0) body })
        ++ drop (u16 l1 l0) body
serialize_record-read ct v1 v0 l1 l0 body hv hl h =
    let len : length (take (u16 l1 l0) body) ≡ u16 l1 l0 =
      omega (arith, length-take (u16 l1 l0) body) in
    let a : u16 v1 v0 / 256 ≡ v1 = omega arith in
    let b : u16 v1 v0 % 256 ≡ v0 = omega arith in
    let c : u16 l1 l0 / 256 ≡ l1 = omega arith in
    let d : u16 l1 l0 % 256 ≡ l0 = omega arith in
    rw (len, a, b, c, d, take-append-drop (u16 l1 l0) body)
