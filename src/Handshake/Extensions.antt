-- ===== src/Handshake/Extensions.antt =====
-- `_parse_extensions` against the wire form of extensions.
use cipher_post.Prelude.{
  ℕ, zero, suc, ◌+◌, ◌-◌, ◌*◌, ◌/◌, ◌%◌, ◌≤◌, ◌<◌, ◌≡◌, refl, ◌∙◌, ◌⊎◌, inl, inr, true, false, List,
  [], ◌∷◌, ◌++◌, append_assoc, arith, leb, if◌then◌else◌, lt→ltb, ge→ltb, leb→le, Bool-cases,
  length, take, length-append, length-take, take-append, drop-append,
}
use cipher_post.Prelude.Bytes.{Bytes}
use cipher_post.Prelude.Classes.{nat_eq, string_eq}
use native.Mathlib.Nat.{sub-zero}
use cipher_post.Handshake.Messages.{Extension, extensions_loop, parse_extensions}

abbrev pub encode_extension : Extension → Bytes
encode_extension e = e.0 / 256 ∷ e.0 % 256 ∷ length e.1 / 256 ∷ length e.1 % 256 ∷ e.1

abbrev pub encode_extensions : List Extension → Bytes
encode_extensions [] = []
encode_extensions (e ∷ es) = encode_extension e ++ encode_extensions es

abbrev pub Fits : Extension → Type 0
Fits e = length e.1 < 65536

u16_parts : (n : ℕ) → n / 256 * 256 + n % 256 ≡ n
u16_parts n = omega arith

extensions_loop-cut :
    (fuel m k n : ℕ) (e : Extension)
    → n < length (encode_extension e)
    → extensions_loop (suc fuel) m k (take n (encode_extension e)) ≡ []
unfolding extensions_loop
extensions_loop-cut f m k zero e h = refl
extensions_loop-cut f m k (suc zero) e h = refl
extensions_loop-cut f m k (suc (suc zero)) e h = refl
extensions_loop-cut f m k (suc (suc (suc zero))) e h = refl
extensions_loop-cut f m k (suc (suc (suc (suc n)))) e h = rw (
  u16_parts (length e.1),
  lt→ltb (length (take n e.1)) (length e.1) (omega (arith, length-take n e.1)),
)

extensions_loop-step :
    (fuel m k : ℕ) (e : Extension) (bs : Bytes)
    → extensions_loop (suc fuel) m k (encode_extension e ++ bs)
      ≡ (if leb m (suc k) then e ∷ [] else e ∷ extensions_loop fuel m (suc k) bs)
unfolding extensions_loop
extensions_loop-step f m k e bs = rw (
  u16_parts (length e.1),
  u16_parts e.0,
  ge→ltb (length (e.1 ++ bs)) (length e.1) (omega (arith, length-append e.1 bs)),
  take-append e.1 bs,
  drop-append e.1 bs,
)

take_room :
    (m k : ℕ) (e : Extension) (es : List Extension)
    → k < m
    → (if leb m (suc k) then e ∷ [] else e ∷ take (m - suc k) es) ≡ take (m - k) (e ∷ es)
take_room m k e es h = rw (count) (split (Bool-cases (leb m (suc k))))
  where
    count : m - k ≡ suc (m - suc k)
    count = omega arith

    split :
        (leb m (suc k) ≡ true) ⊎ (leb m (suc k) ≡ false)
        → (if leb m (suc k) then e ∷ [] else e ∷ take (m - suc k) es) ≡ e ∷ take (m - suc k) es
    split (inl t) =
        let none_left : m - suc k ≡ 0 = omega (arith, leb→le m (suc k) t) in rw (t, none_left)
    split (inr f) = rw f

extensions_loop-encode :
    (fuel m k n : ℕ) (es : List Extension) (e : Extension)
    → length es < fuel
    → k < m
    → n < length (encode_extension e)
    → extensions_loop fuel m k (encode_extensions es ++ take n (encode_extension e))
      ≡ take (m - k) es
extensions_loop-encode zero m k n es e hf hk h = absurd (omega arith)
extensions_loop-encode (suc f) m k n [] e hf hk h =
    extensions_loop-cut f m k n e h ∙ (rw (none_of (m - k)))
  where
    none_of : (j : ℕ) → take {A = Extension} j [] ≡ []
    none_of zero = refl
    none_of (suc j) = refl
extensions_loop-encode (suc f) m k n (x ∷ es) e hf hk h = elim (Bool-cases (leb m (suc k))) [
  | inl t ↦
      rw
        (
          append_assoc (encode_extension x) (encode_extensions es) (take n (encode_extension e)),
          extensions_loop-step f m k x (encode_extensions es ++ take n (encode_extension e)),
          t,
        )
        (rw (← take_room m k x es hk, t))
  | inr t ↦
      rw
        (
          append_assoc (encode_extension x) (encode_extensions es) (take n (encode_extension e)),
          extensions_loop-step f m k x (encode_extensions es ++ take n (encode_extension e)),
          t,
          extensions_loop-encode f m (suc k) n es e (omega arith) (ground arith) h,
        )
        (rw (← take_room m k x es hk, t))
]

length-encode : (es : List Extension) → length es ≤ length (encode_extensions es)
length-encode [] = omega arith
length-encode (e ∷ es) = omega (arith, length-encode es, length-append e.1 (encode_extensions es))

-- Extensions in wire form, followed by any proper prefix of a further one, parse to exactly the
-- extensions, up to the first `max_ext`.
pub parse_extensions-encode :
    (max_ext n : ℕ) (es : List Extension) (e : Extension)
    → 0 < max_ext
    → n < length (encode_extension e)
    → parse_extensions (encode_extensions es ++ take n (encode_extension e)) max_ext
      ≡ take max_ext es
unfolding parse_extensions
parse_extensions-encode m n es e hm h =
    let cut = take n (encode_extension e) in
    extensions_loop-encode (suc (length (encode_extensions es ++ cut))) m 0 n es e
      (omega (arith, length-encode es, length-append (encode_extensions es) cut)) hm h
    ∙ (rw (sub-zero m))
