-- ===== src/Fingerprints/Shape.antt =====
-- The shape of JA4 fingerprints, and the names of one byte.
use cipher_post.Prelude.{
  ℕ, ◌≤◌, min, ◌≡◌, refl, ap, ◌∙◌, inl, inr, Bool, true, false, List, [], ◌∷◌, ◌++◌, arith, ◌==◌,
  if◌then◌else◌, ==_iff, Bool-cases, length, take, drop, All, length-append, length-take,
  length-drop,
}
use cipher_post.Prelude.Bytes.{Bytes, codes, bytes_eq}
use cipher_post.Prelude.Classes.{nat_eq, string_eq}
use cipher_post.Prelude.Text.{hex2, join, sorted_text}
use cipher_post.Handshake.Groups.{strip_grease}
use cipher_post.Handshake.ClientHello.{ClientHelloInfo}
use cipher_post.Rules.Hellos.{maximum, filter}
use cipher_post.Fingerprints.{
  version_text, or_zero, max_or, version, hex4s, latin1, edge, alpn_one, last_of, alpn_ends, alpn2,
  two_digits, truthy, transport, is_hashed, sha12, extension_hash, ja4,
}
use cipher_post.Prelude.Digits.{is_alnum, length-decimal2, hex2-IsAlnum, length-hex2}

length-version_text : (v : ℕ) → length (version_text v) ≡ 2
unfolding version_text
length-version_text v = ground arith

length-two_digits : (xs : List ℕ) → length (two_digits xs) ≡ 2
unfolding two_digits
length-two_digits xs = length-decimal2 (min (length xs) 99) (omega arith)

-- A list that is long enough, cut.
length-take_one : (xs : Bytes) → 1 ≤ length xs → length (take 1 xs) ≡ 1
length-take_one xs h = omega (arith, length-take 1 xs)

length-edge : (b : ℕ) (is_first : Bool) → length (edge b is_first) ≡ 1
unfolding edge
length-edge b is_first = elim (Bool-cases (is_alnum b)) [
  | inl e ↦ rw e refl
  | inr e ↦ rw e (cut is_first)
]
  where
    cut :
        (is_first : Bool)
        → length (if is_first then take 1 (hex2 b) else take 1 (drop 1 (hex2 b))) ≡ 1
    cut true = length-take_one (hex2 b) (omega (arith, length-hex2 b))
    cut false =
        length-take_one (drop 1 (hex2 b)) (omega (arith, length-hex2 b, length-drop 1 (hex2 b)))

first-IsAlnum :
    (b : ℕ) (xs : Bytes)
    → All (λ c. is_alnum c ≡ true) xs
    → is_alnum b ≡ false
    → bytes_eq (take 1 xs) (b ∷ []) ≡ false
unfolding bytes_eq
first-IsAlnum b [] h e = refl
first-IsAlnum b (x ∷ xs) h e = elim (Bool-cases (x == b)) [
  | inl same ↦
      let eq : x ≡ b = (==_iff x b).0 same in absurd (ground (arith, h.0, ap (λ c. is_alnum c) eq))
  | inr other ↦ rw other refl
]

-- A name of one byte gives twice the character of its first end, alphanumeric or not.
pub alpn_one_twice : (b : ℕ) → alpn_one b ≡ edge b true ++ edge b true
unfolding alpn_one
alpn_one_twice b = elim (Bool-cases (is_alnum b)) [
  | inl e ↦ rw e (ground arith)
  | inr e ↦
      let cut : edge b true ≡ take 1 (hex2 b) = unfold edge in rw e refl in
      let differs : bytes_eq (edge b true) (b ∷ []) ≡ false =
        ap (λ s. bytes_eq s (b ∷ [])) cut ∙ first-IsAlnum b (hex2 b) (hex2-IsAlnum b) e in
      rw differs (ground arith)
]

length-alpn_ends : (s : Bytes) → length (alpn_ends s) ≡ 2
length-alpn_ends [] = refl
length-alpn_ends (b ∷ []) =
    ap (λ l. length l) (alpn_one_twice b)
    ∙ length-append (edge b true) (edge b true)
    ∙ omega (arith, length-edge b true)
length-alpn_ends (b ∷ c ∷ cs) =
    length-append (edge b true) (edge (last_of c cs) false)
    ∙ omega (arith, length-edge b true, length-edge (last_of c cs) false)

length-alpn2 : (alpn : List Bytes) → length (alpn2 alpn) ≡ 2
unfolding alpn2
length-alpn2 [] = refl
length-alpn2 (first ∷ rest) = length-alpn_ends (latin1 first)

module _ (md5 sha256 : Bytes → Bytes) (long : (s : Bytes) → length (sha256 s) ≡ 64) where
  length-cut : (s : Bytes) → length (take 12 (sha256 s)) ≡ 12
  length-cut s = omega (arith, length-take 12 (sha256 s), long s)

  length-sha12 : (parts : List Bytes) → length (sha12 md5 sha256 parts) ≡ 12
  unfolding sha12
  length-sha12 [] = refl
  length-sha12 (s ∷ parts) = length-cut (join (codes ",") (s ∷ parts))

  length-extension_hash :
      (exts : List Bytes) (sigs : List ℕ) → length (extension_hash md5 sha256 exts sigs) ≡ 12
  unfolding extension_hash
  length-extension_hash exts [] = length-sha12 exts
  length-extension_hash exts (s ∷ sigs) =
      length-cut (join (codes ",") exts ++ codes "_" ++ join (codes ",") (hex4s (s ∷ sigs)))

  length-transport : (quic : Bool) → length (transport quic) ≡ 1
  length-transport true = refl
  length-transport false = refl

  length-sni : (t : Bool) → length (if t then codes "d" else codes "i") ≡ 1
  length-sni true = refl
  length-sni false = refl

  -- A JA4 fingerprint has 36 characters, for every hello, if a digest has 64.
  pub length-ja4 : (ch : ClientHelloInfo) (quic : Bool) → length (ja4 md5 sha256 ch quic) ≡ 36
  unfolding ja4 version
  length-ja4 ch quic =
      let ciphers : List ℕ = strip_grease ch.cipher_suites in
      let exts : List ℕ = strip_grease ch.extension_ids in
      simp length-append (
        omega (
          arith,
          length-transport quic,
          length-version_text
              (or_zero (max_or (maximum (strip_grease ch.offered_versions)) ch.legacy_version)),
          length-sni (truthy ch.sni),
          length-two_digits ciphers,
          length-two_digits exts,
          length-alpn2 ch.alpn,
          length-sha12 (sorted_text (hex4s ciphers)),
          length-extension_hash (sorted_text (hex4s (filter is_hashed exts))) ch.sig_algs,
        ))
