-- ===== src/Fingerprints/Order.antt =====
-- What the JA4 fingerprint of a client does not depend on.
use cipher_post.Prelude.{
  ℕ, suc, ◌%◌, min, ◌≡◌, refl, ap, ◌∙◌, Bool, true, false, List, ◌∷◌, map, if◌then◌else◌, length,
}
use cipher_post.Prelude.Bytes.{Bytes}
use cipher_post.Prelude.Classes.{nat_eq, string_eq}
use cipher_post.Prelude.Text.{decimal2, hex4, sorted_text}
use cipher_post.Handshake.Groups.{strip_grease}
use cipher_post.Handshake.ClientHello.{ClientHelloInfo}
use cipher_post.Rules.Hellos.{filter}
use cipher_post.Fingerprints.{version, hex4s, two_digits, is_hashed, ja4}
use mathlib.Core.List.Permᴰ
use mathlib.Core.List.{Permᴰ}
use mathlib.Core.Path.{subst}
use cipher_post.Prelude.TextOrder.{sorted_text_perm}

map_perm : (f : ℕ → Bytes) {xs ys : List ℕ} → Permᴰ xs ys → Permᴰ (map f xs) (map f ys)
map_perm f Permᴰ.nil = Permᴰ.nil
map_perm f (Permᴰ.cons e p) = Permᴰ.cons (ap f e) (map_perm f p)
map_perm f (Permᴰ.swap d e) = Permᴰ.swap (ap f d) (ap f e)
map_perm f (Permᴰ.trans p q) = Permᴰ.trans (map_perm f p) (map_perm f q)

length_perm : {xs ys : List ℕ} → Permᴰ xs ys → length xs ≡ length ys
length_perm Permᴰ.nil = refl
length_perm (Permᴰ.cons e p) = ap (λ n. suc n) (length_perm p)
length_perm (Permᴰ.swap d e) = refl
length_perm (Permᴰ.trans p q) = length_perm p ∙ length_perm q

keep : Bool → ℕ → List ℕ → List ℕ
keep t x rest = if t then x ∷ rest else rest

keep_perm : (t : Bool) (a : ℕ) {xs ys : List ℕ} → Permᴰ xs ys → Permᴰ (keep t a xs) (keep t a ys)
unfolding keep
keep_perm true a r = Permᴰ.cons refl r
keep_perm false a r = r

keep_swap :
    (t u : Bool) (a b : ℕ) (l : List ℕ) → Permᴰ (keep t a (keep u b l)) (keep u b (keep t a l))
unfolding keep
keep_swap true true a b l = Permᴰ.swap refl refl
keep_swap true false a b l = Permᴰ.refl (a ∷ l)
keep_swap false true a b l = Permᴰ.refl (b ∷ l)
keep_swap false false a b l = Permᴰ.refl l

filter_perm : (p : ℕ → Bool) {xs ys : List ℕ} → Permᴰ xs ys → Permᴰ (filter p xs) (filter p ys)
unfolding keep
filter_perm p Permᴰ.nil = Permᴰ.nil
filter_perm p (Permᴰ.cons {a} {b} {l₁} {l₂} e r) =
    subst (λ c. Permᴰ (filter p (a ∷ l₁)) (filter p (c ∷ l₂))) e
      (keep_perm (p a) a (filter_perm p r))
filter_perm p (Permᴰ.swap {a} {b} {a'} {b'} {l} d e) =
    subst (λ c. Permᴰ (filter p (a ∷ b ∷ l)) (filter p (a' ∷ c ∷ l))) d
      (subst (λ c. Permᴰ (filter p (a ∷ b ∷ l)) (filter p (c ∷ a ∷ l))) e
        (keep_swap (p a) (p b) a b (filter p l)))
filter_perm p (Permᴰ.trans q r) = Permᴰ.trans (filter_perm p q) (filter_perm p r)

-- Two hellos that differ in the order of their cipher suites and extensions, and in GREASE.
pub record IsAlike (a b : ClientHelloInfo) : Type 0 where
  pub versions : strip_grease a.offered_versions ≡ strip_grease b.offered_versions
  pub legacy : a.legacy_version ≡ b.legacy_version
  pub ciphers : Permᴰ (strip_grease a.cipher_suites) (strip_grease b.cipher_suites)
  pub extensions : Permᴰ (strip_grease a.extension_ids) (strip_grease b.extension_ids)
  pub sni : a.sni ≡ b.sni
  pub alpn : a.alpn ≡ b.alpn
  pub sig_algs : a.sig_algs ≡ b.sig_algs

two_digits_perm : {xs ys : List ℕ} → Permᴰ xs ys → two_digits xs ≡ two_digits ys
unfolding two_digits
two_digits_perm p = ap (λ n. decimal2 (min n 99)) (length_perm p)

hex_sorted_perm : {xs ys : List ℕ} → Permᴰ xs ys → sorted_text (hex4s xs) ≡ sorted_text (hex4s ys)
unfolding hex4s
hex_sorted_perm p = sorted_text_perm (map_perm (λ v. hex4 (v % 65536)) p)

version_same :
    (a b : ClientHelloInfo)
    → IsAlike a b
    → version a.legacy_version a.offered_versions ≡ version b.legacy_version b.offered_versions
unfolding version
version_same a b h = rw (h.versions, h.legacy) refl

-- The JA4 fingerprint does not depend on the order in which a client names its cipher suites and
-- its extensions, nor on GREASE among its versions, cipher suites and extensions.
pub ja4_alike :
    (md5 sha256 : Bytes → Bytes) (a b : ClientHelloInfo) (quic : Bool)
    → IsAlike a b
    → ja4 md5 sha256 a quic ≡ ja4 md5 sha256 b quic
unfolding ja4
ja4_alike md5 sha256 a b quic h =
    rw
      (
        version_same a b h,
        h.sni,
        h.alpn,
        h.sig_algs,
        two_digits_perm h.ciphers,
        two_digits_perm h.extensions,
        hex_sorted_perm h.ciphers,
        hex_sorted_perm (filter_perm is_hashed h.extensions),
      )
      refl
