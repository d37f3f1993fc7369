-- ===== src/Prelude/TextOrder.antt =====
-- Sorting texts forgets the order they came in.
use mathlib.Core.Path.{◌≡◌, refl, ap, ◌∙◌}
use mathlib.Core.Bool.{true, false}
use mathlib.Core.List.{List, [], ◌∷◌, Permᴰ}
use native.Mathlib.Omega.{arith}
use cipher_post.Prelude.Bytes.{Bytes}
use cipher_post.Prelude.Text.{text_leb, insert_text, sorted_text}

text_leb_total : (s t : Bytes) → text_leb s t ≡ false → text_leb t s ≡ true
unfolding text_leb
text_leb_total [] t h = absurd (ground arith)
text_leb_total (x ∷ s) [] h = refl
text_leb_total (x ∷ s) (y ∷ t) h = ground (arith, text_leb_total s t)

text_leb_antisym : (s t : Bytes) → text_leb s t ≡ true → text_leb t s ≡ true → s ≡ t
unfolding text_leb
text_leb_antisym [] [] h k = refl
text_leb_antisym [] (y ∷ t) h k = absurd (ground arith)
text_leb_antisym (x ∷ s) [] h k = absurd (ground arith)
text_leb_antisym (x ∷ s) (y ∷ t) h k = ground (arith, text_leb_antisym s t)

text_leb_trans : (s t u : Bytes) → text_leb s t ≡ true → text_leb t u ≡ true → text_leb s u ≡ true
unfolding text_leb
text_leb_trans [] t u h k = refl
text_leb_trans (x ∷ s) [] u h k = absurd (ground arith)
text_leb_trans (x ∷ s) (y ∷ t) [] h k = absurd (ground arith)
text_leb_trans (x ∷ s) (y ∷ t) (z ∷ u) h k = ground (arith, text_leb_trans s t u)

insert_text_swap :
    (s t : Bytes) (us : List Bytes)
    → insert_text s (insert_text t us) ≡ insert_text t (insert_text s us)
unfolding insert_text
insert_text_swap s t [] = ground (arith, text_leb_total s t, text_leb_antisym s t)
insert_text_swap s t (u ∷ us) = ground (
  arith,
  text_leb_total s t,
  text_leb_antisym s t,
  text_leb_trans s t u,
  text_leb_trans t s u,
  insert_text_swap s t us,
)

-- Texts that come in another order are sorted alike.
pub sorted_text_perm : {ss ts : List Bytes} → Permᴰ ss ts → sorted_text ss ≡ sorted_text ts
unfolding sorted_text
sorted_text_perm Permᴰ.nil = refl
sorted_text_perm (Permᴰ.cons {a} {b} {l₁} {l₂} e p) =
    ap (λ s. insert_text s (sorted_text l₁)) e ∙ ap (λ l. insert_text b l) (sorted_text_perm p)
sorted_text_perm (Permᴰ.swap {a} {b} {a'} {b'} {l} e f) =
    insert_text_swap a b (sorted_text l)
    ∙ ap (λ s. insert_text s (insert_text a (sorted_text l))) f
    ∙ ap (λ s. insert_text a' (insert_text s (sorted_text l))) e
sorted_text_perm (Permᴰ.trans p q) = sorted_text_perm p ∙ sorted_text_perm q
