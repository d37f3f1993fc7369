-- ===== src/Prelude/Text.antt =====
-- Python's `str` of a number and the order of its strings, over code points.
use Prim.Native.Nat.{ℕ, zero, suc, ◌+◌, ◌-◌, ◌/◌, ◌%◌}
use mathlib.Core.Bool.{Bool, true, false}
use mathlib.Core.List.{List, [], ◌∷◌, ◌++◌}
use cipher_post.Prelude.Tests.{ltb, ◌==◌, if◌then◌else◌}
use cipher_post.Prelude.Lists.{length}
use cipher_post.Prelude.Bytes.{Bytes}

unfoldable pub decimal_loop : ℕ → ℕ → Bytes → Bytes
decimal_loop zero n digits = digits
decimal_loop (suc fuel) n digits =
    let more = decimal_loop fuel (n / 10) ((48 + n % 10) ∷ digits) in
    if ltb n 10 then (48 + n) ∷ digits else more

-- str(n), of a number that is not negative
unfoldable pub decimal : ℕ → Bytes
unfolding decimal_loop
decimal n = decimal_loop (suc n) n []

-- s <= t, of two strings
unfoldable pub text_leb : Bytes → Bytes → Bool
text_leb [] t = true
text_leb (x ∷ s) [] = false
text_leb (x ∷ s) (y ∷ t) =
    let rest = text_leb s t in if ltb x y then true else if x == y then rest else false

unfoldable pub hex_digit : ℕ → ℕ
hex_digit d = if ltb d 10 then 48 + d else 87 + d

unfoldable pub hex_loop : ℕ → ℕ → Bytes → Bytes
unfolding hex_digit
hex_loop zero n digits = digits
hex_loop (suc fuel) n digits =
    let more = hex_loop fuel (n / 16) (hex_digit (n % 16) ∷ digits) in
    if ltb n 16 then hex_digit n ∷ digits else more

-- f"{n:x}"
unfoldable pub hex : ℕ → Bytes
unfolding hex_loop
hex n = hex_loop (suc n) n []

unfoldable pub pad : ℕ → Bytes → Bytes
pad zero s = s
pad (suc n) s = 48 ∷ pad n s

-- f"{n:04x}"
unfoldable pub hex4 : ℕ → Bytes
unfolding hex pad
hex4 n = pad (4 - length (hex n)) (hex n)

-- f"{n:02d}"
unfoldable pub decimal2 : ℕ → Bytes
unfolding decimal pad
decimal2 n = pad (2 - length (decimal n)) (decimal n)

-- f"{n:02x}"
unfoldable pub hex2 : ℕ → Bytes
unfolding hex pad
hex2 n = pad (2 - length (hex n)) (hex n)

-- sep.join(parts)
unfoldable pub join : Bytes → List Bytes → Bytes
join sep [] = []
join sep (s ∷ []) = s
join sep (s ∷ t ∷ parts) = s ++ sep ++ join sep (t ∷ parts)

unfoldable pub insert_text : Bytes → List Bytes → List Bytes
insert_text s [] = s ∷ []
insert_text s (t ∷ ts) =
    let rest = insert_text s ts in if text_leb s t then s ∷ t ∷ ts else t ∷ rest

-- sorted(texts)
unfoldable pub sorted_text : List Bytes → List Bytes
unfolding insert_text
sorted_text [] = []
sorted_text (s ∷ ts) = insert_text s (sorted_text ts)
