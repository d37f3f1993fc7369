-- ===== src/Prelude/Cursor.antt =====
-- Reading of big-endian numbers from bytes.
use Prim.Native.Nat.{ℕ, ◌+◌, ◌*◌}
use mathlib.Core.List.{List, [], ◌∷◌}
use cipher_post.Prelude.Bytes.{Bytes}

big_from : ℕ → Bytes → ℕ
big_from acc [] = acc
big_from acc (b ∷ bs) = big_from (acc * 256 + b) bs

-- int.from_bytes(bs, "big"), which takes any number of bytes
unfoldable pub big : Bytes → ℕ
unfolding big_from
big bs = big_from 0 bs

-- [int.from_bytes(bs[i:i+2], "big") for i in range(0, len(bs) - 1, 2)]
unfoldable pub u16s : Bytes → List ℕ
u16s (a ∷ b ∷ bs) = (a * 256 + b) ∷ u16s bs
u16s _ = []
