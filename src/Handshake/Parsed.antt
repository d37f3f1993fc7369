-- ===== src/Handshake/Parsed.antt =====
-- How a parser of backend/app/parsing/handshake.py can end: it returns, raises `TlsParseError` with
-- a message, or raises `IndexError` where it indexes past the end of its buffer.
use Prim.Native.String.{String}
use Prim.Native.Nat.{ℕ}
use cipher_post.Prelude.Bytes.{Bytes}
use cipher_post.Prelude.{[], ◌∷◌}

pub data Parsed {ℓ} (A : Type ℓ) : Type ℓ where
  parsed : A → Parsed A
  raised : String → Parsed A
  index_error : Parsed A

infixl 5 ◌>>=◌
abbrev pub ◌>>=◌ {ℓ κ} : {A : Type ℓ} {B : Type κ} → Parsed A → (A → Parsed B) → Parsed B
parsed a >>= f = f a
raised e >>= f = raised e
index_error >>= f = index_error

-- buf[pos], with what follows it, of `buf[pos:]`
abbrev pub index : Bytes → Parsed (ℕ × Bytes)
index [] = index_error
index (b ∷ bs) = parsed (b, bs)
