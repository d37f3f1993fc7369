-- ===== src/Reassembly/FiveTuple.antt =====
-- The directional names of connections: `format_five_tuple` and `split_five_tuple` of
-- backend/app/parsing/reassembly.py, with the methods of `str` that they use. `int` reads the digits
-- of ASCII only.
use cipher_post.Prelude.{
  ℕ, zero, suc, ◌+◌, ◌-◌, ◌*◌, Bool, true, false, ◌&&◌, ◌||◌, Option, none, some, [], ◌∷◌, leb,
  ◌==◌, if◌then◌else◌, take, drop,
}
use cipher_post.Prelude.Bytes.{Bytes, codes}
use cipher_post.Prelude.Bytes.{find}
use cipher_post.Prelude.Classes.{nat_eq, string_eq}
use cipher_post.Reassembly.Session.{five_tuple_full}
use cipher_post.Reassembly.Assembler.{endpoint_leb}

pub data ℤ : Type 0 where
  pos negsuc : ℕ → ℤ

-- str.isspace of a character
unfoldable pub is_space : ℕ → Bool
is_space c =
    (leb 9 c && leb c 13)
    || (leb 28 c && leb c 32)
    || c == 133
    || c == 160
    || c == 5760
    || (leb 8192 c && leb c 8202)
    || c == 8232
    || c == 8233
    || c == 8239
    || c == 8287
    || c == 12288

abbrev pub is_digit : ℕ → Bool
is_digit c = leb 48 c && leb c 57

unfoldable pub skip_spaces : Bytes → Bytes
skip_spaces [] = []
skip_spaces (c ∷ cs) = let rest = skip_spaces cs in if is_space c then rest else c ∷ cs

-- Only spaces from here on.
unfoldable pub all_spaces : Bytes → Bool
all_spaces [] = true
all_spaces (c ∷ cs) = is_space c && all_spaces cs

-- The digits of a number, of which `value` has been read, up to the spaces at the end. Single
-- underscores may stand between digits; `after_digit` tells what the last character was.
unfoldable pub read_digits : ℕ → Bool → Bytes → Option ℕ
read_digits value after_digit [] = if after_digit then some value else none
read_digits value after_digit (c ∷ cs) = elim (is_digit c) [
  | true ↦ read_digits (10 * value + (c - 48)) true cs
  | false ↦ elim (c == 95 && after_digit) [
    | true ↦ read_digits value false cs
    | false ↦ if after_digit && all_spaces (c ∷ cs) then some value else none
  ]
]

abbrev pub negative : ℕ → ℤ
negative zero = pos 0
negative (suc n) = negsuc n

abbrev pub signed : Bool → Option ℕ → Option ℤ
signed minus none = none
signed false (some n) = some (pos n)
signed true (some n) = some (negative n)

abbrev pub read_signed : Bytes → Option ℤ
read_signed [] = none
read_signed (c ∷ cs) =
    if c == 45
    then signed true (read_digits 0 false cs)
    else if c == 43
    then signed false (read_digits 0 false cs)
    else signed false (read_digits 0 false (c ∷ cs))

-- int(text); `none` for ValueError
unfoldable pub int : Bytes → Option ℤ
unfolding skip_spaces read_digits
int text = read_signed (skip_spaces text)

-- s.rpartition(c), without the separator
unfoldable pub rpartition : ℕ → Bytes → Option (Bytes × Bytes)
rpartition c [] = none
rpartition c (x ∷ xs) = elim (rpartition c xs) [
  | some (before, after) ↦ some (x ∷ before, after)
  | none ↦ if x == c then some ([], xs) else none
]

-- What `rpartition` gives where the separator is missing
abbrev pub last_part : Bytes → Option (Bytes × Bytes) → Bytes × Bytes
last_part s none = ([], s)
last_part s (some parts) = parts

-- s.partition("->"), and s.partition("-") where that finds nothing
unfoldable pub sides : Bytes → Bytes × Bytes
sides s = elim (find (codes "->") s) [
  | some i ↦ (take i s, drop (i + 2) s)
  | none ↦ elim (find (codes "-") s) [ some i ↦ (take i s, drop (i + 1) s) | none ↦ (s, []) ]
]

-- s.lstrip(">")
unfoldable pub lstrip_arrow : Bytes → Bytes
lstrip_arrow [] = []
lstrip_arrow (c ∷ cs) = let rest = lstrip_arrow cs in if c == 62 then rest else c ∷ cs

unfoldable pub ports_read : Bytes → Option ℤ → Bytes → Option ℤ → Bytes × ℤ × Bytes × ℤ
ports_read c_ip none s_ip s_port = ([], pos 0, [], pos 0)
ports_read c_ip (some c_port) s_ip none = ([], pos 0, [], pos 0)
ports_read c_ip (some c_port) s_ip (some s_port) = (c_ip, c_port, lstrip_arrow s_ip, s_port)

unfoldable pub split_five_tuple : Bytes → Bytes × ℤ × Bytes × ℤ
unfolding int rpartition sides lstrip_arrow ports_read
split_five_tuple five_tuple =
    let (left, right) = sides five_tuple in
    let (c_ip, c_port) = last_part left (rpartition 58 left) in
    let (s_ip, s_port) = last_part right (rpartition 58 right) in
    ports_read c_ip (int c_port) s_ip (int s_port)

unfoldable pub format_five_tuple : Bytes → ℕ → Bytes → ℕ → Bytes
unfolding endpoint_leb five_tuple_full
format_five_tuple ip1 p1 ip2 p2 =
    if endpoint_leb ip1 p1 ip2 p2
    then five_tuple_full ip1 p1 ip2 p2
    else five_tuple_full ip2 p2 ip1 p1
