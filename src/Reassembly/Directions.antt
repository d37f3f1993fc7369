-- ===== src/Reassembly/Directions.antt =====
-- The name of a connection gives back its endpoints.
use cipher_post.Prelude.{
  ℕ, zero, suc, ◌+◌, ◌-◌, ◌*◌, ◌/◌, ◌%◌, ◌≤◌, ◌<◌, ◌≡◌, refl, ap, ◌∙◌, ◌≢◌, inl, inr, Bool, true,
  false, none, some, [], ◌∷◌, ◌++◌, append_assoc, arith, ltb, ◌==◌, ==_refl, Bool-cases, length,
  drop, All, take-append, All-append, All-imp,
}
use cipher_post.Prelude.Bytes.{Bytes, codes}
use cipher_post.Prelude.Bytes.{starts_with, find_at, find}
use cipher_post.Prelude.Classes.{nat_eq, string_eq}
use cipher_post.Prelude.Text.{decimal, decimal_loop}
use cipher_post.Reassembly.Session.{five_tuple_full}
use cipher_post.Reassembly.FiveTuple.{
  pos, is_space, is_digit, skip_spaces, read_digits, signed, int, rpartition, last_part, sides,
  lstrip_arrow, ports_read, split_five_tuple,
}

abbrev IsDigit : ℕ → Type 0
IsDigit c = (48 ≤ c) × (c ≤ 57)

decimal_loop-IsDigit :
    (fuel n : ℕ) (ds : Bytes) → All IsDigit ds → All IsDigit (decimal_loop fuel n ds)
unfolding decimal_loop
decimal_loop-IsDigit zero n ds h = h
decimal_loop-IsDigit (suc fuel) n ds h = elim (Bool-cases (ltb n 10)) [
  | inl e ↦ rw e ((omega arith, ground arith), h)
  | inr e ↦
      rw e (decimal_loop-IsDigit fuel (n / 10) ((48 + n % 10) ∷ ds) ((omega arith, omega arith), h))
]

decimal-IsDigit : (n : ℕ) → All IsDigit (decimal n)
unfolding decimal
decimal-IsDigit n = decimal_loop-IsDigit (suc n) n [] tt

read_digits_step :
    (value c : ℕ) (after_digit : Bool) (cs : Bytes)
    → IsDigit c
    → read_digits value after_digit (c ∷ cs) ≡ read_digits (10 * value + (c - 48)) true cs
unfolding read_digits
read_digits_step value c after_digit cs h =
    let d : is_digit c ≡ true = ground arith in rw (d, read_digits) refl

read_digits-decimal_loop :
    (fuel n : ℕ) (ds : Bytes)
    → n < fuel
    → read_digits 0 false (decimal_loop fuel n ds) ≡ read_digits n true ds
unfolding decimal_loop
read_digits-decimal_loop zero n ds h = absurd (omega arith)
read_digits-decimal_loop (suc fuel) n ds h = elim (Bool-cases (ltb n 10)) [
  | inl e ↦
      let v : 10 * 0 + (48 + n - 48) ≡ n = omega arith in
      rw e (
        read_digits_step 0 (48 + n) false ds (omega arith, ground arith)
        ∙ ap (λ k. read_digits k true ds) v)
  | inr e ↦
      let v : 10 * (n / 10) + (48 + n % 10 - 48) ≡ n = omega arith in
      rw e (
        read_digits-decimal_loop fuel (n / 10) ((48 + n % 10) ∷ ds) (ground arith)
        ∙ read_digits_step (n / 10) (48 + n % 10) true ds (omega arith, omega arith)
        ∙ ap (λ k. read_digits k true ds) v)
]

read_digits-decimal : (n : ℕ) → read_digits 0 false (decimal n) ≡ some n
unfolding decimal read_digits
read_digits-decimal n = read_digits-decimal_loop (suc n) n [] (omega arith)

int-digits :
    (cs : Bytes) (n : ℕ) → All IsDigit cs → read_digits 0 false cs ≡ some n → int cs ≡ some (pos n)
unfolding int skip_spaces is_space
int-digits [] n d h = absurd (unfold read_digits in ground arith)
int-digits (c ∷ cs) n d h =
    let s : is_space c ≡ false = ground arith in
    let minus : (c == 45) ≡ false = ground arith in
    let plus : (c == 43) ≡ false = ground arith in rw (s, minus, plus) (ap (λ o. signed false o) h)

-- int(str(n)) is n.
pub int-decimal : (n : ℕ) → int (decimal n) ≡ some (pos n)
int-decimal n = int-digits (decimal n) n (decimal-IsDigit n) (read_digits-decimal n)

find_at-arrow :
    (xs ys : Bytes) (at : ℕ)
    → All (λ c. c ≢ 45) xs
    → find_at (codes "->") at (xs ++ 45 ∷ 62 ∷ ys) ≡ some (at + length xs)
unfolding find_at starts_with
find_at-arrow [] ys at h = ground arith
find_at-arrow (x ∷ xs) ys at h =
    let no_match : (45 == x) ≡ false = ground (arith, h.0) in
    rw no_match (find_at-arrow xs ys (suc at) h.1 ∙ ap (λ k. some k) (omega arith))

rpartition_missing : (c : ℕ) (ys : Bytes) → All (λ y. y ≢ c) ys → rpartition c ys ≡ none
unfolding rpartition
rpartition_missing c [] h = refl
rpartition_missing c (y ∷ ys) h =
    let other : (y == c) ≡ false = ground (arith, h.0) in
    rw (rpartition_missing c ys h.1, rpartition, other) refl

rpartition_last :
    (c : ℕ) (xs ys : Bytes) → All (λ y. y ≢ c) ys → rpartition c (xs ++ c ∷ ys) ≡ some (xs, ys)
unfolding rpartition
rpartition_last c [] ys h = rw (rpartition_missing c ys h, rpartition, ==_refl c) refl
rpartition_last c (x ∷ xs) ys h = rw (rpartition_last c xs ys h, rpartition) refl

lstrip_arrow_none : (xs : Bytes) → All (λ c. c ≢ 62) xs → lstrip_arrow xs ≡ xs
unfolding lstrip_arrow
lstrip_arrow_none [] h = refl
lstrip_arrow_none (x ∷ xs) h = ground (arith, h.0)

-- str(ip) + ":" + str(port), read back at the last colon
endpoint-last :
    (ip : Bytes) (port : ℕ)
    → last_part (ip ++ 58 ∷ decimal port) (rpartition 58 (ip ++ 58 ∷ decimal port))
      ≡ (ip, decimal port)
endpoint-last ip port =
    ap (λ o. last_part (ip ++ 58 ∷ decimal port) o)
      (rpartition_last 58 ip (decimal port) (
        All-imp IsDigit (λ c. c ≢ 58) (decimal port) (λ c d e. omega (arith, d.0, d.1, e))
          (decimal-IsDigit port)))

sides-arrow :
    (left right : Bytes) → All (λ c. c ≢ 45) left → sides (left ++ 45 ∷ 62 ∷ right) ≡ (left, right)
unfolding sides find
sides-arrow left right h =
    let here : find (codes "->") (left ++ 45 ∷ 62 ∷ right) ≡ some (length left) =
      find_at-arrow left right 0 h ∙ ap (λ k. some k) (omega arith) in
    rw (here, sides)
      (ap (λ l. (l, drop (length left + 2) (left ++ 45 ∷ 62 ∷ right)))
          (take-append left (45 ∷ 62 ∷ right))
        ∙ ap (λ r. (left, r)) (drop_behind left right))
  where
    drop_behind : (left right : Bytes) → drop (length left + 2) (left ++ 45 ∷ 62 ∷ right) ≡ right
    drop_behind [] right = refl
    drop_behind (x ∷ left) right =
        let e : suc (length left) + 2 ≡ suc (length left + 2) = omega arith in
        rw e (drop_behind left right)

-- The name that a session gives to its connection is split into the endpoints that it was made of,
-- provided that the client's address has no `-` and the server's no `>`; addresses of IPv6 with
-- their colons included.
pub split-five_tuple_full :
    (c_ip : Bytes) (c_port : ℕ) (s_ip : Bytes) (s_port : ℕ)
    → All (λ c. c ≢ 45) c_ip
    → All (λ c. c ≢ 62) s_ip
    → split_five_tuple (five_tuple_full c_ip c_port s_ip s_port)
      ≡ (c_ip, pos c_port, s_ip, pos s_port)
unfolding split_five_tuple ports_read
split-five_tuple_full c_ip c_port s_ip s_port h k =
    let left : Bytes = c_ip ++ 58 ∷ decimal c_port in
    let right : Bytes = s_ip ++ 58 ∷ decimal s_port in
    let plain : All (λ c. c ≢ 45) left =
      All-append (λ c. c ≢ 45) c_ip (58 ∷ decimal c_port) h
        (
          (λ e. omega (arith, e)),
          All-imp IsDigit (λ c. c ≢ 45) (decimal c_port) (λ c d e. omega (arith, d.0, d.1, e))
              (decimal-IsDigit c_port),
        ) in
    let name : five_tuple_full c_ip c_port s_ip s_port ≡ left ++ 45 ∷ 62 ∷ right =
      unfold five_tuple_full in simp append_assoc refl in
    rw
      (
        name,
        split_five_tuple,
        sides-arrow left right plain,
        endpoint-last c_ip c_port,
        endpoint-last s_ip s_port,
        int-decimal c_port,
        int-decimal s_port,
        lstrip_arrow_none s_ip k,
      )
      refl
