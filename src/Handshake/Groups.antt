-- ===== src/Handshake/Groups.antt =====
-- GREASE values and named groups (backend/app/parsing/handshake.py).
use Prim.Native.Nat.{bit_and}
use Prim.Native.String.{String}
use cipher_post.Prelude.{
  ℕ, Bool, true, false, ◌&&◌, ◌||◌, Option, none, some, List, [], ◌∷◌, ◌++◌, map, ltb, leb, ◌==◌,
  if◌then◌else◌,
}
use cipher_post.Prelude.Bytes.{Bytes, codes}
use cipher_post.Prelude.Classes.{nat_eq, string_eq}
use cipher_post.Prelude.Text.{hex4}

unfoldable pub is_grease : ℕ → Bool
is_grease value = bit_and value 0x0F0F == 0x0A0A && leb 0x0A0A value && leb value 0xFAFA

unfoldable pub strip_grease : List ℕ → List ℕ
strip_grease [] = []
strip_grease (v ∷ values) = let rest = strip_grease values in if is_grease v then rest else v ∷ rest

-- HYBRID_PQ_GROUPS
unfoldable pub hybrid_pq_group : ℕ → Option String
hybrid_pq_group g =
    if g == 4587
    then some "SecP256r1MLKEM768"
    else if g == 4588
    then some "X25519MLKEM768"
    else if g == 4589
    then some "SecP384r1MLKEM1024"
    else if g == 4585
    then some "SecP256r1MLKEM512"
    else if g == 4586
    then some "MLKEM512X25519"
    else none

-- PURE_PQ_GROUPS
unfoldable pub pure_pq_group : ℕ → Option String
pure_pq_group g =
    if g == 512
    then some "MLKEM512"
    else if g == 513
    then some "MLKEM768"
    else if g == 514
    then some "MLKEM1024"
    else none

-- OBSOLETE_KYBER_DRAFTS
unfoldable pub obsolete_kyber_draft : ℕ → Option String
obsolete_kyber_draft g =
    if g == 25497
    then some "X25519Kyber768Draft00"
    else if g == 25498
    then some "SecP256r1Kyber768Draft00"
    else none

-- gid in DEPRECATED_GROUPS, which is set(range(1, 23))
unfoldable pub is_deprecated_group : ℕ → Bool
is_deprecated_group g = leb 1 g && ltb g 23

abbrev pub member : ℕ → List ℕ → Bool
member x [] = false
member x (y ∷ ys) = x == y || member x ys

abbrev pub in_table : Option String → Bool
in_table none = false
in_table (some name) = true

-- gid in MODERN_FS_GROUPS
unfoldable pub is_modern_fs_group : ℕ → Bool
unfolding hybrid_pq_group
is_modern_fs_group g =
    member g (23 ∷ 24 ∷ 25 ∷ 29 ∷ 30 ∷ 256 ∷ 257 ∷ 258 ∷ 259 ∷ 260 ∷ [])
    || in_table (hybrid_pq_group g)

-- The table of `group_name`.
classic_group_name : ℕ → Option String
classic_group_name g =
    if g == 29
    then some "x25519"
    else if g == 30
    then some "x448"
    else if g == 23
    then some "secp256r1"
    else if g == 24
    then some "secp384r1"
    else if g == 25
    then some "secp521r1"
    else if g == 256
    then some "ffdhe2048"
    else if g == 257
    then some "ffdhe3072"
    else if g == 258
    then some "ffdhe4096"
    else if g == 259
    then some "ffdhe6144"
    else if g == 260
    then some "ffdhe8192"
    else none

unfoldable pub group_name : ℕ → Bytes
unfolding hybrid_pq_group pure_pq_group obsolete_kyber_draft classic_group_name
group_name g = elim (hybrid_pq_group g) [
  | some name ↦ codes name ++ codes " (hybrid PQ)"
  | none ↦ elim (pure_pq_group g) [
    | some name ↦ codes name ++ codes " (pure PQ)"
    | none ↦ elim (obsolete_kyber_draft g) [
      | some name ↦ codes name ++ codes " (obsolete draft)"
      | none ↦ elim (classic_group_name g) [ some name ↦ codes name | none ↦ codes "0x" ++ hex4 g ]
    ]
  ]
]

unfoldable pub is_pq_group : ℕ → Bool
unfolding hybrid_pq_group pure_pq_group
is_pq_group g = in_table (hybrid_pq_group g) || in_table (pure_pq_group g)

abbrev pub any : (ℕ → Bool) → List ℕ → Bool
any p [] = false
any p (x ∷ xs) = p x || any p xs

pub record PqStatus : Type 0 where
  pub offered : List Bytes
  pub selected : Option Bytes
  pub offered_pq : Bool
  pub negotiated_pq : Bool

-- `offered_groups or []` is the list itself, empty for `None`.
unfoldable pub pq_status : List ℕ → Option ℕ → PqStatus
unfolding group_name is_pq_group strip_grease is_grease
pq_status offered_groups selected_group = record {
  offered = map group_name (strip_grease offered_groups);
  selected = elim selected_group [ none ↦ none | some sel ↦ some (group_name sel) ];
  offered_pq = any is_pq_group (strip_grease offered_groups);
  negotiated_pq = elim selected_group [ none ↦ false | some sel ↦ is_pq_group sel ];
}
