-- ===== src/Transport/Policy.antt =====
-- The reading of a policy: _fetch_mta_sts of backend/app/proactive/mta_sts.py, from the policy's text
-- on. The text comes as its lines.
use cipher_post.Prelude.{
  Bool, false, ◌||◌, Option, none, some, List, [], ◌∷◌, ◌++◌, ◌==◌, if◌then◌else◌,
}
use cipher_post.Prelude.Bytes.{Bytes, codes, bytes_eq}
use cipher_post.Prelude.Bytes.{starts_with}
use cipher_post.Prelude.Classes.{nat_eq, string_eq}
use cipher_post.Flows.{bytes_key, lstrip, rstrip, is_empty}
use cipher_post.Certificates.{lower}
use cipher_post.Reassembly.FiveTuple.{ℤ, int}

-- The answer of _fetch_mta_sts.
pub record Sts : Type 0 where
  pub mx_hosts : List Bytes
  pub txt : Option Bytes
  pub mode : Option Bytes
  pub max_age : Option ℤ
  pub mx_patterns : List Bytes
  pub error : Option Bytes

abbrev pub strip : Bytes → Bytes
strip text = rstrip (lstrip text)

-- line.split(":", 1), if there is a colon
unfoldable pub split_colon : Bytes → Option (Bytes × Bytes)
split_colon [] = none
split_colon (c ∷ cs) =
    let rest = split_colon cs in
    if c == 58 then some ([], cs) else elim rest [ none ↦ none | some (k, v) ↦ some (c ∷ k, v) ]

-- out["mode"] in ("enforce", "testing", "none")
abbrev pub is_mode : Option Bytes → Bool
is_mode none = false
is_mode (some mode) =
    bytes_eq mode (codes "enforce")
    || bytes_eq mode (codes "testing")
    || bytes_eq mode (codes "none")

module _ (repr : Bytes → Bytes) where
  -- The branches on the key of a line.
  unfoldable pub set_key : Bytes → Bytes → Sts → Sts
  unfolding lower
  set_key k v out =
      if bytes_eq k (codes "mode")
      then record out { mode = some (lower v) }
      else if bytes_eq k (codes "max_age")
      then elim (int v) [
        | none ↦ record out { error = some (codes "malformed max_age: " ++ repr v) }
        | some n ↦ record out { max_age = some n }
      ]
      else if bytes_eq k (codes "mx")
      then record out { mx_patterns = out.mx_patterns ++ v ∷ [] }
      else out

  -- The body of the loop over the lines.
  unfoldable pub read_line : Bytes → Sts → Sts
  unfolding split_colon set_key lstrip rstrip
  read_line line out =
      if is_empty (strip line) || starts_with (codes "#") (strip line)
      then out
      else elim (split_colon (strip line)) [
        | none ↦ out
        | some (k, v) ↦ set_key (lower (strip k)) (strip v) out
      ]

  unfoldable pub read_lines : List Bytes → Sts → Sts
  unfolding read_line
  read_lines [] out = out
  read_lines (line ∷ lines) out = read_lines lines (read_line line out)

  abbrev pub repr_mode : Option Bytes → Bytes
  repr_mode none = codes "None"
  repr_mode (some mode) = repr mode

  -- The loop over policy.splitlines() and the test of the mode.
  unfoldable pub read_policy : List Bytes → Sts → Sts
  unfolding read_lines
  read_policy lines out =
      let read : Sts = read_lines lines out in
      if is_mode read.mode
      then read
      else record read { error = some (codes "malformed mode: " ++ repr_mode read.mode) }
