-- ===== src/Text/Replace.antt =====
-- `xt_string_replace`: a first pass counts the occurrences and sizes the buffer, and a second one
-- writes it. A `size_t` wraps around at 2 ^ 64, and the memory is there.
use atlanage.Prelude.{
  ℕ, zero, suc, ◌+◌, ◌-◌, ◌*◌, ◌%◌, ◌^◌, List, ◌++◌, Option, none, some, ◌==◌, if◌then◌else◌,
  length,
}
use atlanage.Text.{advance}
use atlanage.Text.Search.{c_str, strstr}

-- The first loop, on fuel; `none` moves a pointer out of bounds.
unfoldable pub count_matches : ℕ → List ℕ → List ℕ → ℕ → Option ℕ
count_matches zero old p count = none
count_matches (suc fuel) old p count = elim (strstr (c_str old) p) [
  | none ↦ some count
  | some (pre, pos) ↦ elim (advance (length old) pos) [
    | none ↦ none
    | some q ↦ count_matches fuel old q (count + 1)
  ]
]

-- The second loop, on fuel: the bytes that it writes.
unfoldable pub copy_matches : ℕ → List ℕ → List ℕ → List ℕ → Option (List ℕ)
copy_matches zero old new_bytes p = none
copy_matches (suc fuel) old new_bytes p = elim (strstr (c_str old) p) [
  | none ↦ some p
  | some (pre, pos) ↦ elim (advance (length old) pos) [
    | none ↦ none
    | some q ↦ elim (copy_matches fuel old new_bytes q) [
      | none ↦ none
      | some rest ↦ some (pre ++ (new_bytes ++ rest))
    ]
  ]
]

-- The text itself, retained; a new text; or an access out of bounds.
pub data Replaced : Type 0 where
  kept : Replaced
  built : List ℕ → Replaced
  out_of_bounds : Replaced

-- `total_len`
abbrev pub total_len : ℕ → ℕ → ℕ → ℕ → ℕ
total_len n count new_length old_length =
    (n + count * ((new_length + 2 ^ 64 - old_length) % 2 ^ 64)) % 2 ^ 64

-- The buffer of the size `total` when these bytes are written to it.
abbrev pub filled : ℕ → Option (List ℕ) → Replaced
filled total none = out_of_bounds
filled total (some bytes) = if length bytes == total then built bytes else out_of_bounds

abbrev pub replace_found : Option ℕ → List ℕ → List ℕ → List ℕ → Replaced
replace_found none s old new_bytes = out_of_bounds
replace_found (some count) s old new_bytes =
    if count == 0
    then kept
    else filled (total_len (length s) count (length new_bytes) (length old))
        (copy_matches (length s + 1) old new_bytes s)

-- `xt_string_replace`
unfoldable pub replace : List ℕ → List ℕ → List ℕ → Replaced
unfolding count_matches copy_matches
replace s old new_bytes =
    if length old == 0
    then kept
    else replace_found (count_matches (length s + 1) old s 0) s old new_bytes
