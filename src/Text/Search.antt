-- ===== src/Text/Search.antt =====
-- The search of the C library on texts that end at a zero byte. A pointer into a text is the list of
-- the bytes from it on.
use atlanage.Prelude.{
  ℕ, Bool, true, false, ◌&&◌, List, [], ◌∷◌, Option, none, some, ◌==◌, if◌then◌else◌,
}

-- The bytes before the first zero byte.
abbrev pub c_str : List ℕ → List ℕ
c_str [] = []
c_str (c ∷ p) = if c == 0 then [] else c ∷ c_str p

abbrev pub starts_with : List ℕ → List ℕ → Bool
starts_with [] p = true
starts_with (a ∷ q) [] = false
starts_with (a ∷ q) (c ∷ p) = (a == c) && starts_with q p

-- A byte that was passed before what is found.
abbrev pub passed : ℕ → Option (List ℕ × List ℕ) → Option (List ℕ × List ℕ)
passed c none = none
passed c (some (pre, pos)) = some (c ∷ pre, pos)

-- `strstr`: the bytes before the first occurrence, and the pointer to it. The needle `q` has no zero
-- byte, and the search ends at the first zero byte of the text.
unfoldable pub strstr : List ℕ → List ℕ → Option (List ℕ × List ℕ)
strstr q [] = if starts_with q [] then some ([], []) else none
strstr q (c ∷ p) =
    let rest = passed c (strstr q p) in
    if starts_with q (c ∷ p) then some ([], c ∷ p) else if c == 0 then none else rest
