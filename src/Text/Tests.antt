-- ===== src/Text/Tests.antt =====
-- A text of a letter, a Chinese character of three bytes and a letter.
use mathlib.Core.List.{flatten}
use atlanage.Prelude.{ℕ, ◌-◌, ◌≡◌, refl, List, [], ◌∷◌, some, arith, length, take, drop}
use atlanage.Text.Replace.{replace, built, out_of_bounds}
use atlanage.Text.Replaced.{text_of, replace-replaced}
use atlanage.Text.Search.{strstr}
use atlanage.Text.{advance, char_width, char_count, substring}
use atlanage.Text.Chars.{AllChars, char_count-flatten}
use atlanage.Text.Substring.{substring-flatten}

abbrev chars : List (List ℕ)
chars = (b'a' ∷ []) ∷ (0xe4 ∷ 0xb8 ∷ 0xad ∷ []) ∷ (b'b' ∷ []) ∷ []

chars-AllChars : AllChars chars
unfolding char_width
chars-AllChars = (
  (refl, (ground arith, tt)),
  ((refl, (ground arith, (ground arith, (ground arith, tt)))), ((refl, (ground arith, tt)), tt)),
)

char_count-flatten_example : char_count (flatten chars) ≡ some (length chars)
char_count-flatten_example = char_count-flatten chars chars-AllChars

substring-flatten_example :
    substring (flatten chars) 1 3 ≡ some (flatten (take (3 - 1) (drop 1 chars)))
substring-flatten_example = substring-flatten chars 1 3 chars-AllChars (omega arith)

-- "banana" with "an" replaced by "oxo".
replace-replaced_example :
    text_of (b'b' ∷ b'a' ∷ b'n' ∷ b'a' ∷ b'n' ∷ b'a' ∷ []) (
      replace
        (b'b' ∷ b'a' ∷ b'n' ∷ b'a' ∷ b'n' ∷ b'a' ∷ [])
        (b'a' ∷ b'n' ∷ [])
        (b'o' ∷ b'x' ∷ b'o' ∷ []))
    ≡ some (b'b' ∷ b'o' ∷ b'x' ∷ b'o' ∷ b'o' ∷ b'x' ∷ b'o' ∷ b'a' ∷ [])
replace-replaced_example =
    replace-replaced (b'b' ∷ b'a' ∷ b'n' ∷ b'a' ∷ b'n' ∷ b'a' ∷ []) (b'a' ∷ b'n' ∷ [])
      (b'o' ∷ b'x' ∷ b'o' ∷ []) refl refl (omega arith) (omega arith) (omega arith)

-- A shorter text makes the buffer smaller.
replace_shrinks :
    replace (b'a' ∷ b'b' ∷ b'a' ∷ b'b' ∷ []) (b'a' ∷ b'b' ∷ []) (b'c' ∷ [])
    ≡ built (b'c' ∷ b'c' ∷ [])
unfolding replace strstr advance
replace_shrinks = refl

-- The occurrence of a text with a zero byte is found by what stands before the zero byte.
replace_zero_byte : replace (b'a' ∷ []) (b'a' ∷ 0 ∷ b'b' ∷ []) [] ≡ out_of_bounds
unfolding replace strstr advance
replace_zero_byte = refl
