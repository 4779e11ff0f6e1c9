-- ===== src/Json/Tests.antt =====
-- Texts in JSON with a `strtol` that reads hexadecimal digits up to the first other byte.
use atlanage.Prelude.{
  ℕ, ◌+◌, ◌-◌, ◌*◌, ◌≡◌, refl, Bool, ◌&&◌, ◌||◌, List, [], ◌∷◌, ◌++◌, some, leb, if◌then◌else◌,
  arith,
}
use atlanage.Json.{serialize_text, escapes, parse_string}
use atlanage.Json.Roundtrip.{parse_string-serialize_text}

abbrev is_digit : ℕ → Bool
is_digit c = (leb b'0' c && leb c b'9') || (leb b'a' c && leb c b'f')

abbrev digit : ℕ → ℕ
digit c = if leb c b'9' then c - b'0' else c - b'a' + 10

abbrev read_hex : ℕ → List ℕ → ℕ
read_hex n [] = n
read_hex n (c ∷ cs) = let more = read_hex (n * 16 + digit c) cs in if is_digit c then more else n

parse_string-serialize_text_example :
    parse_string (read_hex 0) (serialize_text (b'a' ∷ b'"' ∷ 10 ∷ 0xe4 ∷ []) ++ b',' ∷ [])
    ≡ some (some (b'a' ∷ b'"' ∷ 10 ∷ 0xe4 ∷ [], b',' ∷ []))
parse_string-serialize_text_example =
    parse_string-serialize_text (read_hex 0) (b'a' ∷ b'"' ∷ 10 ∷ 0xe4 ∷ []) (b',' ∷ [])
      (refl, (refl, (refl, (refl, tt)))) (omega arith)

-- The escape of the byte 31 is read as a zero byte and the digit `f`.
parse_string_zero :
    parse_string (read_hex 0) (serialize_text (b'a' ∷ 31 ∷ b'b' ∷ [])) ≡ some (some (b'a' ∷ [], []))
unfolding parse_string serialize_text escapes
parse_string_zero = refl
