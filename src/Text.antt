-- ===== src/Text.antt =====
-- runtime/xt_runtime.c: the texts `XTString` read as UTF-8, and built. The bytes of a text are a list; behind them stands the zero byte that
-- `xt_string_new_len` writes. A pointer into the text is the list of the bytes from it on.
mod Chars
pub mod Search
pub mod Found
mod Replace
mod Replaced
mod Substring
mod Tests
use Prim.Native.Nat.{bit_and}
use atlanage.Prelude.{
  ℕ, zero, suc, ◌+◌, ◌-◌, ◌*◌, ◌/◌, ◌%◌, ◌^◌, Bool, true, false, ◌&&◌, ◌||◌, not, List, [], ◌∷◌,
  ◌++◌, Option, none, some, ltb, leb, ◌==◌, if◌then◌else◌, length, get_or, take, drop,
}
use atlanage.Word.{Memory, from_int, is_negative, is_real_ptr, type_string}
use atlanage.Compare.{is_string}

-- The chain of tests on a leading byte.
unfoldable pub char_width : ℕ → ℕ
char_width c =
    if ltb c 0x80
    then 1
    else if bit_and c 0xe0 == 0xc0
    then 2
    else if bit_and c 0xf0 == 0xe0
    then 3
    else if bit_and c 0xf8 == 0xf0
    then 4
    else 1

-- `p += n`. A pointer past the zero byte behind the text reads out of bounds: `none`.
unfoldable pub advance : ℕ → List ℕ → Option (List ℕ)
advance zero p = some p
advance (suc n) [] = none
advance (suc n) (c ∷ p) = advance n p

-- `*p` is zero.
abbrev pub at_end : List ℕ → Bool
at_end [] = true
at_end (c ∷ p) = c == 0

-- One step of the walk, at a byte that is not zero.
unfoldable pub step : List ℕ → Option (List ℕ)
unfolding advance
step [] = none
step (c ∷ p) = advance (char_width c) (c ∷ p)

-- The loop of `xt_string_char_count`, on fuel.
unfoldable pub count_loop : ℕ → List ℕ → ℕ → Option ℕ
unfolding step
count_loop zero p count = none
count_loop (suc fuel) p count =
    let rest : Option ℕ = elim (step p) [ none ↦ none | some q ↦ count_loop fuel q (count + 1) ] in
    if at_end p then some count else rest

-- `xt_string_char_count` on the bytes of a text.
unfoldable pub char_count : List ℕ → Option ℕ
unfolding count_loop
char_count p = count_loop (length p + 1) p 0

-- `while (*p && current < index)`, with the steps that are left.
unfoldable pub skip : ℕ → List ℕ → Option (List ℕ)
unfolding step
skip zero p = some p
skip (suc n) p =
    let rest : Option (List ℕ) = elim (step p) [ none ↦ none | some q ↦ skip n q ] in
    if at_end p then some p else rest

-- `for (i = 0; i < len && p[i]; i++)`
unfoldable pub copy_char : ℕ → List ℕ → List ℕ
copy_char zero p = []
copy_char (suc n) [] = []
copy_char (suc n) (c ∷ p) = if c == 0 then [] else c ∷ copy_char n p

abbrev pub first_width : List ℕ → ℕ
first_width [] = 1
first_width (c ∷ p) = char_width c

-- What stands at the pointer after the walk: a read out of bounds, null, or a character.
unfoldable pub char_at : Option (List ℕ) → Option (Option (List ℕ))
unfolding copy_char
char_at none = none
char_at (some p) = if at_end p then some none else some (some (copy_char (first_width p) p))

-- `xt_string_get_char`: a read out of bounds, null, or the bytes of a character.
unfoldable pub get_char : List ℕ → ℕ → Option (Option (List ℕ))
unfolding skip char_at
get_char data_bytes index = if is_negative index then some none else char_at (skip index data_bytes)

-- `xt_string_get_byte` on the bytes of a text.
unfoldable pub get_byte : List ℕ → ℕ → ℕ
get_byte data_bytes index =
    if is_negative index || leb (length data_bytes) index
    then from_int 0
    else from_int (get_or data_bytes index 0)

-- `xt_string_byte_length`
unfoldable pub byte_length : List ℕ → ℕ
byte_length data_bytes = from_int (length data_bytes)

-- `xt_string_next_char`: the bytes, which end at a zero byte, and the new offset. The offset is not
-- negative.
unfoldable pub next_width : ℕ → ℕ
next_width c = if leb 0xf0 c then 4 else if leb 0xe0 c then 3 else if leb 0xc0 c then 2 else 1

unfoldable pub next_char : List ℕ → ℕ → List ℕ × ℕ
unfolding next_width copy_char
next_char data_bytes offset =
    let n = length data_bytes in
    let wanted = next_width (get_or data_bytes offset 0) in
    let len = if ltb n (offset + wanted) then n - offset else wanted in
    if leb n offset then ([], offset) else (copy_char len (drop offset data_bytes), offset + len)

-- `xt_string_to_hex_string`
abbrev pub hex_upper : ℕ → ℕ
hex_upper n = if leb n 9 then n + b'0' else n - 10 + b'A'

unfoldable pub to_hex : List ℕ → List ℕ
to_hex [] = []
to_hex (b ∷ bs) = b'\\' ∷ hex_upper (b / 16) ∷ hex_upper (bit_and b 15) ∷ to_hex bs

-- The loop of `xt_string_substring`: `start_p` and, where the loop breaks or ends, `p`, which is
-- `end_p`. The positions count characters; a negative one is met by no character.
unfoldable pub sub_loop :
    ℕ → ℕ → ℕ → ℕ → List ℕ → Option (List ℕ) → Option (Option (List ℕ) × List ℕ)
unfolding step
sub_loop zero current first last p begun = none
sub_loop (suc fuel) current first last p begun =
    let begun' = if current == first then some p else begun in
    let rest : Option (Option (List ℕ) × List ℕ) = elim (step p) [
      | none ↦ none
      | some q ↦ sub_loop fuel (current + 1) first last q begun'
    ] in
    if at_end p then some (begun, p) else if current == last then some (begun', p) else rest

-- The copy from `start_p` to `end_p`, and the empty text if there is no `start_p`.
unfoldable pub cut_out : Option (Option (List ℕ) × List ℕ) → Option (List ℕ)
cut_out none = none
cut_out (some (none, p)) = some []
cut_out (some (some q, p)) = some (take (length q - length p) q)

-- `xt_string_substring`; `xt_string_new` ends the copy at a zero byte, and there is none before
-- `end_p`. `none` is a read out of bounds.
unfoldable pub substring : List ℕ → ℕ → ℕ → Option (List ℕ)
unfolding sub_loop cut_out
substring data_bytes first last =
    cut_out (sub_loop (length data_bytes + 1) 0 first last data_bytes none)

-- `xt_string_concat`; a null pointer is the empty text.
unfoldable pub concat : List ℕ → List ℕ → List ℕ
concat s t = s ++ t

-- The second loop of `xt_array_join` over the texts of the elements.
unfoldable pub join_loop : List ℕ → List (List ℕ) → List ℕ
join_loop sep [] = []
join_loop sep (s ∷ []) = s
join_loop sep (s ∷ t ∷ ss) = s ++ (sep ++ join_loop sep (t ∷ ss))

-- The loop over the characters that `xt_string_split` runs for an empty separator. A null
-- character would be appended as null; `none` is a read out of bounds.
unfoldable pub split_loop : ℕ → ℕ → List ℕ → Option (List (Option (List ℕ)))
split_loop zero i data_bytes = some []
split_loop (suc rounds) i data_bytes = elim (get_char data_bytes i) [
  | none ↦ none
  | some c ↦ elim (split_loop rounds (i + 1) data_bytes) [ none ↦ none | some cs ↦ some (c ∷ cs) ]
]

unfoldable pub split_chars : List ℕ → Option (List (Option (List ℕ)))
split_chars data_bytes = elim (char_count data_bytes) [
  | none ↦ none
  | some n ↦ split_loop n 0 data_bytes
]
