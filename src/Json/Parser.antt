-- ===== src/Json/Parser.antt =====
-- runtime/xt_runtime.c, the parser of JSON: `json_parse_value` and what it calls. An object is the
-- list of the calls of `xt_dict_set`, in order. `strtol` with base 16 and `atoll` are the C library's.
use atlanage.Prelude.{
  ℕ, zero, suc, ◌+◌, ◌-◌, ◌*◌, Bool, true, false, ◌&&◌, ◌||◌, List, [], ◌∷◌, none, some, leb, ◌==◌,
  if◌then◌else◌, length, take, drop, min,
}
use atlanage.Word.{from_int}
use atlanage.Json.{parse_string}
use atlanage.Json.Value.{
  Value, number, xt_true, xt_false, xt_null, text, array, object, no_items, item, no_members,
  member, true_text, false_text, null_text,
}

-- A result and the pointer behind it; `unsafe` is a read or a write out of bounds.
pub data Parsed : Type 0 where
  out_of_fuel : Parsed
  unsafe : Parsed
  parsed : Value → List ℕ → Parsed

-- `**p`; a zero byte stands behind the text.
abbrev pub byte_at : List ℕ → ℕ
byte_at [] = 0
byte_at (c ∷ p) = c

-- `(*p)++` at a byte that is not zero.
abbrev pub tail : List ℕ → List ℕ
tail [] = []
tail (c ∷ p) = p

abbrev pub is_space : ℕ → Bool
is_space c = c == b' ' || (c == 9 || (c == 10 || c == 13))

-- `json_skip_ws`
unfoldable pub skip_ws : List ℕ → List ℕ
skip_ws [] = []
skip_ws (c ∷ p) = if is_space c then skip_ws p else c ∷ p

abbrev pub is_digit : ℕ → Bool
is_digit c = leb b'0' c && leb c b'9'

unfoldable pub skip_digits : List ℕ → List ℕ
skip_digits [] = []
skip_digits (c ∷ p) = if is_digit c then skip_digits p else c ∷ p

abbrev pub after_minus : List ℕ → List ℕ
after_minus p = if byte_at p == b'-' then tail p else p

unfoldable pub after_fraction : List ℕ → List ℕ
unfolding skip_digits
after_fraction p = if byte_at p == b'.' then skip_digits (tail p) else p

abbrev pub after_sign : List ℕ → List ℕ
after_sign p = if byte_at p == b'+' || byte_at p == b'-' then tail p else p

unfoldable pub after_exponent : List ℕ → List ℕ
unfolding skip_digits
after_exponent p =
    if byte_at p == b'e' || byte_at p == b'E' then skip_digits (after_sign (tail p)) else p

-- The pointer behind a number.
unfoldable pub number_end : List ℕ → List ℕ
unfolding skip_digits after_fraction after_exponent
number_end p = after_exponent (after_fraction (skip_digits (after_minus p)))

-- `json_parse_number`; the buffer holds 127 bytes of it.
unfoldable pub parse_number : (List ℕ → ℕ) → List ℕ → Parsed
unfolding number_end
parse_number atoll p =
    let len = length p - length (number_end p) in
    if len == 0 || (len == 1 && byte_at p == b'-')
    then parsed xt_null p
    else parsed (number (from_int (atoll (take (min len 127) p)))) (number_end p)

-- `strncmp(*p, w, length of w) == 0`
unfoldable pub starts : List ℕ → List ℕ → Bool
starts [] p = true
starts (c ∷ w) [] = false
starts (c ∷ w) (d ∷ p) = c == d && starts w p

-- The last lines of `json_parse_value`.
unfoldable pub parse_word : List ℕ → Parsed
unfolding starts
parse_word p =
    if starts true_text p
    then parsed xt_true (drop 4 p)
    else if starts false_text p
    then parsed xt_false (drop 5 p)
    else if starts null_text p
    then parsed xt_null (drop 4 p)
    else parsed xt_null p

-- A text as a value; null where there is no text.
unfoldable pub parse_text : (List ℕ → ℕ) → List ℕ → Parsed
parse_text strtol p = elim (parse_string strtol p) [
  | none ↦ unsafe
  | some none ↦ parsed xt_null p
  | some (some (s, q)) ↦ parsed (text s) q
]

-- An element before those that the later rounds add; where a later round fails, all are released.
abbrev pub push_item : Value → Parsed → Parsed
push_item v (parsed (array xs) q) = parsed (array (item v xs)) q
push_item v r = r

abbrev pub push_member : List ℕ → Value → Parsed → Parsed
push_member k v (parsed (object ms) q) = parsed (object (member (text k) v ms)) q
push_member k v r = r

-- The rounds of the loop of `json_parse_array` behind an element, from the pointer behind it.
unfoldable pub after_item : (List ℕ → Parsed) → Value → List ℕ → Parsed
unfolding skip_ws
after_item more v q =
    let q' = skip_ws q in
    if byte_at q' == b']'
    then parsed (array (item v no_items)) (tail q')
    else if byte_at q' == b','
    then push_item v (more (tail q'))
    else parsed xt_null q'

unfoldable pub after_member : (List ℕ → Parsed) → List ℕ → Value → List ℕ → Parsed
unfolding skip_ws
after_member more k v q =
    let q' = skip_ws q in
    if byte_at q' == b'}'
    then parsed (object (member (text k) v no_members)) (tail q')
    else if byte_at q' == b','
    then push_member k v (more (tail q'))
    else parsed xt_null q'

-- What is done with a value, where there is one.
abbrev pub then_value : Parsed → (Value → List ℕ → Parsed) → Parsed
then_value (parsed v q) f = f v q
then_value out_of_fuel f = out_of_fuel
then_value unsafe f = unsafe

-- A round of the loop of `json_parse_array`, by the calls that it makes.
unfoldable pub items_round : (List ℕ → Parsed) → (List ℕ → Parsed) → List ℕ → Parsed
unfolding skip_ws after_item
items_round value more p = then_value (value (skip_ws p)) (after_item more)

-- A round of the loop of `json_parse_object` from the key on, at which `p` points.
unfoldable pub members_round :
    (List ℕ → ℕ) → (List ℕ → Parsed) → (List ℕ → Parsed) → List ℕ → Parsed
unfolding skip_ws after_member
members_round strtol value more p = elim (parse_string strtol p) [
  | none ↦ unsafe
  | some none ↦ parsed xt_null p
  | some (some (k, q)) ↦
      if byte_at (skip_ws q) == b':'
      then then_value (value (skip_ws (tail (skip_ws q)))) (after_member more k)
      else parsed xt_null (skip_ws q)
]

-- `json_parse_array` and `json_parse_object` behind the opening bracket, by their loops.
unfoldable pub parse_array : (List ℕ → Parsed) → List ℕ → Parsed
unfolding skip_ws
parse_array loop p =
    if byte_at (skip_ws p) == b']'
    then parsed (array no_items) (tail (skip_ws p))
    else loop (skip_ws p)

unfoldable pub parse_object : (List ℕ → Parsed) → List ℕ → Parsed
unfolding skip_ws
parse_object loop p =
    if byte_at (skip_ws p) == b'}'
    then parsed (object no_members) (tail (skip_ws p))
    else loop (skip_ws p)

-- `json_parse_value` at the first byte that is no space.
unfoldable pub parse_at :
    (List ℕ → ℕ) → (List ℕ → ℕ) → (List ℕ → Parsed) → (List ℕ → Parsed) → List ℕ → Parsed
unfolding parse_text parse_number parse_object parse_array parse_word
parse_at strtol atoll items members p =
    if byte_at p == b'"'
    then parse_text strtol p
    else if is_digit (byte_at p) || byte_at p == b'-'
    then parse_number atoll p
    else if byte_at p == b'{'
    then parse_object members (tail p)
    else if byte_at p == b'['
    then parse_array items (tail p)
    else parse_word p

module _ (strtol atoll : List ℕ → ℕ) where
  -- A call of `json_parse_value`, and a round of a loop, costs a unit of fuel.
  unfoldable mutual
    unfolding parse_at items_round members_round skip_ws

    pub parse_value : ℕ → List ℕ → Parsed
    parse_value zero p = out_of_fuel
    parse_value (suc fuel) p =
        parse_at strtol atoll (parse_items fuel) (parse_members fuel) (skip_ws p)

    pub parse_items : ℕ → List ℕ → Parsed
    parse_items zero p = out_of_fuel
    parse_items (suc fuel) p = items_round (parse_value fuel) (parse_items fuel) p

    pub parse_members : ℕ → List ℕ → Parsed
    parse_members zero p = out_of_fuel
    parse_members (suc fuel) p =
        members_round strtol (parse_value fuel) (parse_members fuel) (skip_ws p)

  -- `xt_json_deserialize` of a text
  unfoldable pub deserialize : List ℕ → Parsed
  unfolding parse_value
  deserialize s = if length s == 0 then parsed xt_null s else parse_value (2 * length s + 1) s
