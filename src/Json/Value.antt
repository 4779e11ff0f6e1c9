-- ===== src/Json/Value.antt =====
-- runtime/xt_runtime.c, values in JSON: `xt_json_serialize` on a value as it is seen through the
-- pointers. An object has its entries in the order of the buckets; its key is any value. `other` is a
-- pointer to anything but a text, an array or a dictionary, `illegal` a word that is none of these.
-- The memory does not run out.
use atlanage.Prelude.{ℕ, zero, suc, ◌+◌, ◌/◌, ◌%◌, List, [], ◌∷◌, ◌++◌, ◌==◌, if◌then◌else◌}
use atlanage.Prelude.Int.{ℤ, pos, negsuc}
use atlanage.Word.{signed, to_int}
use atlanage.Json.{serialize_text}

mutual
  pub data Value : Type 0 where
    number : ℕ → Value
    xt_true : Value
    xt_false : Value
    xt_null : Value
    illegal : Value
    text : List ℕ → Value
    array : Items → Value
    object : Members → Value
    other : Value

  pub data Items : Type 0 where
    no_items : Items
    item : Value → Items → Items

  pub data Members : Type 0 where
    no_members : Members
    member : Value → Value → Members → Members

-- `"%lld"`: at most 19 digits.
unfoldable pub digits : ℕ → ℕ → List ℕ → List ℕ
digits zero n out = out
digits (suc fuel) n out =
    let rest = digits fuel (n / 10) ((b'0' + n % 10) ∷ out) in if n == 0 then out else rest

unfoldable pub decimal : ℕ → List ℕ
decimal n = if n == 0 then b'0' ∷ [] else digits 19 n []

unfoldable pub print_int : ℤ → List ℕ
print_int (pos n) = decimal n
print_int (negsuc n) = b'-' ∷ decimal (suc n)

abbrev pub true_text : List ℕ
true_text = b't' ∷ b'r' ∷ b'u' ∷ b'e' ∷ []

abbrev pub false_text : List ℕ
false_text = b'f' ∷ b'a' ∷ b'l' ∷ b's' ∷ b'e' ∷ []

abbrev pub null_text : List ℕ
null_text = b'n' ∷ b'u' ∷ b'l' ∷ b'l' ∷ []

abbrev illegal_text : List ℕ
illegal_text = b'"' ∷ b'i' ∷ b'l' ∷ b'l' ∷ b'e' ∷ b'g' ∷ b'a' ∷ b'l' ∷ b'"' ∷ []

abbrev other_text : List ℕ
other_text = b'"' ∷ b'o' ∷ b'b' ∷ b'j' ∷ b'e' ∷ b'c' ∷ b't' ∷ b'"' ∷ []

-- `xt_json_serialize`
unfoldable mutual
  unfolding print_int to_int

  pub serialize : Value → List ℕ
  serialize (number w) = print_int (signed (to_int w))
  serialize xt_true = true_text
  serialize xt_false = false_text
  serialize xt_null = null_text
  serialize illegal = illegal_text
  serialize (text s) = serialize_text s
  serialize (array xs) = b'[' ∷ (serialize_items xs ++ b']' ∷ [])
  serialize (object ms) = b'{' ∷ (serialize_members ms ++ b'}' ∷ [])
  serialize other = other_text

  -- The loop over the elements of an array.
  pub serialize_items : Items → List ℕ
  serialize_items no_items = []
  serialize_items (item v no_items) = serialize v
  serialize_items (item v (item w xs)) = serialize v ++ b',' ∷ b' ' ∷ serialize_items (item w xs)

  -- The loops over the buckets of a dictionary and their entries.
  pub serialize_members : Members → List ℕ
  serialize_members no_members = []
  serialize_members (member k v no_members) = serialize k ++ b':' ∷ b' ' ∷ serialize v
  serialize_members (member k v (member l w ms)) =
      serialize k ++ b':' ∷ b' ' ∷ (serialize v ++ b',' ∷ b' ' ∷ serialize_members (member l w ms))
