-- ===== src/Json/Reads.antt =====
-- Values that go through `xt_json_serialize` and `xt_json_deserialize`.
use atlanage.Prelude.{
  ℕ, ◌^◌, ◌≡◌, ◌≤◌, ◌<◌, refl, true, false, ◌||◌, List, [], ◌∷◌, ◌++◌, append_assoc, arith, ◌==◌,
  length,
}
use atlanage.Word.{is_int, to_int, signed}
use atlanage.Word.Exact.{from_int-to_int}
use atlanage.Json.{serialize_text}
use atlanage.Json.Roundtrip.{HasNoControl, parse_string-serialize_text}
use atlanage.Json.Value.{
  Value, Items, Members, number, xt_true, xt_false, xt_null, illegal, text, array, object, other,
  no_items, item, no_members, member, print_int, serialize, serialize_items,
}
use atlanage.Json.Parser.{Parsed, parsed, byte_at, is_digit, skip_ws, parse_text, parse_at}
use atlanage.Json.Decimal.{IsBehind, length-print_int, parse_number-print_int, print_int-byte}

-- A text that `json_parse_string` reads back.
abbrev pub IsText : Value → Type 0
IsText (text s) = HasNoControl s × (length s ≤ 4095)
IsText v = ⊥

-- Values that JSON can hold: tagged integers, the constants, texts that `json_parse_string` reads
-- back, arrays, and dictionaries whose keys are such texts.
abbrev mutual
  pub IsPlain : Value → Type 0
  IsPlain (number w) = (w < 2 ^ 64) × (is_int w ≡ true)
  IsPlain xt_true = Unit
  IsPlain xt_false = Unit
  IsPlain xt_null = Unit
  IsPlain illegal = ⊥
  IsPlain (text s) = HasNoControl s × (length s ≤ 4095)
  IsPlain (array xs) = ArePlain xs
  IsPlain (object ms) = HasPlain ms
  IsPlain other = ⊥

  pub ArePlain : Items → Type 0
  ArePlain no_items = Unit
  ArePlain (item v xs) = IsPlain v × ArePlain xs

  pub HasPlain : Members → Type 0
  HasPlain no_members = Unit
  HasPlain (member k v ms) = IsText k × IsPlain v × HasPlain ms

-- No space in front, and no closing bracket.
abbrev pub Starts : List ℕ → Type 0
Starts p = (skip_ws p ≡ p) × ((byte_at p == b']') ≡ false)

pub number-Starts : (p : List ℕ) → (is_digit (byte_at p) || byte_at p == b'-') ≡ true → Starts p
unfolding skip_ws
number-Starts [] h = absurd (ground (arith, h))
number-Starts (c ∷ p) h = (ground (arith, h), ground (arith, h))

print_int-Starts : (w : ℕ) (r : List ℕ) → Starts (print_int (signed (to_int w)) ++ r)
print_int-Starts w r =
    number-Starts (print_int (signed (to_int w)) ++ r) (print_int-byte (signed (to_int w)) r)

pub serialize-Starts : (v : Value) → IsPlain v → (r : List ℕ) → Starts (serialize v ++ r)
unfolding serialize skip_ws serialize_text
serialize-Starts (number w) h r = print_int-Starts w r
serialize-Starts xt_true h r = (refl, refl)
serialize-Starts xt_false h r = (refl, refl)
serialize-Starts xt_null h r = (refl, refl)
serialize-Starts illegal h r = absurd h
serialize-Starts (text s) h r = (refl, refl)
serialize-Starts (array xs) h r = (refl, refl)
serialize-Starts (object ms) h r = (refl, refl)
serialize-Starts other h r = absurd h

pub items-Starts :
    (v : Value) (xs : Items) → IsPlain v → (r : List ℕ) → Starts (serialize_items (item v xs) ++ r)
unfolding serialize
items-Starts v no_items h r = serialize-Starts v h r
items-Starts v (item w xs) h r =
    rw (append_assoc (serialize v) (b',' ∷ b' ' ∷ serialize_items (item w xs)) r)
      (serialize-Starts v h (b',' ∷ b' ' ∷ (serialize_items (item w xs) ++ r)))

pub length-serialize : (v : Value) → IsPlain v → 0 < length (serialize v)
unfolding serialize serialize_text
length-serialize (number w) h = (length-print_int (signed (to_int w))).0
length-serialize xt_true h = omega arith
length-serialize xt_false h = omega arith
length-serialize xt_null h = omega arith
length-serialize illegal h = absurd h
length-serialize (text s) h = omega arith
length-serialize (array xs) h = omega arith
length-serialize (object ms) h = omega arith
length-serialize other h = absurd h

-- A value as it is read at its first byte, by the kind of the value.
module _ (strtol atoll : List ℕ → ℕ) (items members : List ℕ → Parsed) where
  pub parse_at-number :
      (w : ℕ) (rest : List ℕ)
      → IsPlain (number w)
      → atoll (print_int (signed (to_int w))) ≡ to_int w
      → IsBehind rest
      → parse_at strtol atoll items members (print_int (signed (to_int w)) ++ rest)
        ≡ parsed (number w) rest
  unfolding parse_at
  parse_at-number w rest (h, t) e b =
      let d = print_int-byte (signed (to_int w)) rest in
      let q : (byte_at (print_int (signed (to_int w)) ++ rest) == b'"') ≡ false =
        ground (arith, d) in
      rw (q, d, parse_number-print_int atoll (signed (to_int w)) rest b, e, from_int-to_int w h t)
        refl

  pub parse_at-text :
      (s rest : List ℕ)
      → IsPlain (text s)
      → parse_at strtol atoll items members (serialize_text s ++ rest) ≡ parsed (text s) rest
  unfolding parse_at parse_text serialize_text
  parse_at-text s rest (h, l) =
      let e = parse_string-serialize_text strtol s rest h l in rw (e, parse_text) refl
