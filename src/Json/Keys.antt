-- ===== src/Json/Keys.antt =====
-- Dictionaries with integers for keys in JSON.
use atlanage.Prelude.{
  ℕ, suc, ◌+◌, ◌*◌, ◌≡◌, refl, true, false, ◌||◌, List, [], ◌∷◌, ◌++◌, append_assoc, none, some,
  arith, ◌==◌, length,
}
use atlanage.Word.{to_int, signed}
use atlanage.Json.{parse_string}
use atlanage.Json.Value.{
  Value, Members, number, xt_null, object, no_members, member, print_int, serialize,
  serialize_members,
}
use atlanage.Json.Parser.{
  parsed, byte_at, is_digit, skip_ws, members_round, parse_object, parse_at, parse_value,
  deserialize,
}
use atlanage.Json.Decimal.{print_int-byte}
use atlanage.Json.Reads.{number-Starts}

-- The first byte of a printed number.
abbrev IsNumeric : List ℕ → Type 0
IsNumeric p = (is_digit (byte_at p) || byte_at p == b'-') ≡ true

parse_string-number :
    (strtol : List ℕ → ℕ) (p : List ℕ) → IsNumeric p → parse_string strtol p ≡ some none
unfolding parse_string
parse_string-number strtol [] h = refl
parse_string-number strtol (c ∷ p) h = let e : (c == b'"') ≡ false = ground (arith, h) in rw e refl

members_number :
    (w : ℕ) (v : Value) (ms : Members)
    → (p : List ℕ) × (serialize_members (member (number w) v ms) ++ b'}' ∷ []
        ≡ print_int (signed (to_int w)) ++ p)
unfolding serialize
members_number w v no_members =
    let q = b':' ∷ b' ' ∷ serialize v in
    (q ++ b'}' ∷ [], append_assoc (print_int (signed (to_int w))) q (b'}' ∷ []))
members_number w v (member l x ms) =
    let q = b':' ∷ b' ' ∷ (serialize v ++ b',' ∷ b' ' ∷ serialize_members (member l x ms)) in
    (q ++ b'}' ∷ [], append_assoc (print_int (signed (to_int w))) q (b'}' ∷ []))

module _ (strtol atoll : List ℕ → ℕ) where
  object_number :
      (f : ℕ) (p : List ℕ)
      → IsNumeric p
      → parse_value strtol atoll (suc (suc f)) (b'{' ∷ p) ≡ parsed xt_null p
  unfolding parse_value parse_at parse_object members_round skip_ws
  object_number f p h =
      let s = (number-Starts p h).0 in
      let b : (byte_at p == b'}') ≡ false = ground (arith, h) in
      let e = parse_string-number strtol p h in rw (s, b, s, e, members_round, s, s) refl

  deserialize_number :
      (p : List ℕ) → IsNumeric p → deserialize strtol atoll (b'{' ∷ p) ≡ parsed xt_null p
  unfolding deserialize
  deserialize_number p h =
      let n = length p in
      let z : (suc n == 0) ≡ false = ground arith in
      let e : 2 * suc n + 1 ≡ suc (suc (2 * n + 1)) = omega arith in
      rw (z, e) (object_number (2 * n + 1) p h)

  -- A dictionary whose first key is an integer does not come back: its JSON is read as null, since
  -- an integer key is printed without quotes.
  pub deserialize-number_key :
      (w : ℕ) (v : Value) (ms : Members)
      → (p : List ℕ) × (deserialize strtol atoll (serialize (object (member (number w) v ms)))
          ≡ parsed xt_null p)
  unfolding serialize
  deserialize-number_key w v ms =
      let (q, e) = members_number w v ms in
      let p = print_int (signed (to_int w)) ++ q in
      (p, rw e (deserialize_number p (print_int-byte (signed (to_int w)) q)))
