-- ===== src/Json/ValueTests.antt =====
-- Values in JSON, with an `atoll` that reads a minus and decimal digits.
use atlanage.Prelude.{
  ℕ, zero, suc, ◌+◌, ◌-◌, ◌*◌, ◌/◌, ◌%◌, ◌^◌, ◌<◌, ◌≡◌, ◌≢◌, ◌∙◌, refl, false, List, [], ◌∷◌,
  append-nil, ◌==◌, if◌then◌else◌, arith, ℕ_discrete, dec_lt, Option, length,
}
use atlanage.Prelude.Int.{pos, negsuc}
use atlanage.Word.{signed}
use atlanage.Json.Value.{
  Value, number, xt_true, xt_null, text, array, object, no_items, item, no_members, member, digits,
  decimal, print_int, serialize,
}
use atlanage.Json.Parser.{out_of_fuel, parsed, byte_at, tail, is_digit, deserialize}
use atlanage.Json.Decimal.{no_minus, decimal-AreDigits, length-decimal}
use atlanage.Json.Inverse.{deserialize-serialize}
use atlanage.Json.{parse_loop}
use atlanage.Json.Fuel.{parse_loop_or, deserialize_ends}

abbrev strtol : List ℕ → ℕ
strtol cs = 0

unfoldable read : ℕ → List ℕ → ℕ
read n [] = n
read n (c ∷ cs) = let more = read (n * 10 + (c - b'0')) cs in if is_digit c then more else n

unfoldable atoll : List ℕ → ℕ
atoll p = if byte_at p == b'-' then 2 ^ 64 - read 0 (tail p) else read 0 p

abbrev limit : ℕ → ℕ
limit zero = 1
limit (suc f) = 10 * limit f

read_last : (n : ℕ) (out : List ℕ) → read (n / 10) ((b'0' + n % 10) ∷ out) ≡ read n out
unfolding read
read_last n out =
    let e : n / 10 * 10 + (b'0' + n % 10 - b'0') ≡ n = omega arith in ground (arith, e)

read-digits : (f n : ℕ) (out : List ℕ) → n < limit f → read 0 (digits f n out) ≡ read n out
unfolding digits
read-digits zero n out h = let e : n ≡ 0 = omega arith in rw e refl
read-digits (suc f) n out h =
    let ih = read-digits f (n / 10) ((b'0' + n % 10) ∷ out) (omega arith) ∙ read_last n out in
    elim (ℕ_discrete n 0) [
      | yes e ↦ rw e refl
      | no e ↦ let z : (n == 0) ≡ false = ground (arith, e) in rw z ih
    ]

read-decimal : (n : ℕ) → n < 10 ^ 19 → read 0 (decimal n) ≡ n
unfolding decimal
read-decimal n h = elim (ℕ_discrete n 0) [
  | yes e ↦ rw e (unfold read in refl)
  | no e ↦
      let z : (n == 0) ≡ false = ground (arith, e) in
      rw z (read-digits 19 n [] (omega arith) ∙ (unfold read in refl))
]

atoll-print_int : (w : ℕ) → w < 2 ^ 64 → atoll (print_int (signed w)) ≡ w
unfolding atoll print_int
atoll-print_int w h = elim (dec_lt w (2 ^ 63)) [
  | yes l ↦
      let m = no_minus (decimal w) [] (length-decimal w).0 (decimal-AreDigits w) in
      let b : (byte_at (decimal w) == b'-') ≡ false = rw (append-nil (decimal w)) at m in
      let e : signed w ≡ pos w = ground (arith, l) in
      rw (e, print_int, b) (read-decimal w (omega arith))
  | no l ↦
      let e : signed w ≡ negsuc (2 ^ 64 - w - 1) = ground (arith, l) in
      let r = read-decimal (suc (2 ^ 64 - w - 1)) (omega arith) in
      rw (e, print_int) (omega (arith, r))
]

-- {"a": [1, true], "b": null}
abbrev sample : Value
sample = object (
    member (text (b'a' ∷ [])) (array (item (number 3) (item xt_true no_items)))
      (member (text (b'b' ∷ [])) xt_null no_members))

print_minus : print_int (negsuc 41) ≡ b'-' ∷ b'4' ∷ b'2' ∷ []
unfolding print_int decimal digits
print_minus = refl

deserialize-serialize_example : deserialize strtol atoll (serialize sample) ≡ parsed sample []
deserialize-serialize_example = deserialize-serialize strtol atoll atoll-print_int sample (
  ((refl, tt), omega arith),
  ((omega arith, refl), (tt, tt)),
  (((refl, tt), omega arith), tt, tt),
)

deserialize_ends_example :
    (deserialize strtol atoll (b'[' ∷ b'[' ∷ b'1' ∷ []) ≢ out_of_fuel)
    × ((stop : Option (List ℕ × List ℕ)) (p : List ℕ)
        → parse_loop strtol (length p + 1) p 0 ≡ parse_loop_or stop strtol (length p + 1) p 0)
deserialize_ends_example = deserialize_ends strtol atoll (b'[' ∷ b'[' ∷ b'1' ∷ [])
