-- ===== src/Json/Decimal.antt =====
-- Numbers in JSON: what `xt_int_to_string` prints, and `json_parse_number` on it.
use atlanage.Prelude.{
  ℕ, zero, suc, ◌+◌, ◌-◌, ◌/◌, ◌%◌, ◌≡◌, ◌≤◌, ◌<◌, refl, true, false, ◌&&◌, ◌||◌, List, [], ◌∷◌,
  ◌++◌, arith, ◌==◌, length, length-append, take, min, ℕ_discrete, ap,
}
use atlanage.Prelude.Int.{ℤ, pos, negsuc}
use atlanage.Word.{from_int}
use atlanage.Json.Value.{digits, decimal, print_int, number}
use atlanage.Json.Parser.{
  parsed, byte_at, is_digit, skip_digits, after_fraction, after_exponent, number_end, parse_number,
}

abbrev pub AreDigits : List ℕ → Type 0
AreDigits [] = Unit
AreDigits (c ∷ cs) = (is_digit c ≡ true) × AreDigits cs

-- What stands behind a number does not continue it.
pub record IsBehind (rest : List ℕ) : Type 0 where
  pub no_digit : is_digit (byte_at rest) ≡ false
  pub no_point : (byte_at rest == b'.') ≡ false
  pub no_exponent : (byte_at rest == b'e' || byte_at rest == b'E') ≡ false

digits-AreDigits : (fuel n : ℕ) (out : List ℕ) → AreDigits out → AreDigits (digits fuel n out)
unfolding digits
digits-AreDigits zero n out h = h
digits-AreDigits (suc fuel) n out h =
    let ih = digits-AreDigits fuel (n / 10) ((b'0' + n % 10) ∷ out) (ground arith, h) in
    elim (ℕ_discrete n 0) [
      | yes e ↦ rw e h
      | no e ↦ let f : (n == 0) ≡ false = ground (arith, e) in rw f ih
    ]

length-digits :
    (fuel n : ℕ) (out : List ℕ)
    → (length out ≤ length (digits fuel n out)) × (length (digits fuel n out) ≤ fuel + length out)
unfolding digits
length-digits zero n out = (omega arith, omega arith)
length-digits (suc fuel) n out =
    let (a, b) = length-digits fuel (n / 10) ((b'0' + n % 10) ∷ out) in
    (ground (arith, a), ground (arith, b))

pub decimal-AreDigits : (n : ℕ) → AreDigits (decimal n)
unfolding decimal
decimal-AreDigits n = elim (ℕ_discrete n 0) [
  | yes e ↦ rw e (refl, tt)
  | no e ↦ let f : (n == 0) ≡ false = ground (arith, e) in rw f (digits-AreDigits 19 n [] tt)
]

pub length-decimal : (n : ℕ) → (0 < length (decimal n)) × (length (decimal n) ≤ 19)
unfolding decimal digits
length-decimal n =
    let (a, b) = length-digits 18 (n / 10) ((b'0' + n % 10) ∷ []) in
    (ground (arith, a), ground (arith, b))

skip_digits-append :
    (ds rest : List ℕ)
    → AreDigits ds
    → is_digit (byte_at rest) ≡ false
    → skip_digits (ds ++ rest) ≡ rest
unfolding skip_digits
skip_digits-append [] [] h b = refl
skip_digits-append [] (c ∷ rest) h b = rw b refl
skip_digits-append (d ∷ ds) rest (h, hs) b = rw h (skip_digits-append ds rest hs b)

behind-end : (rest : List ℕ) → IsBehind rest → after_exponent (after_fraction rest) ≡ rest
unfolding after_exponent after_fraction
behind-end rest b = rw (b.no_point, b.no_exponent) refl

pub no_minus :
    (ds rest : List ℕ) → 0 < length ds → AreDigits ds → (byte_at (ds ++ rest) == b'-') ≡ false
no_minus [] rest l h = absurd (omega arith)
no_minus (d ∷ ds) rest l h = ground (arith, h.0)

number_end-print_int :
    (z : ℤ) (rest : List ℕ) → IsBehind rest → number_end (print_int z ++ rest) ≡ rest
unfolding number_end print_int
number_end-print_int (pos n) rest b =
    let m = no_minus (decimal n) rest (length-decimal n).0 (decimal-AreDigits n) in
    rw (m, skip_digits-append (decimal n) rest (decimal-AreDigits n) b.no_digit) (behind-end rest b)
number_end-print_int (negsuc n) rest b =
    rw (skip_digits-append (decimal (suc n)) rest (decimal-AreDigits (suc n)) b.no_digit)
      (behind-end rest b)

take-append : (xs ys : List ℕ) → take (length xs) (xs ++ ys) ≡ xs
take-append [] ys = refl
take-append (x ∷ xs) ys = ap (λ (r : List ℕ). x ∷ r) (take-append xs ys)

-- A digit, or a minus and a digit.
pub length-print_int : (z : ℤ) → (0 < length (print_int z)) × (length (print_int z) ≤ 20)
unfolding print_int
length-print_int (pos n) = let (a, b) = length-decimal n in (a, omega arith)
length-print_int (negsuc n) = let (a, b) = length-decimal (suc n) in (omega arith, omega arith)

lone_minus :
    (z : ℤ) (rest : List ℕ)
    → ((length (print_int z) == 1) && (byte_at (print_int z ++ rest) == b'-')) ≡ false
unfolding print_int
lone_minus (pos n) rest =
    let m = no_minus (decimal n) rest (length-decimal n).0 (decimal-AreDigits n) in
    ground (arith, m)
lone_minus (negsuc n) rest = ground (arith, (length-decimal (suc n)).0)

-- `json_parse_number` hands what was printed to `atoll`, and stops behind it.
pub parse_number-print_int :
    (atoll : List ℕ → ℕ) (z : ℤ) (rest : List ℕ)
    → IsBehind rest
    → parse_number atoll (print_int z ++ rest)
      ≡ parsed (number (from_int (atoll (print_int z)))) rest
unfolding parse_number
parse_number-print_int atoll z rest b =
    let (l, m) = length-print_int z in
    let n : length (print_int z ++ rest) - length rest ≡ length (print_int z) =
      omega (arith, length-append (print_int z) rest) in
    let a : (length (print_int z) == 0) ≡ false = ground (arith, l) in
    let c : min (length (print_int z)) 127 ≡ length (print_int z) = omega (arith, m) in
    rw (number_end-print_int z rest b, n, a, lone_minus z rest, c, take-append (print_int z) rest)
      refl

digits-byte :
    (ds rest : List ℕ) → 0 < length ds → AreDigits ds → is_digit (byte_at (ds ++ rest)) ≡ true
digits-byte [] rest l h = absurd (omega arith)
digits-byte (d ∷ ds) rest l h = h.0

-- A printed number begins with a digit or a minus.
pub print_int-byte :
    (z : ℤ) (rest : List ℕ)
    → (is_digit (byte_at (print_int z ++ rest)) || byte_at (print_int z ++ rest) == b'-') ≡ true
unfolding print_int
print_int-byte (pos n) rest =
    rw (digits-byte (decimal n) rest (length-decimal n).0 (decimal-AreDigits n)) refl
print_int-byte (negsuc n) rest = refl
