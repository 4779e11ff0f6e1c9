-- ===== src/Convert/Decimal.antt =====
-- The digits that `"%lld"` prints are read back.
use atlanage.Prelude.{
  ℕ, zero, suc, ◌+◌, ◌-◌, ◌*◌, ◌/◌, ◌%◌, ◌^◌, ◌≡◌, ◌<◌, ◌∙◌, refl, sym, ap, true, false, ◌&&◌, List,
  [], ◌∷◌, ◌++◌, arith, length, append-nil, leb, ◌==◌, ℕ_discrete,
}
use atlanage.Prelude.Int.{ℤ, pos, negsuc, pos_part, neg_part}
use atlanage.Json.Value.{digits, decimal, print_int}
use atlanage.Json.Decimal.{AreDigits, decimal-AreDigits, length-decimal}
use atlanage.Convert.Numbers.{is_space, number_of, ascii_to_int}

digits-append :
    (fuel n : ℕ) (out rest : List ℕ) → digits fuel n out ++ rest ≡ digits fuel n (out ++ rest)
unfolding digits
digits-append zero n out rest = refl
digits-append (suc fuel) n out rest = elim (ℕ_discrete n 0) [
  | yes e ↦ rw e refl
  | no e ↦
      let f : (n == 0) ≡ false = ground (arith, e) in
      rw f (digits-append fuel (n / 10) ((b'0' + n % 10) ∷ out) rest)
]

smaller : (fuel n : ℕ) → n < 10 ^ suc fuel → n / 10 < 10 ^ fuel
smaller fuel n h = omega arith

number_of-digit :
    (n : ℕ) (out : List ℕ) → number_of (n / 10) ((b'0' + n % 10) ∷ out) ≡ number_of n out
unfolding number_of
number_of-digit n out =
    let a : (leb b'0' (b'0' + n % 10) && leb (b'0' + n % 10) b'9') ≡ true = ground arith in
    let e : n / 10 * 10 + (b'0' + n % 10 - b'0') ≡ n = omega arith in rw (a, e) refl

pub number_of-digits :
    (fuel n : ℕ) (out : List ℕ) → n < 10 ^ fuel → number_of 0 (digits fuel n out) ≡ number_of n out
unfolding digits
number_of-digits zero n out h = let e : n ≡ 0 = omega arith in rw e refl
number_of-digits (suc fuel) n out h = elim (ℕ_discrete n 0) [
  | yes e ↦ rw e refl
  | no e ↦
      let f : (n == 0) ≡ false = ground (arith, e) in
      rw f (
        number_of-digits fuel (n / 10) ((b'0' + n % 10) ∷ out) (smaller fuel n h)
        ∙ number_of-digit n out)
]

pub number_of-decimal :
    (n : ℕ) (rest : List ℕ) → n < 10 ^ 19 → number_of 0 (decimal n ++ rest) ≡ number_of n rest
unfolding decimal
number_of-decimal n rest h = elim (ℕ_discrete n 0) [
  | yes e ↦ rw e (number_of-digit 0 rest)
  | no e ↦
      let f : (n == 0) ≡ false = ground (arith, e) in
      rw (f, digits-append 19 n [] rest) (number_of-digits 19 n rest h)
]

ascii_to_int-digits :
    (ds rest : List ℕ)
    → 0 < length ds
    → AreDigits ds
    → ascii_to_int (ds ++ rest) ≡ pos (number_of 0 (ds ++ rest))
unfolding ascii_to_int
ascii_to_int-digits [] rest full h = absurd (omega arith)
ascii_to_int-digits (d ∷ ds) rest full (h, hs) =
    let a : is_space d ≡ false = ground (arith, h) in
    let b : (d == b'-') ≡ false = ground (arith, h) in
    let c : (d == b'+') ≡ false = ground (arith, h) in rw (a, b, c) refl

-- A decimal number is read back, whatever stands behind it, unless that is a digit.
pub ascii_to_int-decimal :
    (n : ℕ) (rest : List ℕ)
    → n < 10 ^ 19
    → number_of n rest ≡ n
    → ascii_to_int (decimal n ++ rest) ≡ pos n
ascii_to_int-decimal n rest h ends =
    ascii_to_int-digits (decimal n) rest (length-decimal n).0 (decimal-AreDigits n)
    ∙ ap pos (number_of-decimal n rest h ∙ ends)

pub ascii_to_int-print_int :
    (z : ℤ) → pos_part z < 10 ^ 19 → neg_part z < 10 ^ 19 → ascii_to_int (print_int z) ≡ z
unfolding ascii_to_int print_int number_of
ascii_to_int-print_int (pos n) h k =
    ap ascii_to_int (sym (append-nil (decimal n))) ∙ ascii_to_int-decimal n [] h refl
ascii_to_int-print_int (negsuc n) h k =
    let e : number_of 0 (decimal (suc n)) ≡ suc n =
      ap (number_of 0) (sym (append-nil (decimal (suc n)))) ∙ number_of-decimal (suc n) [] k in
    let f : leb (suc n) 0 ≡ false = ground arith in
    let g : suc n - 0 - 1 ≡ n = omega arith in rw (e, f, g) refl
