-- ===== src/Seed/Hex.antt =====
-- Hexadecimal text.
use atlanage.Prelude.{
  ℕ, suc, ◌+◌, ◌*◌, ◌/◌, ◌%◌, ◌≡◌, ◌<◌, ◌↔◌, refl, ap, true, false, List, [], ◌∷◌, ◌++◌, map,
  append-nil, ◌∙◌, some, arith, ◌==◌, length,
}
use atlanage.Seed.{
  hexval, hex_digit, hex, decode, is_newline, same_text, digits_of, decode_lines, is_comment,
  skip_blanks, skip_spaces, is_blank,
}
use mathlib.Core.List.{flatten}

abbrev pub All : (ℕ → Type 0) → List ℕ → Type 0
All P [] = Unit
All P (x ∷ xs) = P x × All P xs

pub hexval-hex_digit : (n : ℕ) → n < 16 → hexval (hex_digit n) ≡ some n
unfolding hexval hex_digit
hexval-hex_digit n h = ground arith

hex_digit_text : (n : ℕ) → is_newline (hex_digit n) ≡ false
unfolding hex_digit
hex_digit_text n = ground arith

pub decode-hex :
    (bs tail : List ℕ) (rest : List ℕ)
    → All (λ b. b < 256) bs
    → decode tail ≡ some rest
    → decode (hex bs ++ tail) ≡ some (bs ++ rest)
unfolding hex decode
decode-hex [] tail rest h e = e
decode-hex (b ∷ bs) tail rest h e =
    let hi = hexval-hex_digit (b / 16 % 16) (omega arith) in
    let lo = hexval-hex_digit (b % 16) (omega arith) in
    let byte : b / 16 % 16 * 16 + b % 16 ≡ b = omega (arith, h.0) in
    rw (hex_digit_text (b / 16 % 16), hi, lo, decode-hex bs tail rest h.1 e) (ground arith)

pub same_text-eq : (xs ys : List ℕ) → (same_text xs ys ≡ true) ↔ (xs ≡ ys)
unfolding same_text
same_text-eq [] [] = ground arith
same_text-eq [] (y ∷ ys) = ground arith
same_text-eq (x ∷ xs) [] = ground arith
same_text-eq (x ∷ xs) (y ∷ ys) = ground (arith, same_text-eq xs ys)

pub digits_of-hex :
    (bs tail : List ℕ) → All (λ b. b < 256) bs → digits_of (2 * length bs) (hex bs ++ tail) ≡ hex bs
unfolding digits_of hex
digits_of-hex [] tail h = refl
digits_of-hex (b ∷ bs) tail h =
    let e : 2 * suc (length bs) ≡ suc (suc (2 * length bs)) = omega arith in
    rw e (
      ground (
        arith,
        hexval-hex_digit (b / 16 % 16) (omega arith),
        hexval-hex_digit (b % 16) (omega arith),
        digits_of-hex bs tail h.1,
      ))

hex_digit_blank : (n : ℕ) → (is_blank (hex_digit n) ≡ false) × ((hex_digit n == b';') ≡ false)
unfolding hex_digit
hex_digit_blank n = (ground arith, ground arith)

-- A line of hexadecimal digits.
abbrev pub data_line : List ℕ → List ℕ
data_line bs = hex bs ++ 10 ∷ []

data_line_comment : (bs : List ℕ) → is_comment (skip_blanks (data_line bs)) ≡ false
unfolding hex skip_blanks
data_line_comment [] = refl
data_line_comment (b ∷ bs) = ground (arith, hex_digit_blank (b / 16 % 16))

decode-data_line : (bs : List ℕ) → All (λ b. b < 256) bs → decode (data_line bs) ≡ some bs
decode-data_line bs h =
    decode-hex bs (10 ∷ []) [] h (unfold decode in refl) ∙ ap some (append-nil bs)

abbrev pub AllBytes : List (List ℕ) → Type 0
AllBytes [] = Unit
AllBytes (c ∷ cs) = All (λ b. b < 256) c × AllBytes cs

pub decode_lines-data_line :
    (chunks : List (List ℕ))
    → AllBytes chunks
    → decode_lines (map data_line chunks) ≡ some (flatten chunks)
unfolding decode_lines flatten
decode_lines-data_line [] h = refl
decode_lines-data_line (c ∷ cs) h =
    rw (data_line_comment c, decode-data_line c h.0, decode_lines-data_line cs h.1)

pub skip_spaces-hex :
    (bs tail : List ℕ) → 0 < length bs → skip_spaces (b' ' ∷ hex bs ++ tail) ≡ hex bs ++ tail
unfolding hex skip_spaces
skip_spaces-hex [] tail h = absurd (omega arith)
skip_spaces-hex (b ∷ bs) tail h =
    ground (arith, hex_digit_blank (b / 16 % 16), hex_digit_text (b / 16 % 16))
