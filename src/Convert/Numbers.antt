-- ===== src/Convert/Numbers.antt =====
-- The numbers that `atoi` and `atoll` of the C library read. A text is the list of its bytes.
use atlanage.Prelude.{
  ℕ, ◌+◌, ◌-◌, ◌*◌, ◌%◌, ◌^◌, Bool, ◌&&◌, ◌||◌, List, [], ◌∷◌, leb, ◌==◌, if◌then◌else◌,
}
use atlanage.Prelude.Int.{ℤ, pos, negsuc, sub_ℕ}

abbrev pub is_space : ℕ → Bool
is_space c = (c == b' ') || (leb 9 c && leb c 13)

-- The digits at the start of a text, behind digits that stand for `n`.
unfoldable pub number_of : ℕ → List ℕ → ℕ
number_of n [] = n
number_of n (c ∷ p) =
    let rest = number_of (n * 10 + (c - b'0')) p in if leb b'0' c && leb c b'9' then rest else n

-- White space, a sign, and digits. A number that the type does not hold is undefined in C, and is
-- the number here.
unfoldable pub ascii_to_int : List ℕ → ℤ
unfolding number_of
ascii_to_int [] = pos 0
ascii_to_int (c ∷ p) =
    let rest = ascii_to_int p in
    if is_space c
    then rest
    else if c == b'-'
    then sub_ℕ 0 (number_of 0 p)
    else if c == b'+'
    then pos (number_of 0 p)
    else pos (number_of 0 (c ∷ p))

-- The `int64_t` of a number.
abbrev pub int64 : ℤ → ℕ
int64 (pos n) = n % 2 ^ 64
int64 (negsuc n) = 2 ^ 64 - 1 - n % 2 ^ 64
