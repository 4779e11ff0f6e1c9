-- ===== src/Seed.antt =====
-- seed/seed_builder.c, lines 100 to 196: a seed file is read line by line, its hexadecimal data is
-- decoded and checked against the SHA-256 of its header, and the bytes are written out. The lines
-- are those that `fgets` returns, without a zero byte. What the file system answers is an argument;
-- memory does not run out.
mod Hex
mod File
mod Tests
use atlanage.Prelude.{
  ℕ, zero, suc, ◌+◌, ◌-◌, ◌*◌, ◌/◌, ◌%◌, Bool, true, false, ◌&&◌, ◌||◌, List, [], ◌∷◌, ◌++◌, Option,
  none, some, leb, ◌==◌, if◌then◌else◌,
}
use atlanage.Sha.{init, update, final}

-- `hexval`; -1 is `none`.
unfoldable pub hexval : ℕ → Option ℕ
hexval c =
    if leb b'0' c && leb c b'9'
    then some (c - b'0')
    else if leb b'a' c && leb c b'f'
    then some (c - b'a' + 10)
    else if leb b'A' c && leb c b'F'
    then some (c - b'A' + 10)
    else none

abbrev pub is_blank : ℕ → Bool
is_blank c = c == b' ' || c == 9

abbrev pub is_newline : ℕ → Bool
is_newline c = c == 10 || c == 13

unfoldable pub skip_blanks : List ℕ → List ℕ
skip_blanks [] = []
skip_blanks (c ∷ cs) = if is_blank c then skip_blanks cs else c ∷ cs

unfoldable pub skip_spaces : List ℕ → List ℕ
skip_spaces [] = []
skip_spaces (c ∷ cs) = if is_blank c || is_newline c then skip_spaces cs else c ∷ cs

-- The hexadecimal digits at the front, at most `n`, as they are written.
unfoldable pub digits_of : ℕ → List ℕ → List ℕ
digits_of zero cs = []
digits_of (suc n) [] = []
digits_of (suc n) (c ∷ cs) = elim (hexval c) [ some h ↦ c ∷ digits_of n cs | none ↦ [] ]

-- `strncmp(line, "; sha256:", 9) == 0`, with the rest of the line.
unfoldable pub after_prefix : List ℕ → List ℕ → Option (List ℕ)
after_prefix [] cs = some cs
after_prefix (p ∷ ps) [] = none
after_prefix (p ∷ ps) (c ∷ cs) = if p == c then after_prefix ps cs else none

abbrev pub sha_prefix : List ℕ
sha_prefix = b';' ∷ b' ' ∷ b's' ∷ b'h' ∷ b'a' ∷ b'2' ∷ b'5' ∷ b'6' ∷ b':' ∷ []

-- One line of the header; the last line that holds a digest counts.
unfoldable pub header_line : List ℕ → List ℕ → List ℕ
unfolding after_prefix digits_of skip_spaces
header_line line expected = elim (after_prefix sha_prefix line) [
  | some rest ↦ digits_of 64 (skip_spaces rest)
  | none ↦ expected
]

-- The first `n` lines: the digest, and the lines behind them.
unfoldable pub header : ℕ → List (List ℕ) → List ℕ → List ℕ × List (List ℕ)
header zero lines expected = (expected, lines)
header (suc n) [] expected = (expected, [])
header (suc n) (l ∷ ls) expected = header n ls (header_line l expected)

-- The loop over a data line. A digit with no digit behind it is an error.
unfoldable pub decode : List ℕ → Option (List ℕ)
decode [] = some []
decode (c ∷ []) =
    if is_newline c then some [] else elim (hexval c) [ none ↦ some [] | some h ↦ none ]
decode (c ∷ d ∷ cs) =
    let after = decode (d ∷ cs) in
    let rest = decode cs in
    let byte : Option (List ℕ) = elim (hexval c) [
      | none ↦ after
      | some h ↦ elim (hexval d) [
        | none ↦ none
        | some l ↦ elim rest [ none ↦ none | some bs ↦ some ((h * 16 + l) ∷ bs) ]
      ]
    ] in
    if is_newline c then some [] else byte

abbrev pub is_comment : List ℕ → Bool
is_comment [] = false
is_comment (c ∷ cs) = c == b';'

-- The loop over the data lines; comment lines are skipped.
unfoldable pub decode_lines : List (List ℕ) → Option (List ℕ)
unfolding decode skip_blanks
decode_lines [] = some []
decode_lines (l ∷ ls) =
    let rest = decode_lines ls in
    if is_comment (skip_blanks l) then rest else elim (decode l) [
      | none ↦ none
      | some bs ↦ elim rest [ none ↦ none | some cs ↦ some (bs ++ cs) ]
    ]

-- `"%02x"`
unfoldable pub hex_digit : ℕ → ℕ
hex_digit n = if leb n 9 then n + b'0' else n - 10 + b'a'

unfoldable pub hex : List ℕ → List ℕ
hex [] = []
hex (b ∷ bs) = hex_digit (b / 16 % 16) ∷ hex_digit (b % 16) ∷ hex bs

unfoldable pub same_text : List ℕ → List ℕ → Bool
same_text [] [] = true
same_text [] (y ∷ ys) = false
same_text (x ∷ xs) [] = false
same_text (x ∷ xs) (y ∷ ys) = x == y && same_text xs ys

-- The end of `materialize`: the bytes written, or the error that is reported with the result 1.
pub data Outcome : Type 0 where
  written : List ℕ → Outcome
  no_seed no_sha256 broken_hex sha256_differs cannot_open cannot_write : Outcome

-- The checks behind the header: its digest, the decoded data, and the output.
unfoldable pub finish : List ℕ → Option (List ℕ) → Bool → Bool → Outcome
unfolding hex same_text
finish [] decoded opens writes = no_sha256
finish (c ∷ cs) none opens writes = broken_hex
finish (c ∷ cs) (some bytes) opens writes =
    if same_text (hex (final (update init bytes))) (c ∷ cs)
    then (if opens then (if writes then written bytes else cannot_write) else cannot_open)
    else sha256_differs

-- `materialize`. `lines` is `none` if the seed cannot be opened; `opens` and `writes` say whether
-- the output can be opened and takes all bytes.
unfoldable pub materialize : Option (List (List ℕ)) → Bool → Bool → Outcome
materialize none opens writes = no_seed
materialize (some lines) opens writes =
    let (expected, rest) = header 5 lines [] in finish expected (decode_lines rest) opens writes

abbrev pub failed : Outcome → Bool
failed (written bytes) = false
failed no_seed = true
failed no_sha256 = true
failed broken_hex = true
failed sha256_differs = true
failed cannot_open = true
failed cannot_write = true

-- `main`: the exit status, over both seeds.
unfoldable pub main : Outcome → Outcome → ℕ
main compiler runtime = if failed compiler || failed runtime then 1 else 0
