-- ===== src/Json/Ends.antt =====
-- The parser of JSON ends on every text: no call returns a pointer in front of its own.
use atlanage.Prelude.{
  ℕ, zero, suc, ◌+◌, ◌≡◌, ◌≤◌, ◌<◌, List, [], ◌∷◌, none, some, arith, ◌==◌, if◌then◌else◌, length,
  drop, length-drop, Option-cases, ℕ_discrete, inl, inr,
}
use atlanage.Json.{
  parse_loop, parse_round, escaped, unicode, hex_run, parse_string, skip_quote, writes, bump,
}
use atlanage.Json.Parser.{
  Parsed, out_of_fuel, unsafe, parsed, byte_at, tail, skip_ws, skip_digits, after_fraction,
  after_exponent, number_end, parse_number, parse_word, parse_text,
}

-- The call came back, with at most `n` bytes behind its pointer.
abbrev pub Within : ℕ → Parsed → Type 0
Within n out_of_fuel = ⊥
Within n unsafe = Unit
Within n (parsed v q) = length q ≤ n

pub Within-le : (m n : ℕ) (r : Parsed) → m ≤ n → Within m r → Within n r
Within-le m n out_of_fuel h w = w
Within-le m n unsafe h w = tt
Within-le m n (parsed v q) h w = omega arith

pub length-skip_ws : (p : List ℕ) → length (skip_ws p) ≤ length p
unfolding skip_ws
length-skip_ws [] = omega arith
length-skip_ws (c ∷ p) = ground (arith, length-skip_ws p)

length-skip_digits : (p : List ℕ) → length (skip_digits p) ≤ length p
unfolding skip_digits
length-skip_digits [] = omega arith
length-skip_digits (c ∷ p) = ground (arith, length-skip_digits p)

length-tail : (p : List ℕ) → length (tail p) ≤ length p
length-tail [] = omega arith
length-tail (c ∷ p) = omega arith

-- At a byte, a step takes it.
pub length-tail_byte : (p : List ℕ) (c : ℕ) → byte_at p ≡ suc c → length (tail p) + 1 ≡ length p
length-tail_byte [] c h = absurd (omega arith)
length-tail_byte (d ∷ p) c h = omega arith

length-after_fraction : (p : List ℕ) → length (after_fraction p) ≤ length p
unfolding after_fraction
length-after_fraction p = ground (arith, length-skip_digits (tail p), length-tail p)

length-after_exponent : (p : List ℕ) → length (after_exponent p) ≤ length p
unfolding after_exponent
length-after_exponent p = ground (
  arith,
  length-skip_digits (tail p),
  length-skip_digits (tail (tail p)),
  length-tail p,
  length-tail (tail p),
)

length-number_end : (p : List ℕ) → length (number_end p) ≤ length p
unfolding number_end
length-number_end p =
    let q : List ℕ = if byte_at p == b'-' then tail p else p in
    omega (
      arith,
      after_minus-le p,
      length-skip_digits q,
      length-after_fraction (skip_digits q),
      length-after_exponent (after_fraction (skip_digits q)),
    )
  where
    after_minus-le : (p : List ℕ) → length (if byte_at p == b'-' then tail p else p) ≤ length p
    after_minus-le p = ground (arith, length-tail p)

pub parse_number-Within :
    (atoll : List ℕ → ℕ) (p : List ℕ) → Within (length p) (parse_number atoll p)
unfolding parse_number
parse_number-Within atoll p = ground (arith, length-number_end p)

pub parse_word-Within : (p : List ℕ) → Within (length p) (parse_word p)
unfolding parse_word
parse_word-Within p = ground (arith, length-drop 4 p, length-drop 5 p)

-- A round of `json_parse_string` takes a byte.
bump-lt : (p q bs cs : List ℕ) → writes bs (bump p) ≡ some (cs, q) → length q < length p
bump-lt [] q bs cs h = ground (arith, h)
bump-lt (c ∷ p) q bs cs h = ground (arith, h)

unicode-lt :
    (strtol : List ℕ → ℕ) (d : ℕ) (p q bs : List ℕ)
    → unicode strtol (d ∷ p) ≡ some (bs, q)
    → length q < length (d ∷ p)
unfolding unicode
unicode-lt strtol d p q bs h =
    let n : ℕ = length (hex_run 4 (d ∷ p)) in
    elim (ℕ_discrete n 4) [
      | yes e ↦ ground (arith, h, e, length-drop 4 (d ∷ p))
      | no e ↦
          let b = bump-lt (drop n (d ∷ p)) q [] bs in ground (arith, h, e, b, length-drop n (d ∷ p))
    ]

pub parse_round-lt :
    (strtol : List ℕ → ℕ) (p q bs : List ℕ)
    → parse_round strtol p ≡ some (bs, q)
    → length q < length p
unfolding parse_round escaped
parse_round-lt strtol [] q bs h = ground (arith, h)
parse_round-lt strtol (c ∷ []) q bs h = ground (arith, h)
parse_round-lt strtol (c ∷ (d ∷ p)) q bs h = ground (arith, h, unicode-lt strtol d p q bs)

parse_loop-le :
    (strtol : List ℕ → ℕ) (fuel : ℕ) (p q bs : List ℕ) (pos : ℕ)
    → parse_loop strtol fuel p pos ≡ some (bs, q)
    → length q ≤ length p
unfolding parse_loop
parse_loop-le strtol zero p q bs pos h = ground (arith, h)
parse_loop-le strtol (suc fuel) p q bs pos h = elim (Option-cases (parse_round strtol p)) [
  | inl e ↦ ground (arith, e, h)
  | inr ((cs, r), e) ↦
      let l = parse_round-lt strtol p r cs e in
      elim (Option-cases (parse_loop strtol fuel r (pos + length cs))) [
        | inl f ↦ ground (arith, e, f, h)
        | inr ((ds, s), f) ↦
            let m = parse_loop-le strtol fuel r s ds (pos + length cs) f in
            ground (arith, e, f, h, l, m)
      ]
]

pub parse_string-lt :
    (strtol : List ℕ → ℕ) (p q s : List ℕ)
    → parse_string strtol p ≡ some (some (s, q))
    → length q < length p
unfolding parse_string
parse_string-lt strtol [] q s h = ground (arith, h)
parse_string-lt strtol (c ∷ p) q s h = elim (Option-cases (parse_loop strtol (length p + 1) p 0)) [
  | inl e ↦ ground (arith, e, h)
  | inr ((bs, r), e) ↦
      let l = parse_loop-le strtol (length p + 1) p r bs 0 e in
      ground (arith, e, h, l, skip_quote-le r)
]
  where
    skip_quote-le : (p : List ℕ) → length (skip_quote p) ≤ length p
    skip_quote-le [] = omega arith
    skip_quote-le (c ∷ p) = ground arith

pub parse_text-Within : (strtol : List ℕ → ℕ) (p : List ℕ) → Within (length p) (parse_text strtol p)
unfolding parse_text
parse_text-Within strtol p = elim (Option-cases (parse_string strtol p)) [
  | inl e ↦ rw (e, parse_text) tt
  | inr (none, e) ↦ rw (e, parse_text) (omega arith)
  | inr (some (s, q), e) ↦
      let l = parse_string-lt strtol p q s e in rw (e, parse_text) (omega arith)
]
