-- ===== src/Json/Roundtrip.antt =====
-- Texts that go through `xt_json_serialize` and back.
use atlanage.Prelude.{
  ℕ, zero, suc, ◌+◌, ◌/◌, ◌%◌, ◌≡◌, ◌≤◌, ◌<◌, refl, ◌∙◌, Bool, true, false, ◌&&◌, ◌||◌, not, List,
  [], ◌∷◌, ◌++◌, append_assoc, some, arith, ltb, ◌==◌, length, length-append, Bool-cases, inl, inr,
  dec_lt,
}
use atlanage.Compare.Equality.{c_string}
use atlanage.Json.{
  hex_digit, escape_byte, escapes, serialize_text, parse_loop, parse_string, before, skip_quote,
}

-- The bytes that are written as `\u`: control characters without an escape of their own.
abbrev pub is_control : ℕ → Bool
is_control c = ltb c 0x20 && not (c == 10 || (c == 13 || (c == 9 || (c == 8 || c == 12))))

abbrev pub HasNoControl : List ℕ → Type 0
HasNoControl [] = Unit
HasNoControl (c ∷ cs) = (is_control c ≡ false) × HasNoControl cs

c_string-append : (s t : List ℕ) → HasNoControl s → c_string (s ++ 0 ∷ t) ≡ s
c_string-append [] t h = ground arith
c_string-append (c ∷ s) t h =
    let ne : (c == 0) ≡ false = ground (arith, h.0) in rw (ne, c_string-append s t h.1)

c_string-plain : (s : List ℕ) → HasNoControl s → c_string s ≡ s
c_string-plain [] h = refl
c_string-plain (c ∷ s) h =
    let ne : (c == 0) ≡ false = ground (arith, h.0) in rw (ne, c_string-plain s h.1)

module _ (strtol : List ℕ → ℕ) where
  -- A round over a byte that is not a control character reads it back.
  parse_loop-escape_byte :
      (fuel c : ℕ) (p : List ℕ) (pos : ℕ)
      → is_control c ≡ false
      → pos < 4095
      → parse_loop strtol (suc fuel) (escape_byte c ++ p) pos
        ≡ before (c ∷ []) (parse_loop strtol fuel p (pos + 1))
  unfolding parse_loop escape_byte
  parse_loop-escape_byte fuel c p pos plain room = ground arith

  parse_loop_quote :
      (fuel : ℕ) (p : List ℕ) (pos : ℕ)
      → parse_loop strtol (suc fuel) (b'"' ∷ p) pos ≡ some ([], b'"' ∷ p)
  unfolding parse_loop
  parse_loop_quote fuel p pos = ground arith

  parse_loop_limit :
      (fuel : ℕ) (p : List ℕ) (pos : ℕ)
      → 4095 ≤ pos
      → parse_loop strtol (suc fuel) p pos ≡ some ([], p)
  unfolding parse_loop
  parse_loop_limit fuel p pos full = ground arith

  -- Behind the bytes of the text and the quote, the loop ends, with those bytes read back.
  parse_loop-escapes :
      (s tail : List ℕ) (fuel pos : ℕ)
      → HasNoControl s
      → pos + length s ≤ 4095
      → length s < fuel
      → parse_loop strtol fuel (escapes s ++ b'"' ∷ tail) pos ≡ some (s, b'"' ∷ tail)
  unfolding escapes
  parse_loop-escapes s tail zero pos plain room f = absurd (omega arith)
  parse_loop-escapes [] tail (suc fuel) pos plain room f = parse_loop_quote fuel tail pos
  parse_loop-escapes (c ∷ s) tail (suc fuel) pos plain room f =
      let later = parse_loop-escapes s tail fuel (pos + 1) plain.1 (omega arith) (omega arith) in
      rw append_assoc (
        parse_loop-escape_byte fuel c (escapes s ++ b'"' ∷ tail) pos plain.0 (omega arith)
        ∙ rw later refl)

  length-escape_byte : (c : ℕ) → 0 < length (escape_byte c)
  unfolding escape_byte
  length-escape_byte c = ground arith

  length-escapes : (s : List ℕ) → length s ≤ length (escapes s)
  unfolding escapes
  length-escapes [] = omega arith
  length-escapes (c ∷ s) =
      omega
        (arith, length-append (escape_byte c) (escapes s), length-escape_byte c, length-escapes s)

  -- A text of at most 4095 bytes without a control character, but for the five that have an escape
  -- of their own, is read back from its JSON by `json_parse_string`, whatever follows it.
  pub parse_string-serialize_text :
      (s tail : List ℕ)
      → HasNoControl s
      → length s ≤ 4095
      → parse_string strtol (serialize_text s ++ tail) ≡ some (some (s, tail))
  unfolding parse_string serialize_text
  parse_string-serialize_text s tail plain short =
      let p = escapes s ++ b'"' ∷ tail in
      let n : length s < length p + 1 =
        omega (arith, length-append (escapes s) (b'"' ∷ tail), length-escapes s) in
      let e = parse_loop-escapes s tail (length p + 1) 0 plain (omega arith) n in
      rw (append_assoc (escapes s) (b'"' ∷ []) tail, e, c_string-plain s plain)

  module _ (no_number : (ds : List ℕ) → strtol (b'u' ∷ ds) ≡ 0) where
    -- The four bytes that are read as the number of a `\u` begin with the `u`.
    parse_loop-control :
        (fuel c : ℕ) (p : List ℕ) (pos : ℕ)
        → is_control c ≡ true
        → pos < 4095
        → parse_loop strtol (suc fuel) (escape_byte c ++ p) pos
          ≡ before (0 ∷ []) (parse_loop strtol fuel (hex_digit (c % 16) ∷ p) (pos + 1))
    unfolding parse_loop escape_byte
    parse_loop-control fuel c p pos control room =
        ground (arith, no_number (b'0' ∷ b'0' ∷ hex_digit (c / 16) ∷ []))

    parse_loop-hex_digit :
        (fuel n : ℕ) (p : List ℕ) (pos : ℕ)
        → n < 16
        → pos < 4095
        → parse_loop strtol (suc fuel) (hex_digit n ∷ p) pos
          ≡ before (hex_digit n ∷ []) (parse_loop strtol fuel p (pos + 1))
    unfolding parse_loop
    parse_loop-hex_digit fuel n p pos small room = ground arith

    length-control : (c : ℕ) → is_control c ≡ true → length (escape_byte c) ≡ 6
    unfolding escape_byte
    length-control c control = ground arith

    -- The last digit of a control character is read as a byte of its own.
    parse_loop_digit :
        (p : List ℕ) (fuel pos n : ℕ)
        → n < 16
        → ((q : ℕ) → (bs r : List ℕ) × (parse_loop strtol fuel p q ≡ some (bs, r)))
        → (bs r : List ℕ) × (parse_loop strtol (suc fuel) (hex_digit n ∷ p) pos ≡ some (bs, r))
    parse_loop_digit p fuel pos n small ends = elim (dec_lt pos 4095) [
      | yes room ↦
          let (bs, r, e) = ends (pos + 1) in
          (hex_digit n ∷ bs, r, parse_loop-hex_digit fuel n p pos small room ∙ rw e refl)
      | no full ↦ ([], hex_digit n ∷ p, parse_loop_limit fuel (hex_digit n ∷ p) pos (omega arith))
    ]

    -- The loop over the JSON of any text ends.
    parse_loop_ends :
        (s tail : List ℕ) (fuel pos : ℕ)
        → length (escapes s) < fuel
        → (bs r : List ℕ) × (parse_loop strtol fuel (escapes s ++ b'"' ∷ tail) pos ≡ some (bs, r))
    unfolding escapes
    parse_loop_ends s tail zero pos f = absurd (omega arith)
    parse_loop_ends [] tail (suc fuel) pos f = ([], b'"' ∷ tail, parse_loop_quote fuel tail pos)
    parse_loop_ends (c ∷ s) tail (suc zero) pos f =
        absurd (omega (arith, length-append (escape_byte c) (escapes s), length-escape_byte c))
    parse_loop_ends (c ∷ s) tail (suc (suc fuel)) pos f =
        let p = escapes s ++ b'"' ∷ tail in
        let n = length-append (escape_byte c) (escapes s) in
        elim (dec_lt pos 4095) [
          | no full ↦ (
            [],
            (escape_byte c ++ escapes s) ++ b'"' ∷ tail,
            parse_loop_limit (suc fuel) ((escape_byte c ++ escapes s) ++ b'"' ∷ tail) pos
                (omega arith),
          )
          | yes room ↦ elim (Bool-cases (is_control c)) [
            | inr plain ↦
                let (bs, r, e) =
                  parse_loop_ends s tail (suc fuel) (pos + 1)
                    (omega (arith, n, length-escape_byte c)) in
                (
                  c ∷ bs,
                  r,
                  rw append_assoc
                      (parse_loop-escape_byte (suc fuel) c p pos plain room ∙ rw e refl),
                )
            | inl control ↦
                let (bs, r, e) = parse_loop_digit p fuel (pos + 1) (c % 16) (omega arith) (λ q.
                  parse_loop_ends s tail fuel q (omega (arith, n, length-control c control))) in
                (
                  0 ∷ bs,
                  r,
                  rw append_assoc (parse_loop-control (suc fuel) c p pos control room ∙ rw e refl),
                )
          ]
        ]

    parse_loop-control_behind :
        (s back tail : List ℕ) (c fuel pos : ℕ)
        → HasNoControl s
        → is_control c ≡ true
        → pos + length s < 4095
        → length (escapes (s ++ c ∷ back)) < fuel
        → (bs r : List ℕ) × (parse_loop strtol fuel (escapes (s ++ c ∷ back) ++ b'"' ∷ tail) pos
            ≡ some (s ++ 0 ∷ bs, r))
    unfolding escapes
    parse_loop-control_behind s back tail c zero pos plain control room f = absurd (omega arith)
    parse_loop-control_behind [] back tail c (suc zero) pos plain control room f =
        absurd (omega (arith, length-append (escape_byte c) (escapes back), length-escape_byte c))
    parse_loop-control_behind [] back tail c (suc (suc fuel)) pos plain control room f =
        let p = escapes back ++ b'"' ∷ tail in
        let n = length-append (escape_byte c) (escapes back) in
        let (bs, r, e) =
          parse_loop_digit p fuel (pos + 1) (c % 16) (omega arith)
            (λ q. parse_loop_ends back tail fuel q (omega (arith, n, length-control c control))) in
        (
          bs,
          r,
          rw append_assoc (parse_loop-control (suc fuel) c p pos control (omega arith) ∙ rw e refl),
        )
    parse_loop-control_behind (d ∷ s) back tail c (suc fuel) pos plain control room f =
        let p = escapes (s ++ c ∷ back) ++ b'"' ∷ tail in
        let n = length-append (escape_byte d) (escapes (s ++ c ∷ back)) in
        let (bs, r, e) =
          parse_loop-control_behind s back tail c fuel (pos + 1) plain.1 control (omega arith)
            (omega (arith, n, length-escape_byte d)) in
        (
          bs,
          r,
          rw append_assoc (parse_loop-escape_byte fuel d p pos plain.0 (omega arith) ∙ rw e refl),
        )

    -- A text with a control character that has no escape of its own does not come back from its
    -- JSON: `json_parse_string` returns, with the bytes before the first such character only. There
    -- are fewer than 4095 of them, and `strtol` finds no number in a text that starts with `u`.
    pub parse_string-control :
        (s back tail : List ℕ) (c : ℕ)
        → HasNoControl s
        → is_control c ≡ true
        → length s < 4095
        → (r : List ℕ) × (parse_string strtol (serialize_text (s ++ c ∷ back) ++ tail)
            ≡ some (some (s, r)))
    unfolding parse_string serialize_text
    parse_string-control s back tail c plain control short =
        let p = escapes (s ++ c ∷ back) ++ b'"' ∷ tail in
        let n : length (escapes (s ++ c ∷ back)) < length p + 1 =
          omega (arith, length-append (escapes (s ++ c ∷ back)) (b'"' ∷ tail)) in
        let (bs, r, e) =
          parse_loop-control_behind s back tail c (length p + 1) 0 plain control (omega arith) n in
        (
          skip_quote r,
          rw (
            append_assoc (escapes (s ++ c ∷ back)) (b'"' ∷ []) tail,
            e,
            c_string-append s bs plain,
          ),
        )
