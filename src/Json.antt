-- ===== src/Json.antt =====
-- runtime/xt_runtime.c, texts in JSON: the text branch of `xt_json_serialize` and
-- `json_parse_string`. A pointer into a text is the list of the bytes from it on, a zero byte stands
-- behind them. The buffer of `xt_json_serialize` is large enough and its memory does not run out.
mod Roundtrip
pub mod Value
pub mod Parser
pub mod Decimal
mod Reads
mod Rounds
mod Inverse
mod Keys
mod ValueTests
mod Ends
mod Total
mod Fuel
mod Tests
use Prim.Native.Nat.{bit_and, bit_or}
use atlanage.Prelude.{
  ℕ, zero, suc, ◌+◌, ◌-◌, ◌/◌, ◌%◌, ◌^◌, Bool, true, false, ◌&&◌, ◌||◌, List, [], ◌∷◌, ◌++◌, Option,
  none, some, ltb, leb, ◌==◌, if◌then◌else◌, length, drop,
}
use atlanage.Compare.Equality.{c_string}
use atlanage.Text.{at_end}

-- A digit of `"%04x"`.
abbrev pub hex_digit : ℕ → ℕ
hex_digit n = if leb n 9 then n + b'0' else n - 10 + b'a'

-- The `switch` on a byte of the text.
unfoldable pub escape_byte : ℕ → List ℕ
escape_byte c =
    if c == b'"'
    then b'\\' ∷ b'"' ∷ []
    else if c == b'\\'
    then b'\\' ∷ b'\\' ∷ []
    else if c == 10
    then b'\\' ∷ b'n' ∷ []
    else if c == 13
    then b'\\' ∷ b'r' ∷ []
    else if c == 9
    then b'\\' ∷ b't' ∷ []
    else if c == 8
    then b'\\' ∷ b'b' ∷ []
    else if c == 12
    then b'\\' ∷ b'f' ∷ []
    else if ltb c 0x20
    then b'\\' ∷ b'u' ∷ b'0' ∷ b'0' ∷ hex_digit (c / 16) ∷ hex_digit (c % 16) ∷ []
    else c ∷ []

-- The loop over the bytes of the text.
unfoldable pub escapes : List ℕ → List ℕ
unfolding escape_byte
escapes [] = []
escapes (c ∷ cs) = escape_byte c ++ escapes cs

-- The text branch of `xt_json_serialize`.
unfoldable pub serialize_text : List ℕ → List ℕ
serialize_text s = b'"' ∷ (escapes s ++ b'"' ∷ [])

-- The byte that an escape stands for, but for `\u`.
abbrev pub simple : ℕ → ℕ
simple d =
    if d == b'n'
    then 10
    else if d == b't'
    then 9
    else if d == b'r'
    then 13
    else if d == b'f'
    then 12
    else if d == b'b'
    then 8
    else d

-- The bytes of a code point, an `unsigned`.
abbrev pub encode : ℕ → List ℕ
encode k =
    if ltb k 0x80
    then k ∷ []
    else if ltb k 0x800
    then bit_or 0xc0 (k / 2 ^ 6) ∷ bit_or 0x80 (bit_and k 0x3f) ∷ []
    else bit_or 0xe0 (k / 2 ^ 12) % 256
      ∷ bit_or 0x80 (bit_and (k / 2 ^ 6) 0x3f)
      ∷ bit_or 0x80 (bit_and k 0x3f)
      ∷ []

-- `for (; h < 4 && **p; h++) hex[h] = *((*p)++);`
unfoldable pub hex_run : ℕ → List ℕ → List ℕ
hex_run zero p = []
hex_run (suc n) [] = []
hex_run (suc n) (c ∷ p) = if c == 0 then [] else c ∷ hex_run n p

-- `(*p)++`; a pointer past the zero byte behind the text reads out of bounds.
abbrev pub bump : List ℕ → Option (List ℕ)
bump [] = none
bump (c ∷ p) = some p

abbrev pub writes : List ℕ → Option (List ℕ) → Option (List ℕ × List ℕ)
writes bs none = none
writes bs (some p) = some (bs, p)

-- The case `'u'`, from the `u` on: the bytes that are written, and the pointer after the round. The
-- pointer is moved back by one only if there were four bytes. `strtol` is the C library's with base
-- 16, converted to `unsigned`.
unfoldable pub unicode : (List ℕ → ℕ) → List ℕ → Option (List ℕ × List ℕ)
unfolding hex_run
unicode strtol p =
    let run = hex_run 4 p in
    let h = length run in
    if h == 4 then some (encode (strtol run), drop 4 p) else writes [] (bump (drop h p))

-- A round at a backslash, from the byte behind it on.
unfoldable pub escaped : (List ℕ → ℕ) → List ℕ → Option (List ℕ × List ℕ)
unfolding unicode
escaped strtol [] = none
escaped strtol (d ∷ p) = if d == b'u' then unicode strtol (d ∷ p) else some (simple d ∷ [], p)

-- A round of the loop.
unfoldable pub parse_round : (List ℕ → ℕ) → List ℕ → Option (List ℕ × List ℕ)
unfolding escaped
parse_round strtol [] = none
parse_round strtol (c ∷ p) = if c == b'\\' then escaped strtol p else some (c ∷ [], p)

abbrev pub at_quote : List ℕ → Bool
at_quote [] = false
at_quote (c ∷ p) = c == b'"'

abbrev pub before : List ℕ → Option (List ℕ × List ℕ) → Option (List ℕ × List ℕ)
before bs none = none
before bs (some (cs, p)) = some (bs ++ cs, p)

-- The loop of `json_parse_string`, on fuel: the bytes written from position `pos` on, and the
-- pointer behind them. `none` is a read behind the text, or a write behind the 4096 bytes of the
-- buffer, of which the last is for the zero byte; it is also the answer without fuel, which a loop
-- that has one unit more than bytes never comes to.
unfoldable pub parse_loop : (List ℕ → ℕ) → ℕ → List ℕ → ℕ → Option (List ℕ × List ℕ)
unfolding parse_round
parse_loop strtol zero p pos = none
parse_loop strtol (suc fuel) p pos =
    let rest : Option (List ℕ × List ℕ) = elim (parse_round strtol p) [
      | none ↦ none
      | some (bs, q) ↦
          let later = parse_loop strtol fuel q (pos + length bs) in
          if ltb 4095 (pos + length bs) then none else before bs later
    ] in
    if at_end p || (at_quote p || leb 4095 pos) then some ([], p) else rest

-- `if (**p == '"') (*p)++;`
abbrev pub skip_quote : List ℕ → List ℕ
skip_quote [] = []
skip_quote (c ∷ p) = if c == b'"' then p else c ∷ p

-- `json_parse_string`: a null pointer, or a text and the pointer behind it. `xt_string_new` ends the
-- text at the first zero byte.
abbrev pub finish_string : Option (List ℕ × List ℕ) → Option (Option (List ℕ × List ℕ))
finish_string none = none
finish_string (some (bs, p)) = some (some (c_string bs, skip_quote p))

unfoldable pub parse_string : (List ℕ → ℕ) → List ℕ → Option (Option (List ℕ × List ℕ))
unfolding parse_loop
parse_string strtol [] = some none
parse_string strtol (c ∷ p) =
    if c == b'"' then finish_string (parse_loop strtol (length p + 1) p 0) else some none
