-- ===== src/Json/Fuel.antt =====
-- The fuel of the parser of JSON and of the loop of `json_parse_string`.
use atlanage.Prelude.{
  ℕ, zero, suc, ◌+◌, ◌≡◌, ◌≢◌, ◌<◌, refl, ◌||◌, List, [], Option, none, some, Option-cases, inl,
  inr, arith, ltb, leb, if◌then◌else◌, length,
}
use atlanage.Json.{before, at_end, at_quote, parse_round, parse_loop}
use atlanage.Json.Ends.{parse_round-lt}
use atlanage.Json.Parser.{out_of_fuel, deserialize}
use atlanage.Json.Total.{deserialize-ne-out_of_fuel}

-- The loop of `json_parse_string` that answers `stop` where its fuel is spent.
unfoldable pub parse_loop_or :
    Option (List ℕ × List ℕ) → (List ℕ → ℕ) → ℕ → List ℕ → ℕ → Option (List ℕ × List ℕ)
unfolding parse_round
parse_loop_or stop strtol zero p pos = stop
parse_loop_or stop strtol (suc fuel) p pos =
    let rest : Option (List ℕ × List ℕ) = elim (parse_round strtol p) [
      | none ↦ none
      | some (bs, q) ↦
          let later = parse_loop_or stop strtol fuel q (pos + length bs) in
          if ltb 4095 (pos + length bs) then none else before bs later
    ] in
    if at_end p || (at_quote p || leb 4095 pos) then some ([], p) else rest

parse_loop_or_lem :
    (stop : Option (List ℕ × List ℕ)) (strtol : List ℕ → ℕ) (fuel : ℕ) (p : List ℕ) (pos : ℕ)
    → length p < fuel
    → parse_loop strtol fuel p pos ≡ parse_loop_or stop strtol fuel p pos
unfolding parse_loop parse_loop_or
parse_loop_or_lem stop strtol zero p pos h = absurd (omega arith)
parse_loop_or_lem stop strtol (suc fuel) p pos h = elim (Option-cases (parse_round strtol p)) [
  | inl e ↦ rw e refl
  | inr ((bs, q), e) ↦
      let l = parse_round-lt strtol p q bs e in
      let later = parse_loop_or_lem stop strtol fuel q (pos + length bs) (omega arith) in
      rw (e, later) refl
]

-- On no text, whatever its bytes and its nesting, does `xt_json_deserialize` run for ever: the fuel of
-- the model, two units for each byte and one more, is never spent. Nor is that of the loop of
-- `json_parse_string`, one unit for each byte behind the quote and one more: whatever the loop
-- answered when it is spent, the answer is the same. Where the parser reads behind its text or writes
-- behind its buffer, the model ends.
pub deserialize_ends :
    (strtol atoll : List ℕ → ℕ) (s : List ℕ)
    → (deserialize strtol atoll s ≢ out_of_fuel)
      × ((stop : Option (List ℕ × List ℕ)) (p : List ℕ)
          → parse_loop strtol (length p + 1) p 0 ≡ parse_loop_or stop strtol (length p + 1) p 0)
deserialize_ends strtol atoll s = (
  deserialize-ne-out_of_fuel strtol atoll s,
  λ stop p. parse_loop_or_lem stop strtol (length p + 1) p 0 (omega arith),
)
