-- ===== src/Json/Inverse.antt =====
-- `xt_json_deserialize` is the inverse of `xt_json_serialize` on the values that JSON can hold.
use atlanage.Prelude.{
  ℕ, zero, suc, ◌+◌, ◌*◌, ◌^◌, ◌≡◌, ◌∙◌, ◌<◌, false, List, [], ◌∷◌, ◌++◌, append_assoc, append-nil,
  arith, ◌==◌, length, length-append,
}
use atlanage.Word.{to_int, signed}
use atlanage.Json.Value.{
  Value, Items, Members, number, xt_true, xt_false, xt_null, illegal, text, array, object, other,
  no_items, item, no_members, member, print_int, serialize, serialize_items, serialize_members,
}
use atlanage.Json.Parser.{parsed, deserialize}
use atlanage.Json.Decimal.{IsBehind}
use atlanage.Json.Reads.{
  IsPlain, ArePlain, HasPlain, serialize-Starts, items-Starts, length-serialize, parse_at-number,
  parse_at-text,
}
use atlanage.Json.Rounds.{
  comma-IsBehind, bracket-IsBehind, brace-IsBehind, nil-IsBehind, to_int-lt, value, items, members,
  value_step, items_round_lem, after_item_last, after_item_next, array_lem, object_lem,
  members-Starts, members_last, members_next, constants,
}

positive_ne : (n : ℕ) → 0 < n → (n == 0) ≡ false
positive_ne n h = ground (arith, h)

module _ (strtol atoll : List ℕ → ℕ)
    (reads : (w : ℕ) → w < 2 ^ 64 → atoll (print_int (signed w)) ≡ w) where
  mutual
    unfolding serialize

    parse_value-serialize :
        (v : Value) (rest : List ℕ) (f : ℕ)
        → IsPlain v
        → IsBehind rest
        → 2 * length (serialize v) < f
        → value strtol atoll f (serialize v ++ rest) ≡ parsed v rest
    parse_value-serialize v rest zero h b n = absurd (omega arith)
    parse_value-serialize (number w) rest (suc f) h b n =
        value_step strtol atoll f (serialize (number w) ++ rest)
          (serialize-Starts (number w) h rest).0
        ∙ parse_at-number strtol atoll (items strtol atoll f) (members strtol atoll f) w rest h
            (reads (to_int w) (to_int-lt w h.0)) b
    parse_value-serialize xt_true rest (suc f) h b n = (constants strtol atoll f rest).0
    parse_value-serialize xt_false rest (suc f) h b n = (constants strtol atoll f rest).1
    parse_value-serialize xt_null rest (suc f) h b n = (constants strtol atoll f rest).2
    parse_value-serialize illegal rest (suc f) h b n = absurd h
    parse_value-serialize other rest (suc f) h b n = absurd h
    parse_value-serialize (text s) rest (suc f) h b n =
        value_step strtol atoll f (serialize (text s) ++ rest) (serialize-Starts (text s) h rest).0
        ∙ parse_at-text strtol atoll (items strtol atoll f) (members strtol atoll f) s rest h
    parse_value-serialize (array no_items) rest (suc f) h b n = (constants strtol atoll f rest).3
    parse_value-serialize (array (item v xs)) rest (suc f) h b n =
        array_lem strtol atoll f (serialize_items (item v xs)) (item v xs) rest
          (items-Starts v xs h.0 (b']' ∷ rest))
          (parse_items-serialize v xs rest f h
            (omega (arith, length-append (serialize_items (item v xs)) (b']' ∷ []))))
    parse_value-serialize (object no_members) rest (suc f) h b n = (constants strtol atoll f rest).4
    parse_value-serialize (object (member k v ms)) rest (suc f) h b n =
        object_lem strtol atoll f (serialize_members (member k v ms)) (member k v ms) rest
          (members-Starts strtol atoll k v ms h.0 (b'}' ∷ rest))
          (parse_members-serialize k v ms rest f h
            (omega (arith, length-append (serialize_members (member k v ms)) (b'}' ∷ []))))

    parse_items-serialize :
        (v : Value) (xs : Items) (rest : List ℕ) (f : ℕ)
        → ArePlain (item v xs)
        → 2 * length (serialize_items (item v xs)) + 1 < f
        → items strtol atoll f (serialize_items (item v xs) ++ b']' ∷ rest)
          ≡ parsed (array (item v xs)) rest
    parse_items-serialize v xs rest zero h n = absurd (omega arith)
    parse_items-serialize v no_items rest (suc f) h n =
        items_round_lem strtol atoll f v (serialize v ++ b']' ∷ rest) (b']' ∷ rest)
          (serialize-Starts v h.0 (b']' ∷ rest)).0
          (parse_value-serialize v (b']' ∷ rest) f h.0 (bracket-IsBehind rest) (omega arith))
        ∙ after_item_last strtol atoll f v rest
    parse_items-serialize v (item w xs) rest (suc f) h n =
        let s = serialize_items (item w xs) in
        let q = b',' ∷ b' ' ∷ (s ++ b']' ∷ rest) in
        let l = length-append (serialize v) (b',' ∷ b' ' ∷ s) in
        rw (append_assoc (serialize v) (b',' ∷ b' ' ∷ s) (b']' ∷ rest)) (
          items_round_lem strtol atoll f v (serialize v ++ q) q (serialize-Starts v h.0 q).0 (
            parse_value-serialize v q f h.0 (comma-IsBehind (b' ' ∷ (s ++ b']' ∷ rest)))
              (omega (arith, l)))
          ∙ after_item_next strtol atoll f v (item w xs) (s ++ b']' ∷ rest) rest
              (parse_items-serialize w xs rest f h.1 (omega (arith, l, length-serialize v h.0))))

    parse_members-serialize :
        (k v : Value) (ms : Members) (rest : List ℕ) (f : ℕ)
        → HasPlain (member k v ms)
        → 2 * length (serialize_members (member k v ms)) + 1 < f
        → members strtol atoll f (serialize_members (member k v ms) ++ b'}' ∷ rest)
          ≡ parsed (object (member k v ms)) rest
    parse_members-serialize k v ms rest zero h n = absurd (omega arith)
    parse_members-serialize k v no_members rest (suc f) (t, h, g) n =
        let l = length-append (serialize k) (b':' ∷ b' ' ∷ serialize v) in
        members_last strtol atoll f k v rest t (serialize-Starts v h (b'}' ∷ rest))
          (parse_value-serialize v (b'}' ∷ rest) f h (brace-IsBehind rest) (omega (arith, l)))
    parse_members-serialize k v (member j w ms) rest (suc f) (t, h, g) n =
        let s = serialize_members (member j w ms) in
        let q = b',' ∷ b' ' ∷ (s ++ b'}' ∷ rest) in
        let m = length-append (serialize v) (b',' ∷ b' ' ∷ s) in
        let l = length-append (serialize k) (b':' ∷ b' ' ∷ (serialize v ++ b',' ∷ b' ' ∷ s)) in
        members_next strtol atoll f k v j w ms rest t (serialize-Starts v h q)
          (parse_value-serialize v q f h (comma-IsBehind (b' ' ∷ (s ++ b'}' ∷ rest)))
            (omega (arith, l, m)))
          (parse_members-serialize j w ms rest f g (omega (arith, l, m, length-serialize v h)))

  -- A value that JSON can hold, a tagged integer, a constant, a text as in the round trip of texts, an
  -- array or a dictionary with such texts for keys, comes back from its JSON with nothing left over.
  -- `atoll` reads back what `"%lld"` prints, for every `int64_t`.
  pub deserialize-serialize :
      (v : Value) → IsPlain v → deserialize strtol atoll (serialize v) ≡ parsed v []
  unfolding deserialize
  deserialize-serialize v h =
      let e =
        parse_value-serialize v [] (2 * length (serialize v) + 1) h nil-IsBehind (omega arith) in
      let n : (length (serialize v) == 0) ≡ false =
        positive_ne (length (serialize v)) (length-serialize v h) in
      rw n (rw (append-nil (serialize v)) at e)
