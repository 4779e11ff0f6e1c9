-- ===== src/Json/Rounds.antt =====
-- What the rounds of the loops of the JSON parser make of a printed value and of what follows it.
use atlanage.Prelude.{
  ℕ, zero, suc, ◌^◌, ◌≡◌, ◌∙◌, ◌<◌, refl, false, List, [], ◌∷◌, ◌++◌, append_assoc, arith, ◌==◌,
}
use atlanage.Word.{to_int}
use atlanage.Json.{serialize_text}
use atlanage.Json.Roundtrip.{parse_string-serialize_text}
use atlanage.Json.Value.{
  Value, Items, Members, number, xt_true, xt_false, xt_null, illegal, text, array, object, other,
  no_items, item, no_members, member, serialize, serialize_members,
}
use atlanage.Json.Parser.{
  Parsed, parsed, byte_at, skip_ws, parse_word, starts, after_item, after_member, items_round,
  members_round, parse_array, parse_object, parse_at, parse_value, parse_items, parse_members,
}
use atlanage.Json.Decimal.{IsBehind}
use atlanage.Json.Reads.{IsText, Starts}

pub comma-IsBehind : (p : List ℕ) → IsBehind (b',' ∷ p)
comma-IsBehind p = record { no_digit = refl; no_point = refl; no_exponent = refl }

pub bracket-IsBehind : (p : List ℕ) → IsBehind (b']' ∷ p)
bracket-IsBehind p = record { no_digit = refl; no_point = refl; no_exponent = refl }

pub brace-IsBehind : (p : List ℕ) → IsBehind (b'}' ∷ p)
brace-IsBehind p = record { no_digit = refl; no_point = refl; no_exponent = refl }

pub nil-IsBehind : IsBehind []
nil-IsBehind = record { no_digit = refl; no_point = refl; no_exponent = refl }

pub to_int-lt : (w : ℕ) → w < 2 ^ 64 → to_int w < 2 ^ 64
unfolding to_int
to_int-lt w h = ground arith

text_of : (k : Value) → IsText k → (s : List ℕ) × (k ≡ text s) × IsText (text s)
text_of (text s) h = (s, refl, h)
text_of (number w) h = absurd h
text_of xt_true h = absurd h
text_of xt_false h = absurd h
text_of xt_null h = absurd h
text_of illegal h = absurd h
text_of (array xs) h = absurd h
text_of (object ms) h = absurd h
text_of other h = absurd h

module _ (strtol atoll : List ℕ → ℕ) where
  abbrev pub value : ℕ → List ℕ → Parsed
  value = parse_value strtol atoll

  abbrev pub items : ℕ → List ℕ → Parsed
  items = parse_items strtol atoll

  abbrev pub members : ℕ → List ℕ → Parsed
  members = parse_members strtol atoll

  pub value_step :
      (f : ℕ) (p : List ℕ)
      → skip_ws p ≡ p
      → value (suc f) p ≡ parse_at strtol atoll (items f) (members f) p
  unfolding parse_value
  value_step f p e = rw e refl

  items_space : (f : ℕ) (q : List ℕ) → items f (b' ' ∷ q) ≡ items f q
  unfolding parse_items items_round skip_ws
  items_space zero q = refl
  items_space (suc f) q = refl

  members_space : (f : ℕ) (q : List ℕ) → members f (b' ' ∷ q) ≡ members f q
  unfolding parse_members skip_ws
  members_space zero q = refl
  members_space (suc f) q = refl

  parse_array-Starts :
      (loop : List ℕ → Parsed) (p : List ℕ) → Starts p → parse_array loop p ≡ loop p
  unfolding parse_array
  parse_array-Starts loop p (s, b) = rw (s, b) refl

  -- What a round of a loop makes of the value that it reads, and of what follows.
  pub items_round_lem :
      (f : ℕ) (v : Value) (p rest : List ℕ)
      → skip_ws p ≡ p
      → value f p ≡ parsed v rest
      → items (suc f) p ≡ after_item (items f) v rest
  unfolding parse_items items_round
  items_round_lem f v p rest s e = rw (s, e) refl

  pub after_item_last :
      (f : ℕ) (v : Value) (rest : List ℕ)
      → after_item (items f) v (b']' ∷ rest) ≡ parsed (array (item v no_items)) rest
  unfolding after_item skip_ws
  after_item_last f v rest = refl

  pub after_item_next :
      (f : ℕ) (v : Value) (xs : Items) (q rest : List ℕ)
      → items f q ≡ parsed (array xs) rest
      → after_item (items f) v (b',' ∷ b' ' ∷ q) ≡ parsed (array (item v xs)) rest
  unfolding after_item skip_ws
  after_item_next f v xs q rest e = rw (items_space f q, e) refl

  members_round_lem :
      (f : ℕ) (k : List ℕ) (v : Value) (q rest : List ℕ)
      → IsText (text k)
      → skip_ws q ≡ q
      → value f q ≡ parsed v rest
      → members (suc f) (serialize_text k ++ b':' ∷ b' ' ∷ q) ≡ after_member (members f) k v rest
  unfolding parse_members members_round serialize_text skip_ws
  members_round_lem f k v q rest (h, l) s e =
      let t = parse_string-serialize_text strtol k (b':' ∷ b' ' ∷ q) h l in
      rw (t, members_round, s, e) refl

  after_member_last :
      (f : ℕ) (k : List ℕ) (v : Value) (rest : List ℕ)
      → after_member (members f) k v (b'}' ∷ rest)
        ≡ parsed (object (member (text k) v no_members)) rest
  unfolding after_member skip_ws
  after_member_last f k v rest = refl

  after_member_next :
      (f : ℕ) (k : List ℕ) (v : Value) (ms : Members) (q rest : List ℕ)
      → members f q ≡ parsed (object ms) rest
      → after_member (members f) k v (b',' ∷ b' ' ∷ q) ≡ parsed (object (member (text k) v ms)) rest
  unfolding after_member skip_ws
  after_member_next f k v ms q rest e = rw (members_space f q, e) refl

  pub array_lem :
      (f : ℕ) (s : List ℕ) (xs : Items) (rest : List ℕ)
      → Starts (s ++ b']' ∷ rest)
      → items f (s ++ b']' ∷ rest) ≡ parsed (array xs) rest
      → value (suc f) ((b'[' ∷ (s ++ b']' ∷ [])) ++ rest) ≡ parsed (array xs) rest
  unfolding parse_value parse_at skip_ws
  array_lem f s xs rest h e =
      rw (append_assoc s (b']' ∷ []) rest) (parse_array-Starts (items f) (s ++ b']' ∷ rest) h ∙ e)

  pub object_lem :
      (f : ℕ) (s : List ℕ) (ms : Members) (rest : List ℕ)
      → (skip_ws (s ++ b'}' ∷ rest) ≡ s ++ b'}' ∷ rest)
        × ((byte_at (s ++ b'}' ∷ rest) == b'}') ≡ false)
      → members f (s ++ b'}' ∷ rest) ≡ parsed (object ms) rest
      → value (suc f) ((b'{' ∷ (s ++ b'}' ∷ [])) ++ rest) ≡ parsed (object ms) rest
  unfolding parse_value parse_at parse_object skip_ws
  object_lem f s ms rest (a, b) e = rw (append_assoc s (b'}' ∷ []) rest, a, b) e

  text-Starts :
      (s p : List ℕ)
      → (skip_ws (serialize_text s ++ p) ≡ serialize_text s ++ p)
        × ((byte_at (serialize_text s ++ p) == b'}') ≡ false)
  unfolding serialize_text skip_ws
  text-Starts s p = (refl, refl)

  pub members-Starts :
      (k v : Value) (ms : Members)
      → IsText k
      → (r : List ℕ)
      → (skip_ws (serialize_members (member k v ms) ++ r) ≡ serialize_members (member k v ms) ++ r)
        × ((byte_at (serialize_members (member k v ms) ++ r) == b'}') ≡ false)
  unfolding serialize
  members-Starts k v no_members h r =
      let (s, e, t) = text_of k h in
      rw (e, append_assoc (serialize_text s) (b':' ∷ b' ' ∷ serialize v) r)
        (text-Starts s (b':' ∷ b' ' ∷ (serialize v ++ r)))
  members-Starts k v (member l w ms) h r =
      let (s, e, t) = text_of k h in
      let q = b':' ∷ b' ' ∷ (serialize v ++ b',' ∷ b' ' ∷ serialize_members (member l w ms)) in
      rw (e, append_assoc (serialize_text s) q r) (text-Starts s (q ++ r))

  pub members_last :
      (f : ℕ) (k v : Value) (rest : List ℕ)
      → IsText k
      → Starts (serialize v ++ b'}' ∷ rest)
      → value f (serialize v ++ b'}' ∷ rest) ≡ parsed v (b'}' ∷ rest)
      → members (suc f) (serialize_members (member k v no_members) ++ b'}' ∷ rest)
        ≡ parsed (object (member k v no_members)) rest
  unfolding serialize
  members_last f k v rest h s e =
      let (j, i, t) = text_of k h in
      let q = serialize v ++ b'}' ∷ rest in
      rw (i, append_assoc (serialize_text j) (b':' ∷ b' ' ∷ serialize v) (b'}' ∷ rest))
        (members_round_lem f j v q (b'}' ∷ rest) t s.0 e ∙ after_member_last f j v rest)

  pub members_next :
      (f : ℕ) (k v l w : Value) (ms : Members) (rest : List ℕ)
      → IsText k
      → let q = b',' ∷ b' ' ∷ (serialize_members (member l w ms) ++ b'}' ∷ rest) in
        Starts (serialize v ++ q)
        → value f (serialize v ++ q) ≡ parsed v q
        → members f (serialize_members (member l w ms) ++ b'}' ∷ rest)
          ≡ parsed (object (member l w ms)) rest
        → members (suc f) (serialize_members (member k v (member l w ms)) ++ b'}' ∷ rest)
          ≡ parsed (object (member k v (member l w ms))) rest
  unfolding serialize
  members_next f k v l w ms rest h s e g =
      let (j, i, t) = text_of k h in
      let r = serialize_members (member l w ms) in
      let q = b',' ∷ b' ' ∷ (r ++ b'}' ∷ rest) in
      rw
        (
          i,
          append_assoc (serialize_text j) (b':' ∷ b' ' ∷ (serialize v ++ b',' ∷ b' ' ∷ r))
              (b'}' ∷ rest),
          append_assoc (serialize v) (b',' ∷ b' ' ∷ r) (b'}' ∷ rest),
        )
        (members_round_lem f j v (serialize v ++ q) q t s.0 e
          ∙ after_member_next f j v (member l w ms) (r ++ b'}' ∷ rest) rest g)

  pub constants :
      (f : ℕ) (rest : List ℕ)
      → (value (suc f) (serialize xt_true ++ rest) ≡ parsed xt_true rest)
        × (value (suc f) (serialize xt_false ++ rest) ≡ parsed xt_false rest)
        × (value (suc f) (serialize xt_null ++ rest) ≡ parsed xt_null rest)
        × (value (suc f) (serialize (array no_items) ++ rest) ≡ parsed (array no_items) rest)
        × (value (suc f) (serialize (object no_members) ++ rest) ≡ parsed (object no_members) rest)
  unfolding serialize parse_value parse_at parse_word starts skip_ws parse_array parse_object
  constants f rest = (refl, refl, refl, refl, refl)
