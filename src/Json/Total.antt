-- ===== src/Json/Total.antt =====
-- With two units of fuel for each byte and one more, the parser of JSON comes back.
use atlanage.Prelude.{
  ℕ, zero, suc, ◌+◌, ◌*◌, ◌≡◌, ◌≤◌, ◌<◌, ◌≢◌, ◌||◌, List, none, some, arith, ◌==◌, if◌then◌else◌,
  length, Option-cases, inl, inr, Bool-cases,
}
use atlanage.Json.{parse_string}
use atlanage.Json.Value.{
  Value, number, xt_true, xt_false, xt_null, illegal, text, array, object, other, no_items,
  no_members,
}
use atlanage.Json.Parser.{
  Parsed, out_of_fuel, unsafe, parsed, byte_at, tail, skip_ws, is_digit, push_item, push_member,
  after_item, after_member, then_value, items_round, members_round, parse_array, parse_object,
  parse_at, parse_value, parse_items, parse_members, deserialize,
}
use atlanage.Json.Ends.{
  Within, Within-le, length-skip_ws, length-tail_byte, parse_number-Within, parse_word-Within,
  parse_text-Within, parse_string-lt,
}

push_item-Within : (n : ℕ) (v : Value) (r : Parsed) → Within n r → Within n (push_item v r)
push_item-Within n v out_of_fuel h = h
push_item-Within n v unsafe h = h
push_item-Within n v (parsed (array xs) q) h = h
push_item-Within n v (parsed (number w) q) h = h
push_item-Within n v (parsed xt_true q) h = h
push_item-Within n v (parsed xt_false q) h = h
push_item-Within n v (parsed xt_null q) h = h
push_item-Within n v (parsed illegal q) h = h
push_item-Within n v (parsed (text s) q) h = h
push_item-Within n v (parsed (object ms) q) h = h
push_item-Within n v (parsed other q) h = h

push_member-Within :
    (n : ℕ) (k : List ℕ) (v : Value) (r : Parsed) → Within n r → Within n (push_member k v r)
push_member-Within n k v out_of_fuel h = h
push_member-Within n k v unsafe h = h
push_member-Within n k v (parsed (array xs) q) h = h
push_member-Within n k v (parsed (number w) q) h = h
push_member-Within n k v (parsed xt_true q) h = h
push_member-Within n k v (parsed xt_false q) h = h
push_member-Within n k v (parsed xt_null q) h = h
push_member-Within n k v (parsed illegal q) h = h
push_member-Within n k v (parsed (text s) q) h = h
push_member-Within n k v (parsed (object ms) q) h = h
push_member-Within n k v (parsed other q) h = h

then_value-Within :
    (m n : ℕ) (r : Parsed) (f : Value → List ℕ → Parsed)
    → Within m r
    → ((v : Value) (q : List ℕ) → length q ≤ m → Within n (f v q))
    → Within n (then_value r f)
then_value-Within m n out_of_fuel f w h = w
then_value-Within m n unsafe f w h = tt
then_value-Within m n (parsed v q) f w h = h v q w

-- What a loop calls for its later rounds comes back from all shorter texts.
abbrev Comes : ℕ → (List ℕ → Parsed) → Type 0
Comes n f = (p : List ℕ) → length p < n → Within n (f p)

module _ (n : ℕ) (more : List ℕ → Parsed) (h : Comes n more) where
  after_item-Within : (v : Value) (q : List ℕ) → length q ≤ n → Within n (after_item more v q)
  unfolding after_item
  after_item-Within v q l =
      let r = skip_ws q in
      let s = length-skip_ws q in
      elim (Bool-cases (byte_at r == b']')) [
        | inl e ↦ let t = length-tail_byte r 92 (ground (arith, e)) in rw e (omega arith)
        | inr e ↦ elim (Bool-cases (byte_at r == b',')) [
          | inl f ↦
              let t = length-tail_byte r 43 (ground (arith, f)) in
              rw (e, f) (push_item-Within n v (more (tail r)) (h (tail r) (omega arith)))
          | inr f ↦ rw (e, f) (omega arith)
        ]
      ]

  after_member-Within :
      (k : List ℕ) (v : Value) (q : List ℕ) → length q ≤ n → Within n (after_member more k v q)
  unfolding after_member
  after_member-Within k v q l =
      let r = skip_ws q in
      let s = length-skip_ws q in
      elim (Bool-cases (byte_at r == b'}')) [
        | inl e ↦ let t = length-tail_byte r 124 (ground (arith, e)) in rw e (omega arith)
        | inr e ↦ elim (Bool-cases (byte_at r == b',')) [
          | inl f ↦
              let t = length-tail_byte r 43 (ground (arith, f)) in
              rw (e, f) (push_member-Within n k v (more (tail r)) (h (tail r) (omega arith)))
          | inr f ↦ rw (e, f) (omega arith)
        ]
      ]

-- Where the calls of a round come back, the round does: that for a value up to the length of the
-- text, and that for the later rounds on all shorter texts.
module _ (p : List ℕ) (value more : List ℕ → Parsed)
    (w : (q : List ℕ) → length q ≤ length p → Within (length p) (value q))
    (h : Comes (length p) more) where
  items_round-Within : Within (length p) (items_round value more p)
  unfolding items_round
  items_round-Within =
      then_value-Within (length p) (length p) (value (skip_ws p)) (after_item more)
        (w (skip_ws p) (length-skip_ws p)) (after_item-Within (length p) more h)

  members_round-Within :
      (strtol : List ℕ → ℕ) → Within (length p) (members_round strtol value more p)
  unfolding members_round
  members_round-Within strtol = elim (Option-cases (parse_string strtol p)) [
    | inl e ↦ rw (e, members_round) tt
    | inr (none, e) ↦ rw (e, members_round) (omega arith)
    | inr (some (k, q), e) ↦
        let l = parse_string-lt strtol p q k e in
        let r = skip_ws q in
        let s = length-skip_ws q in
        elim (Bool-cases (byte_at r == b':')) [
          | inl f ↦
              let t = length-skip_ws (tail r) in
              let u = length-tail_byte r 57 (ground (arith, f)) in
              rw (e, members_round, f)
                (then_value-Within (length p) (length p) (value (skip_ws (tail r)))
                  (after_member more k) (w (skip_ws (tail r)) (omega arith))
                  (after_member-Within (length p) more h k))
          | inr f ↦ rw (e, members_round, f) (omega arith)
        ]
  ]

bracket-Within :
    (p : List ℕ) (loop : List ℕ → Parsed) (v : Value) (b : ℕ)
    → ((q : List ℕ) → length q ≤ length p → Within (length p) (loop q))
    → Within
        (length p)
        (if byte_at (skip_ws p) == suc b then parsed v (tail (skip_ws p)) else loop (skip_ws p))
bracket-Within p loop v b h =
    let l = length-skip_ws p in
    elim (Bool-cases (byte_at (skip_ws p) == suc b)) [
      | inl e ↦ let t = length-tail_byte (skip_ws p) b (ground (arith, e)) in rw e (omega arith)
      | inr e ↦ rw e (h (skip_ws p) l)
    ]

-- The text in a bracket is shorter.
inside-Within :
    (p : List ℕ) (b : ℕ) (r : List ℕ → Parsed)
    → byte_at p ≡ suc b
    → Within (length (tail p)) (r (tail p))
    → Within (length p) (r (tail p))
inside-Within p b r e w =
    Within-le (length (tail p)) (length p) (r (tail p)) (omega (arith, length-tail_byte p b e)) w

parse_at-Within :
    (strtol atoll : List ℕ → ℕ) (items members : List ℕ → Parsed) (p : List ℕ)
    → ((q : List ℕ) → length q < length p → Within (length q) (items q))
    → ((q : List ℕ) → length q < length p → Within (length q) (members q))
    → Within (length p) (parse_at strtol atoll items members p)
unfolding parse_at parse_array parse_object
parse_at-Within strtol atoll items members p hi hm = elim (Bool-cases (byte_at p == b'"')) [
  | inl a ↦ rw a (parse_text-Within strtol p)
  | inr a ↦ elim (Bool-cases (is_digit (byte_at p) || byte_at p == b'-')) [
    | inl b ↦ rw (a, b) (parse_number-Within atoll p)
    | inr b ↦ elim (Bool-cases (byte_at p == b'{')) [
      | inl c ↦ rw (a, b, c) (inner members 122 (object no_members) 124 hm (ground (arith, c)))
      | inr c ↦ elim (Bool-cases (byte_at p == b'[')) [
        | inl d ↦ rw (a, b, c, d) (inner items 90 (array no_items) 92 hi (ground (arith, d)))
        | inr d ↦ rw (a, b, c, d) (parse_word-Within p)
      ]
    ]
  ]
]
  where
    inner :
        (loop : List ℕ → Parsed) (b : ℕ) (v : Value) (close : ℕ)
        → ((q : List ℕ) → length q < length p → Within (length q) (loop q))
        → byte_at p ≡ suc b
        → Within (length p) (
            if byte_at (skip_ws (tail p)) == suc close
            then parsed v (tail (skip_ws (tail p)))
            else loop (skip_ws (tail p)))
    inner loop b v close h e =
        let t = length-tail_byte p b e in
        Within-le (length (tail p)) (length p)
          (if byte_at (skip_ws (tail p)) == suc close
            then parsed v (tail (skip_ws (tail p)))
            else loop (skip_ws (tail p)))
          (omega arith)
          (bracket-Within (tail p) loop v close
            (λ q l. Within-le (length q) (length (tail p)) (loop q) l (h q (omega arith))))

module _ (strtol atoll : List ℕ → ℕ) where
  mutual
    unfolding parse_value parse_items parse_members

    parse_value-Within :
        (fuel : ℕ) (p : List ℕ)
        → 2 * length p < fuel
        → Within (length p) (parse_value strtol atoll fuel p)
    parse_value-Within zero p h = absurd (omega arith)
    parse_value-Within (suc fuel) p h =
        let l = length-skip_ws p in
        let q = skip_ws p in
        Within-le (length q) (length p)
          (parse_at strtol atoll (parse_items strtol atoll fuel) (parse_members strtol atoll fuel)
            q)
          l
          (parse_at-Within strtol atoll (parse_items strtol atoll fuel)
            (parse_members strtol atoll fuel) q (λ r m. parse_items-Within fuel r (omega arith))
            (λ r m. parse_members-Within fuel r (omega arith)))

    parse_items-Within :
        (fuel : ℕ) (p : List ℕ)
        → 2 * length p + 1 < fuel
        → Within (length p) (parse_items strtol atoll fuel p)
    parse_items-Within zero p h = absurd (omega arith)
    parse_items-Within (suc fuel) p h =
        items_round-Within p (parse_value strtol atoll fuel) (parse_items strtol atoll fuel)
          (λ q l.
            Within-le (length q) (length p) (parse_value strtol atoll fuel q) l
              (parse_value-Within fuel q (omega arith)))
          (λ q l.
            Within-le (length q) (length p) (parse_items strtol atoll fuel q) (omega arith)
              (parse_items-Within fuel q (omega arith)))

    parse_members-Within :
        (fuel : ℕ) (p : List ℕ)
        → 2 * length p + 1 < fuel
        → Within (length p) (parse_members strtol atoll fuel p)
    parse_members-Within zero p h = absurd (omega arith)
    parse_members-Within (suc fuel) p h =
        let l = length-skip_ws p in
        let r = skip_ws p in
        Within-le (length r) (length p)
          (members_round strtol (parse_value strtol atoll fuel) (parse_members strtol atoll fuel) r)
          l
          (members_round-Within r (parse_value strtol atoll fuel) (parse_members strtol atoll fuel)
            (λ q m.
              Within-le (length q) (length r) (parse_value strtol atoll fuel q) m
                (parse_value-Within fuel q (omega arith)))
            (λ q m.
              Within-le (length q) (length r) (parse_members strtol atoll fuel q) (omega arith)
                (parse_members-Within fuel q (omega arith)))
            strtol)

  pub deserialize-ne-out_of_fuel : (s : List ℕ) → deserialize strtol atoll s ≢ out_of_fuel
  unfolding deserialize
  deserialize-ne-out_of_fuel s e = elim (Bool-cases (length s == 0)) [
    | inl z ↦ ground (arith, e, z)
    | inr z ↦ rw (rw z at e) at (parse_value-Within (2 * length s + 1) s (omega arith))
  ]
