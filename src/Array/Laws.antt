-- ===== src/Array/Laws.antt =====
-- The operations on an array front operations on the list of its elements.
use atlanage.Prelude.{
  ℕ, zero, suc, ◌+◌, ◌-◌, ◌^◌, ◌≡◌, ◌<◌, ◌≤◌, refl, sym, ap, ◌∙◌, Bool, true, false, List, [], ◌∷◌,
  ◌++◌, some, arith, length, get_or, set, take, drop, length-append, append_assoc, append-nil,
  length-set, dec_lt, lt→ltb, if◌then◌else◌,
}
use atlanage.Word.{Memory, is_real_ptr, xt_null, value_to_int, is_negative}
use atlanage.Effect.{retain}
use atlanage.Array.{
  Array, append, append_all, new, shift_left, sink, remove_at, insert, slice, read_from,
  out_of_range,
}

-- The elements fit into the memory behind them.
abbrev pub HasRoom : Array → Type 0
HasRoom a = length a.elements ≤ a.capacity

module _ (arena : Bool) (available : ℕ → Bool) (p : ℕ) (real : is_real_ptr p ≡ true) where
  pub append-elements :
      (a : Array) (x : ℕ)
      → ((n : ℕ) → available n ≡ true)
      → (append arena available p a x).0.elements ≡ a.elements ++ x ∷ []
  unfolding append
  append-elements a x ok = grind arith

  pub append-effects :
      (a : Array) (x : ℕ)
      → ((n : ℕ) → available n ≡ true)
      → (append arena available p a x).1 ≡ retain x ∷ []
  unfolding append
  append-effects a x ok = grind arith

  -- After `xt_array_append` the elements still fit into the memory behind them, whether or not the
  -- allocator serves it. The capacity before is below 2 ^ 63.
  pub append-HasRoom :
      (a : Array) (x : ℕ)
      → a.capacity < 2 ^ 63
      → HasRoom a
      → HasRoom (append arena available p a x).0
  unfolding append
  append-HasRoom a x small room = ground (arith, length-append a.elements (x ∷ []))

  pub append_all-elements :
      (a : Array) (xs : List ℕ)
      → ((n : ℕ) → available n ≡ true)
      → (append_all arena available p a xs).0.elements ≡ a.elements ++ xs
  unfolding append_all
  append_all-elements a [] ok = sym (append-nil a.elements)
  append_all-elements a (x ∷ xs) ok =
      append_all-elements (append arena available p a x).0 xs ok
      ∙ ap (λ ys. ys ++ xs) (append-elements a x ok)
      ∙ append_assoc a.elements (x ∷ []) xs

shift_left-cons : (r i x : ℕ) (xs : List ℕ) → shift_left r (suc i) (x ∷ xs) ≡ x ∷ shift_left r i xs
unfolding shift_left
shift_left-cons zero i x xs = refl
shift_left-cons (suc r) i x xs =
    let e : suc i + 1 ≡ suc (i + 1) = omega arith in
    rw e (shift_left-cons r (i + 1) x (set xs i (get_or xs (i + 1) xt_null)))

-- The moved elements close the gap at `i`.
shift_left-drop :
    (i r x : ℕ) (ys : List ℕ)
    → length ys ≡ i + r
    → take (length ys) (shift_left r i (x ∷ ys)) ≡ take i (x ∷ ys) ++ drop i ys
unfolding shift_left
shift_left-drop zero r x [] h = refl
shift_left-drop (suc i) r x [] h = absurd (omega arith)
shift_left-drop zero zero x (y ∷ ys) h = absurd (omega arith)
shift_left-drop zero (suc r) x (y ∷ ys) h =
    let e : 0 + 1 ≡ suc 0 = omega arith in
    rw (e, shift_left-cons r 0 y (y ∷ ys)) (ap (◌∷◌ y) (shift_left-drop zero r y ys (omega arith)))
shift_left-drop (suc i) r x (y ∷ ys) h =
    rw (shift_left-cons r i x (y ∷ ys)) (ap (◌∷◌ x) (shift_left-drop i r y ys (omega arith)))

shift_left-remove :
    (i : ℕ) (xs : List ℕ)
    → i < length xs
    → take (length xs - 1) (shift_left (length xs - 1 - i) i xs) ≡ take i xs ++ drop (i + 1) xs
shift_left-remove i [] h = absurd (omega arith)
shift_left-remove i (x ∷ ys) h =
    let e : suc (length ys) - 1 ≡ length ys = omega arith in
    let f : i + 1 ≡ suc i = omega arith in
    rw (e, f) (shift_left-drop i (length ys - i) x ys (omega arith))

-- `xt_array_remove` at an index in range takes out that element and keeps the order of the others.
pub remove_at-elements :
    (m : Memory) (p : ℕ) (a : Array) (index_val : ℕ)
    → is_real_ptr p ≡ true
    → out_of_range (value_to_int m index_val) (length a.elements) ≡ false
    → (remove_at m p a index_val).0.elements
      ≡ take (value_to_int m index_val) a.elements ++ drop (value_to_int m index_val + 1) a.elements
unfolding remove_at
remove_at-elements m p a index_val real h =
    rw (real, h) (shift_left-remove (value_to_int m index_val) a.elements (ground arith))

-- The head of a list goes behind the head of `xs`.
abbrev behind : ℕ → List ℕ → List ℕ
behind a [] = a ∷ []
behind a (x ∷ xs) = x ∷ a ∷ xs

sink-cons : (k i x : ℕ) (xs : List ℕ) → sink (suc k) (suc i) (x ∷ xs) ≡ x ∷ sink k i xs
unfolding sink
sink-cons k zero x xs = ground arith
sink-cons k (suc i) x xs = ground (
  arith,
  sink-cons k i x (set (set xs (suc i) (get_or xs i xt_null)) i (get_or xs (suc i) xt_null)),
)

sink-step :
    (k i : ℕ) (xs : List ℕ)
    → k ≤ i
    → sink k (suc i) xs
      ≡ sink k i (set (set xs (suc i) (get_or xs i xt_null)) i (get_or xs (suc i) xt_null))
unfolding sink
sink-step k i xs h = rw (lt→ltb k (suc i) (omega arith))

sink-behind :
    (i a : ℕ) (xs : List ℕ) → i < length xs → sink 0 (suc i) (a ∷ xs) ≡ behind a (sink 0 i xs)
sink-behind i a [] h = absurd (omega arith)
sink-behind zero a (x ∷ xs) h = unfold sink in refl
sink-behind (suc i) a (x ∷ xs) h =
    let swapped =
      set (set (x ∷ xs) (suc i) (get_or (x ∷ xs) i xt_null)) i (get_or (x ∷ xs) (suc i) xt_null) in
    sink-step 0 (suc i) (a ∷ x ∷ xs) (omega arith)
    ∙ sink-behind i a swapped (simp length-set (omega arith))
    ∙ ap (behind a) (sym (sink-step 0 i (x ∷ xs) (omega arith)))

sink_front : (front : List ℕ) (v : ℕ) → sink 0 (length front) (front ++ v ∷ []) ≡ v ∷ front
unfolding sink
sink_front [] v = refl
sink_front (a ∷ front) v = rw (
  sink-behind (length front) a (front ++ v ∷ []) (omega (arith, length-append front (v ∷ []))),
  sink_front front v,
)

sink-insert :
    (k : ℕ) (front : List ℕ) (v : ℕ)
    → k ≤ length front
    → sink k (length front) (front ++ v ∷ []) ≡ take k front ++ v ∷ drop k front
sink-insert zero front v h = sink_front front v
sink-insert (suc k) [] v h = absurd (omega arith)
sink-insert (suc k) (a ∷ front) v h =
    rw (sink-cons k (length front) a (front ++ v ∷ []))
      (ap (◌∷◌ a) (sink-insert k front v (omega arith)))

-- `xt_array_insert` at an index up to the length puts the value there and keeps the order of the
-- elements; it returns, if the allocator serves the append.
pub insert-elements :
    (m : Memory) (arena : Bool) (available : ℕ → Bool) (p : ℕ) (a : Array) (index_val v : ℕ)
    → is_real_ptr p ≡ true
    → ((n : ℕ) → available n ≡ true)
    → is_negative (value_to_int m index_val) ≡ false
    → value_to_int m index_val ≤ length a.elements
    → (b : Array) × (insert m arena available p a index_val v ≡ some (b, retain v ∷ []))
      × (b.elements
          ≡ take (value_to_int m index_val) a.elements
            ++ v ∷ drop (value_to_int m index_val) a.elements)
unfolding insert
insert-elements m arena available p a index_val v real ok sign inside =
    let index = value_to_int m index_val in
    let longer = (append arena available p a v).0 in
    let e = append-elements arena available p real a v ok in
    let n : length (a.elements ++ v ∷ []) ≡ suc (length a.elements) =
      omega (arith, length-append a.elements (v ∷ [])) in
    let width : suc (length a.elements) - 1 ≡ length a.elements = omega arith in
    (
      record longer { elements = sink index (length longer.elements - 1) longer.elements },
      ground (arith, e, n, append-effects arena available p real a v ok),
      rw (e, n, width) (sink-insert index a.elements v inside),
    )

read_from-cons : (r i x : ℕ) (xs : List ℕ) → read_from r (suc i) (x ∷ xs) ≡ read_from r i xs
unfolding read_from
read_from-cons zero i x xs = refl
read_from-cons (suc r) i x xs =
    let e : suc i + 1 ≡ suc (i + 1) = omega arith in
    rw e (ap (◌∷◌ (get_or xs i xt_null)) (read_from-cons r (i + 1) x xs))

read_from-drop : (i r : ℕ) (xs : List ℕ) → length xs ≡ i + r → read_from r i xs ≡ drop i xs
unfolding read_from
read_from-drop zero zero [] h = refl
read_from-drop zero (suc r) [] h = absurd (omega arith)
read_from-drop zero zero (x ∷ xs) h = absurd (omega arith)
read_from-drop zero (suc r) (x ∷ xs) h =
    let e : 0 + 1 ≡ suc 0 = omega arith in
    rw (e, read_from-cons r 0 x xs) (ap (◌∷◌ x) (read_from-drop zero r xs (omega arith)))
read_from-drop (suc i) zero [] h = refl
read_from-drop (suc i) (suc r) [] h = absurd (omega arith)
read_from-drop (suc i) r (x ∷ xs) h =
    rw (read_from-cons r i x xs) (read_from-drop i r xs (omega arith))

drop-all {ℓ} : {A : Type ℓ} (n : ℕ) (xs : List A) → length xs ≤ n → drop n xs ≡ []
drop-all zero [] h = refl
drop-all zero (x ∷ xs) h = absurd (omega arith)
drop-all (suc n) [] h = refl
drop-all (suc n) (x ∷ xs) h = drop-all n xs (omega arith)

-- The start of a slice: a negative one counts as 0.
abbrev pub slice_start : ℕ → ℕ
slice_start given = if is_negative given then 0 else given

-- `xt_array_slice` holds the elements from the start on, and none from a start past the end; a
-- negative start counts as 0.
pub slice-elements :
    (m : Memory) (arena : Bool) (available : ℕ → Bool) (target p : ℕ) (a : Array) (start_val : ℕ)
    → is_real_ptr target ≡ true
    → is_real_ptr p ≡ true
    → ((n : ℕ) → available n ≡ true)
    → (slice m arena available target p a start_val).0.elements
      ≡ drop (slice_start (value_to_int m start_val)) a.elements
unfolding slice new
slice-elements m arena available target p a start_val fresh real ok =
    let start = slice_start (value_to_int m start_val) in
    let n = length a.elements in
    let blank : Array = new arena (n - start) in
    elim (dec_lt start n) [
      | yes inside ↦ ground (
        arith,
        append_all-elements arena available target fresh blank
            (read_from (n - start) start a.elements) ok,
        read_from-drop start (n - start) a.elements,
      )
      | no past ↦ ground (arith, drop-all start a.elements)
    ]
