-- ===== src/Array/Refs.antt =====
-- The references that an array holds: one for each place in which a value stands.
use atlanage.Prelude.{
  ℕ, zero, suc, ◌+◌, ◌-◌, ◌≡◌, ◌<◌, ◌≤◌, refl, ap, Bool, true, false, List, [], ◌∷◌, ◌++◌, some,
  arith, length, get_or, set, take, drop, take-append-drop, Bool-cases, inl, inr, ◌==◌,
  if◌then◌else◌,
}
use atlanage.Word.{Memory, is_real_ptr, xt_null, value_to_int, is_negative}
use atlanage.Effect.{
  count, count-append, Balanced, one_if, retained-append, released-append, retain,
}
use atlanage.Array.{
  Array, append, append_all, new, remove_at, set_at, insert, slice, out_of_range, read_from,
}
use atlanage.Array.Laws.{remove_at-elements, insert-elements}

count-set :
    (v : ℕ) (xs : List ℕ) (i x : ℕ)
    → i < length xs
    → count v (set xs i x) + one_if (get_or xs i xt_null == v) ≡ count v xs + one_if (x == v)
count-set v [] i x h = absurd (omega arith)
count-set v (y ∷ xs) zero x h = omega arith
count-set v (y ∷ xs) (suc i) x h = omega (arith, count-set v xs i x (omega arith))

count-take-drop :
    (v : ℕ) (xs : List ℕ) (i : ℕ)
    → i < length xs
    → count v (take i xs ++ drop (i + 1) xs) + one_if (get_or xs i xt_null == v) ≡ count v xs
count-take-drop v [] i h = absurd (omega arith)
count-take-drop v (y ∷ xs) zero h = omega arith
count-take-drop v (y ∷ xs) (suc i) h =
    let e : suc i + 1 ≡ suc (i + 1) = omega arith in
    rw e (omega (arith, count-take-drop v xs i (omega arith)))

-- `xt_array_append` retains exactly the element that it stores.
pub append-Balanced :
    (arena : Bool) (available : ℕ → Bool) (p : ℕ) (a : Array) (x : ℕ)
    → let (b, es) = append arena available p a x in Balanced a.elements es b.elements
unfolding append
append-Balanced arena available p a x v = ground (arith, count-append v a.elements (x ∷ []))

-- `xt_array_set` releases the element that it replaces and retains the new one.
pub set_at-Balanced :
    (m : Memory) (p : ℕ) (a : Array) (index_val x : ℕ)
    → let (b, es) = set_at m p a index_val x in Balanced a.elements es b.elements
unfolding set_at
set_at-Balanced m p a index_val x v =
    ground (arith, count-set v a.elements (value_to_int m index_val) x)

-- `xt_array_remove` releases exactly the element that it takes out.
pub remove_at-Balanced :
    (m : Memory) (p : ℕ) (a : Array) (index_val : ℕ)
    → let (b, es) = remove_at m p a index_val in Balanced a.elements es b.elements
remove_at-Balanced m p a index_val v =
    let index = value_to_int m index_val in
    elim (Bool-cases (is_real_ptr p)) [
      | inr unreal ↦ unfold remove_at in ground arith
      | inl real ↦ elim (Bool-cases (out_of_range index (length a.elements))) [
        | inl out ↦ unfold remove_at in ground arith
        | inr inside ↦
            rw (remove_at-elements m p a index_val real inside)
              (unfold remove_at in ground (arith, count-take-drop v a.elements index))
      ]
    ]

-- `xt_array_insert` retains exactly the value that it puts in.
pub insert-Balanced :
    (m : Memory) (arena : Bool) (available : ℕ → Bool) (p : ℕ) (a : Array) (index_val x : ℕ)
    → is_real_ptr p ≡ true
    → ((n : ℕ) → available n ≡ true)
    → is_negative (value_to_int m index_val) ≡ false
    → value_to_int m index_val ≤ length a.elements
    → (b : Array) × (insert m arena available p a index_val x ≡ some (b, retain x ∷ []))
      × Balanced a.elements (retain x ∷ []) b.elements
insert-Balanced m arena available p a index_val x real ok sign inside =
    let index = value_to_int m index_val in
    let (b, returns, e) = insert-elements m arena available p a index_val x real ok sign inside in
    (
      b,
      returns,
      λ v. rw e (
          omega (
            arith,
            count-append v (take index a.elements) (x ∷ drop index a.elements),
            count-append v (take index a.elements) (drop index a.elements),
            ap (count v) (take-append-drop index a.elements),
          )),
    )

-- What an array built by appends holds, it has retained.
append_all-Balanced :
    (arena : Bool) (available : ℕ → Bool) (p : ℕ) (a : Array) (xs : List ℕ)
    → let (b, es) = append_all arena available p a xs in Balanced a.elements es b.elements
unfolding append_all
append_all-Balanced arena available p a [] v = refl
append_all-Balanced arena available p a (x ∷ xs) v =
    let (b, es) = append arena available p a x in
    let fs = (append_all arena available p b xs).1 in
    omega (
      arith,
      append-Balanced arena available p a x v,
      append_all-Balanced arena available p b xs v,
      retained-append v es fs,
      released-append v es fs,
    )

-- `xt_array_slice` retains each element once for each place that it has in the new array, also
-- where an allocation fails.
pub slice-Balanced :
    (m : Memory) (arena : Bool) (available : ℕ → Bool) (target p : ℕ) (a : Array) (start_val : ℕ)
    → let (b, es) = slice m arena available target p a start_val in Balanced [] es b.elements
unfolding slice new
slice-Balanced m arena available target p a start_val v =
    let given = value_to_int m start_val in
    let start = if is_negative given then 0 else given in
    let n = length a.elements in
    ground (
      arith,
      append_all-Balanced arena available target (new arena (n - start))
          (read_from (n - start) start a.elements) v,
    )
