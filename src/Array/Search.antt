-- ===== src/Array/Search.antt =====
-- `xt_array_find` and `xt_array_contains` against the first place of an equal element.
use atlanage.Prelude.{
  ℕ, zero, suc, ◌+◌, ◌-◌, ◌^◌, ◌≡◌, ◌<◌, ◌⊎◌, inl, inr, refl, true, false, List, [], ◌∷◌, none,
  some, arith, length, get_or, Bool-cases,
}
use atlanage.Word.{Memory, is_real_ptr, from_int, xt_null, xt_true, xt_false}
use atlanage.Compare.{eq_values}
use atlanage.Array.{Array, find_from, find, contains}

-- No element of the list is equal to `x` in the sense of `xt_eq`.
abbrev pub IsAbsent : Memory → ℕ → List ℕ → Type 0
IsAbsent m x xs = (l : ℕ) → l < length xs → eq_values m (get_or xs l xt_null) x ≡ false

-- `k` is the place of the first element that is equal to `x`.
pub record IsFirst (m : Memory) (x : ℕ) (xs : List ℕ) (k : ℕ) : Type 0 where
  pub inside : k < length xs
  pub equal : eq_values m (get_or xs k xt_null) x ≡ true
  pub earlier : (l : ℕ) → l < k → eq_values m (get_or xs l xt_null) x ≡ false

module _ (m : Memory) (x : ℕ) where
  IsAbsent-cons :
      (y : ℕ) (xs : List ℕ) → eq_values m y x ≡ false → IsAbsent m x xs → IsAbsent m x (y ∷ xs)
  IsAbsent-cons y xs h rest zero p = h
  IsAbsent-cons y xs h rest (suc l) p = rest l (omega arith)

  IsFirst-cons :
      (y : ℕ) (xs : List ℕ) (k : ℕ)
      → eq_values m y x ≡ false
      → IsFirst m x xs k
      → IsFirst m x (y ∷ xs) (suc k)
  IsFirst-cons y xs k h f = record {
    inside = omega (arith, f.inside);
    equal = f.equal;
    earlier = go;
  }
    where
      go : (l : ℕ) → l < suc k → eq_values m (get_or (y ∷ xs) l xt_null) x ≡ false
      go zero p = h
      go (suc l) p = f.earlier l (omega arith)

  find_from_lem :
      (xs : List ℕ) (i : ℕ)
      → ((k : ℕ) × IsFirst m x xs k × (find_from m x xs i ≡ some (i + k)))
        ⊎ (IsAbsent m x xs × (find_from m x xs i ≡ none))
  unfolding find_from
  find_from_lem [] i = inr (λ l h. absurd (omega arith), refl)
  find_from_lem (y ∷ xs) i = elim (Bool-cases (eq_values m y x)) [
    | inl same ↦ inl (
      0,
      record { inside = omega arith; equal = same; earlier = λ l h. absurd (omega arith) },
      unfold eq_values in ground arith,
    )
    | inr other ↦ elim (find_from_lem xs (i + 1)) [
      | inl (k, first, e) ↦
          inl (suc k, IsFirst-cons y xs k other first, unfold eq_values in ground arith)
      | inr (absent, e) ↦ inr (IsAbsent-cons y xs other absent, unfold eq_values in ground arith)
    ]
  ]

-- `xt_array_find` returns the place of the first element that is equal to the value, and
-- `xt_array_contains` true; if there is none, they return -1 and false.
pub find-IsFirst :
    (m : Memory) (p : ℕ) (a : Array) (x : ℕ)
    → is_real_ptr p ≡ true
    → ((k : ℕ) × IsFirst m x a.elements k
        × (find m p a x ≡ from_int k)
        × (contains m p a x ≡ xt_true))
      ⊎ (IsAbsent m x a.elements
          × (find m p a x ≡ from_int (2 ^ 64 - 1))
          × (contains m p a x ≡ xt_false))
unfolding find contains
find-IsFirst m p a x real = elim (find_from_lem m x a.elements 0) [
  | inl (k, first, e) ↦ inl (k, first, rw (real, e) (ground arith), rw (real, e))
  | inr (absent, e) ↦ inr (absent, rw (real, e), rw (real, e))
]
