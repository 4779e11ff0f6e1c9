-- ===== src/Extremes/Tests.antt =====
-- The words of an array are taken for the numbers themselves.
use atlanage.Prelude.{ℕ, ◌≡◌, refl, [], ◌∷◌, ltb, arith}
use atlanage.Extremes.{max_value, min_value}
use atlanage.Extremes.Best.{IsOrder, IsChosen, max_value-IsChosen}

greater-IsOrder : IsOrder ℕ (λ a b. ltb b a)
greater-IsOrder = record {
  irreflexive = λ a. ground arith;
  asymmetric = λ a b h. ground (arith, h);
  transitive = λ a b c h k. ground (arith, h, k);
}

max_value-IsChosen_example :
    IsChosen ℕ
      (λ v. v)
      (λ a b. ltb b a)
      (max_value (λ v. v) (λ a b. ltb b a) (3 ∷ 9 ∷ 5 ∷ []))
      (3 ∷ 9 ∷ 5 ∷ [])
max_value-IsChosen_example =
    max_value-IsChosen (λ v. v) (λ a b. ltb b a) 3 (9 ∷ 5 ∷ []) greater-IsOrder

smallest : min_value (λ v. v) ltb (3 ∷ 9 ∷ 2 ∷ []) ≡ 2
unfolding min_value
smallest = refl
