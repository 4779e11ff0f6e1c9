-- ===== src/Extremes/Best.antt =====
-- The largest and the smallest element.
use atlanage.Prelude.{ℕ, ◌≡◌, refl, Bool, true, false, List, [], ◌∷◌, Bool-cases, inl, inr}
use atlanage.Extremes.{best_loop, max_value, min_value}

-- An order as that of the floating-point numbers without NaN.
pub record IsOrder (D : Type 0) (better : D → D → Bool) : Type 0 where
  pub irreflexive : (a : D) → better a a ≡ false
  pub asymmetric : (a b : D) → better a b ≡ true → better b a ≡ false
  pub transitive : (a b c : D) → better a b ≡ false → better b c ≡ false → better a c ≡ false

-- A value stands in a list.
pub data Stands (v : ℕ) : List ℕ → Type 0 where
  here : {elements : List ℕ} → Stands v (v ∷ elements)
  there : {u : ℕ} {elements : List ℕ} → Stands v elements → Stands v (u ∷ elements)

-- No value of a list is better than this one.
abbrev pub IsBest : {D : Type 0} → (ℕ → D) → (D → D → Bool) → ℕ → List ℕ → Type 0
IsBest to_double better best [] = Unit
IsBest to_double better best (v ∷ elements) =
    (better (to_double v) (to_double best) ≡ false) × IsBest to_double better best elements

skip_second :
    {r best cur : ℕ} {elements : List ℕ}
    → Stands r (best ∷ elements)
    → Stands r (best ∷ cur ∷ elements)
skip_second here = here
skip_second (there s) = there (there s)

-- It stands in the list, and no value there is better.
pub record IsChosen (D : Type 0) (to_double : ℕ → D) (better : D → D → Bool) (r : ℕ)
    (elements : List ℕ) : Type 0 where
  pub stands : Stands r elements
  pub best : IsBest to_double better r elements

module _ {D : Type 0} (to_double : ℕ → D) (better : D → D → Bool) (order : IsOrder D better) where
  changed :
      (best cur : ℕ) (elements : List ℕ)
      → better (to_double cur) (to_double best) ≡ true
      → best_loop to_double better best (cur ∷ elements) ≡ best_loop to_double better cur elements
  unfolding best_loop
  changed best cur elements y = rw y refl

  kept :
      (best cur : ℕ) (elements : List ℕ)
      → better (to_double cur) (to_double best) ≡ false
      → best_loop to_double better best (cur ∷ elements) ≡ best_loop to_double better best elements
  unfolding best_loop
  kept best cur elements n = rw n refl

  best_loop_nil : (best : ℕ) → best_loop to_double better best [] ≡ best
  unfolding best_loop
  best_loop_nil best = refl

  best_loop-IsChosen :
      (best : ℕ) (elements : List ℕ)
      → IsChosen D to_double better (best_loop to_double better best elements) (best ∷ elements)
  best_loop-IsChosen best [] =
      rw (best_loop_nil best)
        (record { stands = here; best = (order.irreflexive (to_double best), tt) })
  best_loop-IsChosen best (cur ∷ elements) =
      elim (Bool-cases (better (to_double cur) (to_double best))) [
        | inl y ↦
            let h = best_loop-IsChosen cur elements in
            let r = best_loop to_double better cur elements in
            let (top, rest) = h.best in
            let first : better (to_double best) (to_double r) ≡ false =
              order.transitive (to_double best) (to_double cur) (to_double r)
                (order.asymmetric (to_double cur) (to_double best) y) top in
            rw (changed best cur elements y)
              (record { stands = there h.stands; best = (first, (top, rest)) })
        | inr n ↦
            let h = best_loop-IsChosen best elements in
            let r = best_loop to_double better best elements in
            let (top, rest) = h.best in
            let second : better (to_double cur) (to_double r) ≡ false =
              order.transitive (to_double cur) (to_double best) (to_double r) n top in
            rw (kept best cur elements n)
              (record { stands = skip_second h.stands; best = (top, (second, rest)) })
      ]

-- `xt_math_max` of an array that is not empty returns an element of it than which none is greater,
-- if `>` orders the numbers as it does where none of them is NaN.
pub max_value-IsChosen :
    {D : Type 0} (to_double : ℕ → D) (greater : D → D → Bool) (first : ℕ) (elements : List ℕ)
    → IsOrder D greater
    → IsChosen D to_double greater
        (max_value to_double greater (first ∷ elements))
        (first ∷ elements)
unfolding max_value
max_value-IsChosen to_double greater first elements order =
    best_loop-IsChosen to_double greater order first elements

-- `xt_math_min` of an array that is not empty returns an element of it than which none is smaller,
-- if `<` orders the numbers as it does where none of them is NaN.
pub min_value-IsChosen :
    {D : Type 0} (to_double : ℕ → D) (less : D → D → Bool) (first : ℕ) (elements : List ℕ)
    → IsOrder D less
    → IsChosen D to_double less (min_value to_double less (first ∷ elements)) (first ∷ elements)
unfolding min_value
min_value-IsChosen to_double less first elements order =
    best_loop-IsChosen to_double less order first elements
