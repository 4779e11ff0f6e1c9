-- ===== src/Extremes.antt =====
-- runtime/xt_runtime.c, `xt_math_max` and `xt_math_min`. The floating-point numbers, `xt_to_double`
-- and the order on them are arguments. The one reference that is taken is to the result.
mod Best
mod Tests
use atlanage.Prelude.{ℕ, Bool, List, [], ◌∷◌, if◌then◌else◌}
use atlanage.Word.{from_int}

module _ {D : Type 0} (to_double : ℕ → D) where
  -- The loop, with the best value so far; `better` compares a later value with it.
  unfoldable pub best_loop : (D → D → Bool) → ℕ → List ℕ → ℕ
  best_loop better best [] = best
  best_loop better best (cur ∷ elements) =
      let kept = best_loop better best elements in
      let changed = best_loop better cur elements in
      if better (to_double cur) (to_double best) then changed else kept

  -- `xt_math_max` and `xt_math_min` of the elements of an array; `greater` and `less` are `>` and `<`.
  unfoldable pub max_value : (D → D → Bool) → List ℕ → ℕ
  unfolding best_loop
  max_value greater [] = from_int 0
  max_value greater (first ∷ elements) = best_loop greater first elements

  unfoldable pub min_value : (D → D → Bool) → List ℕ → ℕ
  unfolding best_loop
  min_value less [] = from_int 0
  min_value less (first ∷ elements) = best_loop less first elements
