-- ===== src/Effect.antt =====
-- The calls by which the containers of runtime/xt_runtime.c reach other components: `xt_retain`,
-- `xt_release` and `xt_scheduler_wake_task`, in the order in which they are made.
use atlanage.Prelude.{ℕ, ◌+◌, ◌≡◌, Bool, true, false, List, [], ◌∷◌, ◌++◌, arith, ◌==◌}

pub data Effect : Type 0 where
  retain : ℕ → Effect
  release : ℕ → Effect
  wake : ℕ → Effect

abbrev pub one_if : Bool → ℕ
one_if true = 1
one_if false = 0

-- How often a value stands in a list.
abbrev pub count : ℕ → List ℕ → ℕ
count v [] = 0
count v (x ∷ xs) = one_if (x == v) + count v xs

pub count-append : (v : ℕ) (xs ys : List ℕ) → count v (xs ++ ys) ≡ count v xs + count v ys
count-append v [] ys = omega arith
count-append v (x ∷ xs) ys = omega (arith, count-append v xs ys)

-- How many references to a value the calls take, and how many they give up.
abbrev pub retained : ℕ → List Effect → ℕ
retained v [] = 0
retained v (retain x ∷ es) = one_if (x == v) + retained v es
retained v (release x ∷ es) = retained v es
retained v (wake x ∷ es) = retained v es

abbrev pub released : ℕ → List Effect → ℕ
released v [] = 0
released v (retain x ∷ es) = released v es
released v (release x ∷ es) = one_if (x == v) + released v es
released v (wake x ∷ es) = released v es

-- A container that held the references `before` and holds `after` has made the calls `es` for
-- exactly the difference.
abbrev pub Balanced : List ℕ → List Effect → List ℕ → Type 0
Balanced before es after = (v : ℕ) → count v before + retained v es ≡ count v after + released v es

pub retained-append :
    (v : ℕ) (xs ys : List Effect) → retained v (xs ++ ys) ≡ retained v xs + retained v ys
retained-append v [] ys = omega arith
retained-append v (retain x ∷ xs) ys = omega (arith, retained-append v xs ys)
retained-append v (release x ∷ xs) ys = omega (arith, retained-append v xs ys)
retained-append v (wake x ∷ xs) ys = omega (arith, retained-append v xs ys)

pub released-append :
    (v : ℕ) (xs ys : List Effect) → released v (xs ++ ys) ≡ released v xs + released v ys
released-append v [] ys = omega arith
released-append v (retain x ∷ xs) ys = omega (arith, released-append v xs ys)
released-append v (release x ∷ xs) ys = omega (arith, released-append v xs ys)
released-append v (wake x ∷ xs) ys = omega (arith, released-append v xs ys)
