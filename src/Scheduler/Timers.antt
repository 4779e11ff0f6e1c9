-- ===== src/Scheduler/Timers.antt =====
-- The order of the timers, and how often a fiber stands among them.
use atlanage.Prelude.{
  ℕ, zero, suc, ◌+◌, ◌-◌, ◌/◌, ◌≡◌, ◌≤◌, ◌<◌, refl, List, [], ◌∷◌, ◌++◌, arith, ◌==◌, if◌then◌else◌,
  length, length-set, get_or, get_or-set, set, take, ℕ_discrete, sym,
}
use atlanage.Scheduler.{Scheduler, wakeup, swap}

abbrev pub parent : ℕ → ℕ
parent c = (c - 1) / 2

-- Every timer is at least as late as its parent.
abbrev pub IsHeap : Scheduler → List ℕ → Type 0
IsHeap s a = (c : ℕ) → 0 < c → c < length a → wakeup s a (parent c) ≤ wakeup s a c

-- The edges past `k`, from its parent to its children, are in order.
abbrev pub IsBridged : Scheduler → List ℕ → ℕ → Type 0
IsBridged s a k =
    (c : ℕ) → 0 < c → c < length a → parent c ≡ k → 0 < k → wakeup s a (parent k) ≤ wakeup s a c

unfoldable pub occurs : ℕ → List ℕ → ℕ
occurs x [] = 0
occurs x (y ∷ ys) = (if x == y then 1 else 0) + occurs x ys

abbrev pub one_if : ℕ → ℕ → ℕ
one_if x y = if x == y then 1 else 0

pub occurs-set :
    (x : ℕ) (a : List ℕ) (i v : ℕ)
    → i < length a
    → occurs x (set a i v) + one_if x (get_or a i 0) ≡ occurs x a + one_if x v
unfolding occurs
occurs-set x [] i v h = absurd (omega arith)
occurs-set x (y ∷ a) zero v h = omega arith
occurs-set x (y ∷ a) (suc i) v h = omega (arith, occurs-set x a i v (omega arith))

pub occurs-append : (x : ℕ) (a b : List ℕ) → occurs x (a ++ b) ≡ occurs x a + occurs x b
unfolding occurs
occurs-append x [] b = omega arith
occurs-append x (y ∷ a) b = omega (arith, occurs-append x a b)

-- The last entry is dropped.
pub occurs-take :
    (x : ℕ) (n : ℕ) (a : List ℕ)
    → length a ≡ suc n
    → occurs x (take n a) + one_if x (get_or a n 0) ≡ occurs x a
unfolding occurs
occurs-take x zero [] h = absurd (omega arith)
occurs-take x zero (y ∷ []) h = omega arith
occurs-take x zero (y ∷ (z ∷ a)) h = absurd (omega arith)
occurs-take x (suc n) [] h = absurd (omega arith)
occurs-take x (suc n) (y ∷ a) h = omega (arith, occurs-take x n a (omega arith))

pub get-take : (a : List ℕ) (n k : ℕ) → k < n → get_or (take n a) k 0 ≡ get_or a k 0
get-take a zero k h = absurd (omega arith)
get-take [] (suc n) k h = refl
get-take (x ∷ a) (suc n) zero h = refl
get-take (x ∷ a) (suc n) (suc k) h = get-take a n k (omega arith)

pub get-swap :
    (a : List ℕ) (i j k : ℕ)
    → i < length a
    → j < length a
    → get_or (swap a i j) k 0
      ≡ (if j == k then get_or a i 0 else if i == k then get_or a j 0 else get_or a k 0)
get-swap a i j k hi hj =
    let b = set a i (get_or a j 0) in
    ground (
      arith,
      length-set a i (get_or a j 0),
      get_or-set b j k (get_or a i 0) 0,
      get_or-set a i k (get_or a j 0) 0,
    )

pub length-swap : (a : List ℕ) (i j : ℕ) → length (swap a i j) ≡ length a
length-swap a i j =
    rw (length-set (set a i (get_or a j 0)) j (get_or a i 0)) (length-set a i (get_or a j 0))

pub occurs-swap :
    (x : ℕ) (a : List ℕ) (i j : ℕ)
    → i < length a
    → j < length a
    → occurs x (swap a i j) ≡ occurs x a
occurs-swap x a i j hi hj =
    let b = set a i (get_or a j 0) in
    let e = get_or-set a i j (get_or a j 0) 0 hi in
    let f : get_or b j 0 ≡ get_or a j 0 = ground (arith, e) in
    omega (
      arith,
      occurs-set x a i (get_or a j 0) hi,
      rw f at (occurs-set x b j (get_or a i 0) (omega (arith, length-set a i (get_or a j 0)))),
    )

root_least_below :
    (s : Scheduler) (fuel : ℕ) (a : List ℕ) (k : ℕ)
    → IsHeap s a
    → k < fuel
    → k < length a
    → wakeup s a 0 ≤ wakeup s a k
root_least_below s zero a k h f p = absurd (omega arith)
root_least_below s (suc fuel) a k h f p =
    ground (arith, h k, root_least_below s fuel a (parent k) h)

-- The first timer is the earliest.
pub root_least :
    (s : Scheduler) (a : List ℕ) (k : ℕ) → IsHeap s a → k < length a → wakeup s a 0 ≤ wakeup s a k
root_least s a k h p = root_least_below s (suc k) a k h (omega arith) p

-- A fiber that stands among the timers has a place there.
pub place : (x : ℕ) (a : List ℕ) → 0 < occurs x a → (k : ℕ) × (k < length a) × (get_or a k 0 ≡ x)
unfolding occurs
place x [] h = absurd (omega arith)
place x (y ∷ a) h = elim (ℕ_discrete x y) [
  | yes e ↦ (0, omega arith, sym e)
  | no e ↦ let (k, p, g) = place x a (ground (arith, e, h)) in (suc k, omega arith, g)
]

pub get-occurs : (a : List ℕ) (k : ℕ) → k < length a → 0 < occurs (get_or a k 0) a
unfolding occurs
get-occurs [] k h = absurd (omega arith)
get-occurs (y ∷ a) zero h = ground arith
get-occurs (y ∷ a) (suc k) h = omega (arith, get-occurs a k (omega arith))
