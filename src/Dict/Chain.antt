-- ===== src/Dict/Chain.antt =====
-- Chains.
use atlanage.Prelude.{
  ℕ, ◌+◌, ◌≡◌, refl, true, [], ◌∷◌, none, some, arith, if◌then◌else◌, length, ◌≤◌,
}
use atlanage.Word.{Memory}
use atlanage.Compare.{eq_values}
use atlanage.Compare.Equality.{eq_values_congr, eq_values_congr_right}
use atlanage.Effect.{one_if}
use mathlib.Core.Option
use atlanage.Dict.{Entry, Chain, find, assign, find_entry, unlink}

module _ (m : Memory) (k : ℕ) where
  -- An assignment at a key that is there shows at the equal keys, and at no other.
  pub find-assign :
      (q v : ℕ) (c : Chain) (old : ℕ)
      → find m k c ≡ some old
      → find m q (assign m k v c) ≡ (if eq_values m k q then some v else find m q c)
  unfolding find assign
  find-assign q v [] old h = ground arith
  find-assign q v (e ∷ c) old h =
      ground (
        arith,
        find-assign q v c old,
        eq_values_congr m e.key k q,
        eq_values_congr_right m e.key k q,
      )

  pub length-assign : (v : ℕ) (c : Chain) → length (assign m k v c) ≡ length c
  unfolding assign
  length-assign v [] = refl
  length-assign v (e ∷ c) = ground (arith, length-assign v c)

  pub find_entry-find :
      (c : Chain) → find m k c ≡ Option.map (λ (e : Entry). e.value) (find_entry m k c)
  unfolding find find_entry
  find_entry-find [] = refl
  find_entry-find (e ∷ c) = ground (arith, find_entry-find c)

  pub length-unlink :
      (c : Chain) (e : Entry) → find_entry m k c ≡ some e → length (unlink m k c) + 1 ≡ length c
  unfolding unlink find_entry
  length-unlink [] e h = cc
  length-unlink (d ∷ c) e h = ground (arith, length-unlink c e)

  -- How many entries of a chain have the key.
  unfoldable pub occurs : Chain → ℕ
  occurs [] = 0
  occurs (e ∷ c) = one_if (eq_values m e.key k) + occurs c

module _ (m : Memory) (k q : ℕ) where
  pub find-none : (c : Chain) → occurs m q c ≡ 0 → find m q c ≡ none
  unfolding find occurs
  find-none [] h = refl
  find-none (e ∷ c) h = ground (arith, find-none c)

  -- A key equal to one that is not found does not occur.
  pub occurs-none : (c : Chain) → find m k c ≡ none → eq_values m k q ≡ true → occurs m q c ≡ 0
  unfolding find occurs
  occurs-none [] h same = refl
  occurs-none (e ∷ c) h same = ground (arith, occurs-none c, eq_values_congr_right m e.key k q)

  pub find-eq : (c : Chain) → eq_values m k q ≡ true → find m q c ≡ find m k c
  unfolding find
  find-eq [] same = refl
  find-eq (e ∷ c) same = ground (arith, find-eq c, eq_values_congr_right m e.key k q)

  pub occurs-assign : (v : ℕ) (c : Chain) → occurs m q (assign m k v c) ≡ occurs m q c
  unfolding assign occurs
  occurs-assign v [] = refl
  occurs-assign v (e ∷ c) = ground (arith, occurs-assign v c)

  pub occurs-unlink : (c : Chain) → occurs m q (unlink m k c) ≤ occurs m q c
  unfolding unlink occurs
  occurs-unlink [] = omega arith
  occurs-unlink (e ∷ c) = ground (arith, occurs-unlink c)

  -- Where no key stands twice, unlinking a key leaves none of it, and every other key.
  pub find-unlink :
      (c : Chain)
      → occurs m q c ≤ 1
      → find m q (unlink m k c) ≡ (if eq_values m k q then none else find m q c)
  unfolding find unlink occurs
  find-unlink [] h = ground arith
  find-unlink (e ∷ c) h = ground (
    arith,
    find-unlink c,
    find-none c,
    eq_values_congr m e.key k q,
    eq_values_congr_right m e.key k q,
  )
