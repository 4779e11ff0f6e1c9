-- ===== src/Word/Arithmetic.antt =====
-- The arithmetic of tagged integers against the integers that they stand for.
use atlanage.Prelude.{ℕ, ◌+◌, ◌-◌, ◌^◌, ◌<◌, ◌≡◌, ◌≢◌, ◌↔◌, true, arith}
use atlanage.Prelude.Int.{ℤ, pos, negsuc, ◌≤ℤ◌, ◌+ℤ◌, ◌-ℤ◌}
use atlanage.Word.{is_int, from_int, to_int, signed, Memory, add, sub, abs_int}

-- The integers that a tagged word holds.
abbrev pub Fits : ℤ → Type 0
Fits z = (negsuc (2 ^ 62 - 1) ≤ℤ z) × (z ≤ℤ pos (2 ^ 62 - 1))

module _ (m : Memory) (a b : ℕ) (ha : a < 2 ^ 64) (hb : b < 2 ^ 64) (ta : is_int a ≡ true)
    (tb : is_int b ≡ true) where
  -- `xt_add` of two tagged integers is their sum, if the sum lies in the range of 63 bits.
  pub add-exact :
      Fits (signed (to_int a) +ℤ signed (to_int b))
      → signed (to_int (add m a b)) ≡ signed (to_int a) +ℤ signed (to_int b)
  unfolding add from_int to_int ◌+ℤ◌
  add-exact f = ground arith

  -- `xt_sub` of two tagged integers is their difference, if it lies in the range of 63 bits.
  pub sub-exact :
      Fits (signed (to_int a) -ℤ signed (to_int b))
      → signed (to_int (sub m a b)) ≡ signed (to_int a) -ℤ signed (to_int b)
  unfolding sub from_int to_int ◌-ℤ◌
  sub-exact f = ground arith

-- `xt_math_abs` of a tagged integer is not negative, but for the smallest one that a tagged word
-- holds.
pub abs_int_range :
    (v : ℕ)
    → v < 2 ^ 64
    → is_int v ≡ true
    → (pos 0 ≤ℤ signed (to_int (abs_int (to_int v)))) ↔ (v ≢ 2 ^ 63 + 1)
unfolding abs_int from_int to_int
abs_int_range v h t = (λ p. ground arith, λ p. ground arith)
