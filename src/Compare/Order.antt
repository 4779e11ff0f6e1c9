-- ===== src/Compare/Order.antt =====
-- The order of `xt_compare`.
use Prim.Native.Nat.{Ordering}
use atlanage.Prelude.{ℕ, ◌<◌, ◌^◌, ◌≡◌, ◌↔◌, true, arith}
use atlanage.Prelude.Int.{ltb_ℤ}
use atlanage.Word.{is_int, is_real_ptr, to_int, Memory, signed}
use atlanage.Compare.{compare_values}

-- Two tagged integers are compared by the signed numbers that they hold.
pub compare-signed :
    (m : Memory) (a b : ℕ)
    → a < 2 ^ 64
    → b < 2 ^ 64
    → is_int a ≡ true
    → is_int b ≡ true
    → (compare_values m a b ≡ Ordering.lt) ↔ (ltb_ℤ (signed (to_int a)) (signed (to_int b)) ≡ true)
unfolding compare_values to_int
compare-signed m a b ha hb ta tb = ground arith

-- `xt_compare` has no consistent order on values of different kinds: a negative integer is before a
-- non-negative one, that is before any real pointer with a larger word, and the pointer is before
-- the negative integer.
pub compare_cycle :
    (m : Memory) (a b p : ℕ)
    → is_int a ≡ true
    → is_int b ≡ true
    → is_real_ptr p ≡ true
    → 2 ^ 63 < a
    → a < 2 ^ 64
    → p < 2 ^ 63
    → b < p
    → (compare_values m a b ≡ Ordering.lt)
      × (compare_values m b p ≡ Ordering.lt)
      × (compare_values m p a ≡ Ordering.lt)
unfolding compare_values to_int
compare_cycle m a b p ta tb tp h1 h2 h3 h4 = (ground arith, ground arith, ground arith)
