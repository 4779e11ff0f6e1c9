-- ===== src/Word/Exact.antt =====
-- Which integers fit into a tagged word.
use atlanage.Prelude.{ℕ, ◌-◌, ◌^◌, ◌<◌, ◌≡◌, ◌↔◌, true, arith}
use atlanage.Prelude.Int.{pos, negsuc, ◌≤ℤ◌}
use atlanage.Word.{is_int, from_int, to_int, signed}

-- `XT_TO_INT` gives back an `int64_t` that `XT_FROM_INT` has tagged exactly if its signed value lies
-- in the range of 63 bits.
pub from_int-exact :
    (w : ℕ)
    → w < 2 ^ 64
    → (to_int (from_int w) ≡ w)
      ↔ ((negsuc (2 ^ 62 - 1) ≤ℤ signed w) × (signed w ≤ℤ pos (2 ^ 62 - 1)))
unfolding from_int to_int
from_int-exact w h = (λ e. ground arith, λ b. ground arith)

pub from_int-to_int : (v : ℕ) → v < 2 ^ 64 → is_int v ≡ true → from_int (to_int v) ≡ v
unfolding from_int to_int
from_int-to_int v h t = ground arith
