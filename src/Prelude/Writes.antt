-- ===== src/Prelude/Writes.antt =====
-- Reads after a write in a list.
use Prim.Native.Nat.{ℕ, zero, suc, ◌<◌}
use mathlib.Core.Path.{◌≡◌, refl}
use mathlib.Core.Bool.{◌&&◌}
use mathlib.Core.List.{List, [], ◌∷◌}
use native.Mathlib.Omega.{arith}
use atlanage.Prelude.Tests.{ltb, ◌==◌, if◌then◌else◌}
use atlanage.Prelude.Lists.{length, get_or, set, replicate}

module _ {ℓ} {A : Type ℓ} where
  pub get_or-set_any :
      (xs : List A) (i j : ℕ) (v d : A)
      → get_or (set xs i v) j d ≡ (if (i == j) && ltb i (length xs) then v else get_or xs j d)
  get_or-set_any [] i j v d = ground arith
  get_or-set_any (x ∷ xs) zero zero v d = ground arith
  get_or-set_any (x ∷ xs) (suc i) (suc j) v d = ground (arith, get_or-set_any xs i j v d)
  get_or-set_any (x ∷ xs) zero (suc j) v d = ground arith
  get_or-set_any (x ∷ xs) (suc i) zero v d = ground arith

  pub get_or-set :
      (xs : List A) (i j : ℕ) (v d : A)
      → i < length xs
      → get_or (set xs i v) j d ≡ (if i == j then v else get_or xs j d)
  get_or-set xs i j v d h = ground (arith, get_or-set_any xs i j v d)

  pub get_or-replicate : (n i : ℕ) (a : A) → get_or (replicate n a) i a ≡ a
  get_or-replicate zero i a = refl
  get_or-replicate (suc n) zero a = refl
  get_or-replicate (suc n) (suc i) a = get_or-replicate n i a
