-- ===== src/Compare/Equality.antt =====
-- What `xt_eq` decides: two values are equal if they are one word, or texts with the same bytes up
-- to the first zero byte.
use atlanage.Prelude.{ℕ, ◌≡◌, ◌↔◌, refl, true, List, [], ◌∷◌, arith, ◌==◌, if◌then◌else◌}
use atlanage.Word.{Memory}
use atlanage.Compare.{strcmp, is_string, compare_values, is_eq, eq_values}

-- The bytes before the first zero.
abbrev pub c_string : List ℕ → List ℕ
c_string [] = []
c_string (b ∷ bs) = if b == 0 then [] else b ∷ c_string bs

pub data Key : Type 0 where
  word : ℕ → Key
  text : List ℕ → Key

-- What a value is as a key.
unfoldable pub key_of : Memory → ℕ → Key
key_of m v = if is_string m v then text (c_string (m.string_data v)) else word v

pub strcmp-eq : (s t : List ℕ) → (is_eq (strcmp s t) ≡ true) ↔ (c_string s ≡ c_string t)
unfolding strcmp
strcmp-eq [] [] = ground arith
strcmp-eq [] (y ∷ t) = ground arith
strcmp-eq (x ∷ s) [] = ground arith
strcmp-eq (x ∷ s) (y ∷ t) = ground (arith, strcmp-eq s t)

-- `xt_eq` holds of two values exactly if they are the same as keys: one word, or two texts with the
-- same bytes up to the first zero byte.
pub eq_values-key_of : (m : Memory) (a b : ℕ) → (eq_values m a b ≡ true) ↔ (key_of m a ≡ key_of m b)
unfolding eq_values compare_values key_of
eq_values-key_of m a b = ground (arith, strcmp-eq (m.string_data a) (m.string_data b))

pub eq_values_refl : (m : Memory) (a : ℕ) → eq_values m a a ≡ true
eq_values_refl m a = (eq_values-key_of m a a).1 refl

pub eq_values_symm : (m : Memory) (a b : ℕ) → eq_values m a b ≡ eq_values m b a
eq_values_symm m a b = ground (arith, eq_values-key_of m a b, eq_values-key_of m b a)

-- Equal values are equal to the same values.
pub eq_values_congr :
    (m : Memory) (a b c : ℕ) → eq_values m a b ≡ true → eq_values m a c ≡ eq_values m b c
eq_values_congr m a b c h =
    ground (arith, eq_values-key_of m a b, eq_values-key_of m a c, eq_values-key_of m b c)

pub eq_values_congr_right :
    (m : Memory) (a b c : ℕ) → eq_values m b c ≡ true → eq_values m a b ≡ eq_values m a c
eq_values_congr_right m a b c h =
    ground (arith, eq_values-key_of m b c, eq_values-key_of m a b, eq_values-key_of m a c)
