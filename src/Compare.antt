-- ===== src/Compare.antt =====
-- runtime/xt_runtime.c, `xt_compare`, `xt_eq` and `xt_hash_value`: the order and the equality of
-- values, which arrays search by and dictionaries key by, and the hash.
pub mod Equality
pub mod Order
pub mod Hash
mod Tests
use Prim.Native.Nat.{compare, Ordering}
use atlanage.Prelude.{
  ℕ, ◌+◌, ◌*◌, ◌%◌, ◌^◌, Bool, true, false, ◌&&◌, not, List, [], ◌∷◌, ltb, ◌==◌, if◌then◌else◌,
}
use atlanage.Word.{is_int, is_real_ptr, to_int, xt_null, xt_false, xt_true, Memory, type_string}

-- The C library's `strcmp`, on texts that a zero byte ends if their list does not hold one.
unfoldable pub strcmp : List ℕ → List ℕ → Ordering
strcmp [] [] = Ordering.eq
strcmp [] (y ∷ ys) = if y == 0 then Ordering.eq else Ordering.lt
strcmp (x ∷ xs) [] = if x == 0 then Ordering.eq else Ordering.gt
strcmp (x ∷ xs) (y ∷ ys) =
    let rest = strcmp xs ys in
    if x == y then (if x == 0 then Ordering.eq else rest) else compare x y

-- `<` on `int64_t` patterns.
abbrev pub lt_int : ℕ → ℕ → Bool
lt_int a b = ltb ((a + 2 ^ 63) % 2 ^ 64) ((b + 2 ^ 63) % 2 ^ 64)

abbrev pub is_string : Memory → ℕ → Bool
is_string m v = is_real_ptr v && (m.type_id v == type_string)

-- `xt_compare`; the sign of its result.
unfoldable pub compare_values : Memory → ℕ → ℕ → Ordering
compare_values m a b =
    if a == b
    then Ordering.eq
    else if is_int a && is_int b
    then (if lt_int (to_int a) (to_int b) then Ordering.lt else Ordering.gt)
    else if is_string m a && is_string m b
    then strcmp (m.string_data a) (m.string_data b)
    else (if ltb a b then Ordering.lt else Ordering.gt)

abbrev pub is_eq : Ordering → Bool
is_eq Ordering.eq = true
is_eq Ordering.lt = false
is_eq Ordering.gt = false

-- `xt_eq`
unfoldable pub eq_values : Memory → ℕ → ℕ → Bool
eq_values m a b = is_eq (compare_values m a b)

-- The loop over the bytes of a text, `hash = ((hash << 5) + hash) + byte`.
unfoldable pub hash_bytes : ℕ → List ℕ → ℕ
hash_bytes hash [] = hash
hash_bytes hash (b ∷ bs) = hash_bytes ((hash * 32 % 2 ^ 64 + hash + b) % 2 ^ 64) bs

-- `xt_hash_value`
unfoldable pub hash_value : Memory → ℕ → ℕ
unfolding hash_bytes
hash_value m v =
    if is_int v
    then to_int v
    else if v == xt_true
    then 4
    else if v == xt_false
    then 2
    else if v == xt_null
    then 0
    else if is_string m v
    then hash_bytes 5381 (m.string_data v)
    else v
