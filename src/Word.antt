-- ===== src/Word.antt =====
-- runtime/xt_runtime.h and runtime/xt_runtime.c: the tagged word `XTValue`, its integers and the
-- arithmetic on them. A word and an `int64_t` are the number of their bit pattern, below 2 ^ 64.
pub mod Exact
mod Arithmetic
mod Tests
use Prim.Native.Nat.{bit_and, bit_or, bit_xor}
use atlanage.Prelude.{
  ℕ, ◌+◌, ◌-◌, ◌*◌, ◌/◌, ◌%◌, ◌^◌, Bool, true, false, ◌&&◌, ◌||◌, not, List, Option, none, some,
  ltb, leb, ◌==◌, if◌then◌else◌,
}
use atlanage.Prelude.Int.{ℤ, pos, negsuc}

-- `XT_IS_INT`
abbrev pub is_int : ℕ → Bool
is_int v = v % 2 == 1

-- `XT_IS_REAL_PTR`
abbrev pub is_real_ptr : ℕ → Bool
is_real_ptr v = not (is_int v) && ltb 4096 v

-- `XT_FROM_INT`
unfoldable pub from_int : ℕ → ℕ
from_int i = i * 2 % 2 ^ 64 + 1

-- `XT_TO_INT`: the shift of an `intptr_t` copies the sign bit.
unfoldable pub to_int : ℕ → ℕ
to_int v = if ltb v (2 ^ 63) then v / 2 else v / 2 + 2 ^ 63

abbrev pub xt_null : ℕ
xt_null = 0

abbrev pub xt_false : ℕ
xt_false = 2

abbrev pub xt_true : ℕ
xt_true = 4

-- `XT_FROM_BOOL`
abbrev pub from_bool : Bool → ℕ
from_bool b = if b then xt_true else xt_false

-- The number that an `int64_t` stands for.
abbrev pub signed : ℕ → ℤ
signed w = if ltb w (2 ^ 63) then pos w else negsuc (2 ^ 64 - w - 1)

abbrev pub type_int : ℕ
type_int = 1

abbrev pub type_float : ℕ
type_float = 2

abbrev pub type_string : ℕ
type_string = 3

-- What the runtime reads behind a real pointer: the `type_id` of its header, the bytes of an
-- `XTString`, the value of an `XTInt`, and the value of a float after the cast to `int64_t`.
-- `atoll` is the C library's, on the bytes of a text.
pub record Memory : Type 0 where
  pub type_id : ℕ → ℕ
  pub string_data : ℕ → List ℕ
  pub int_value : ℕ → ℕ
  pub float_to_int : ℕ → ℕ
  pub atoll : List ℕ → ℕ

-- `xt_to_int`
unfoldable pub value_to_int : Memory → ℕ → ℕ
unfolding to_int
value_to_int m v =
    if is_int v
    then to_int v
    else if v == xt_true
    then 1
    else if v == xt_false || v == xt_null || not (is_real_ptr v)
    then 0
    else if m.type_id v == type_int
    then m.int_value v
    else if m.type_id v == type_float
    then m.float_to_int v
    else if m.type_id v == type_string
    then m.atoll (m.string_data v)
    else 0

-- `xt_add`, `xt_sub`, `xt_mul`: two's complement, as the compiled code wraps.
unfoldable pub add : Memory → ℕ → ℕ → ℕ
add m a b =
    if is_int a && is_int b
    then from_int ((to_int a + to_int b) % 2 ^ 64)
    else from_int ((value_to_int m a + value_to_int m b) % 2 ^ 64)

unfoldable pub sub : Memory → ℕ → ℕ → ℕ
sub m a b =
    if is_int a && is_int b
    then from_int ((to_int a + 2 ^ 64 - to_int b) % 2 ^ 64)
    else from_int ((value_to_int m a + 2 ^ 64 - value_to_int m b) % 2 ^ 64)

unfoldable pub mul : Memory → ℕ → ℕ → ℕ
mul m a b =
    if is_int a && is_int b
    then from_int (to_int a * to_int b % 2 ^ 64)
    else from_int (value_to_int m a * value_to_int m b % 2 ^ 64)

-- The size of the number that an `int64_t` stands for, and the negation of one.
abbrev pub magnitude : ℕ → ℕ
magnitude w = if ltb w (2 ^ 63) then w else 2 ^ 64 - w

abbrev pub is_negative : ℕ → Bool
is_negative w = leb (2 ^ 63) w

abbrev pub negate : ℕ → ℕ
negate w = (2 ^ 64 - w) % 2 ^ 64

-- C's `/` and `%` on `int64_t` round to zero.
unfoldable pub divide : ℕ → ℕ → ℕ
divide a b =
    let q = magnitude a / magnitude b in
    if is_negative a
    then (if is_negative b then q else negate q)
    else (if is_negative b then negate q else q)

unfoldable pub remainder : ℕ → ℕ → ℕ
remainder a b = let r = magnitude a % magnitude b in if is_negative a then negate r else r

-- `xt_div`
unfoldable pub div : Memory → ℕ → ℕ → ℕ
div m a b =
    if value_to_int m b == 0
    then from_int 0
    else from_int (divide (value_to_int m a) (value_to_int m b))

-- `xt_mod`
unfoldable pub mod_value : Memory → ℕ → ℕ → ℕ
mod_value m a b =
    if value_to_int m b == 0
    then from_int 0
    else from_int (remainder (value_to_int m a) (value_to_int m b))

-- `xt_bit_and`, `xt_bit_or`, `xt_bit_xor`
unfoldable pub and_value : Memory → ℕ → ℕ → ℕ
and_value m a b = from_int (bit_and (value_to_int m a) (value_to_int m b))

unfoldable pub or_value : Memory → ℕ → ℕ → ℕ
or_value m a b = from_int (bit_or (value_to_int m a) (value_to_int m b))

unfoldable pub xor_value : Memory → ℕ → ℕ → ℕ
xor_value m a b = from_int (bit_xor (value_to_int m a) (value_to_int m b))

-- `xt_bit_shl`, `xt_bit_shr`; C leaves a shift by a negative number or by 64 and more undefined.
unfoldable pub shl_value : Memory → ℕ → ℕ → Option ℕ
shl_value m a b =
    let k = value_to_int m b in
    if ltb k 64 then some (from_int (value_to_int m a * 2 ^ k % 2 ^ 64)) else none

unfoldable pub shr_value : Memory → ℕ → ℕ → Option ℕ
shr_value m a b =
    let k = value_to_int m b in
    let x = value_to_int m a in
    if ltb k 64
    then some
        (from_int (if is_negative x then 2 ^ 64 - 1 - (2 ^ 64 - 1 - x) / 2 ^ k else x / 2 ^ k))
    else none

-- The integer branch of `xt_math_abs`, on the `int64_t` `v`: the largest `int64_t` stands in for
-- the smallest.
unfoldable pub abs_int : ℕ → ℕ
abs_int v =
    if v == 2 ^ 63 then from_int (2 ^ 63 - 1) else from_int (if is_negative v then negate v else v)
