-- ===== src/Array.antt =====
-- runtime/xt_runtime.c, the growing array `XTArray`. Its memory is the list of the first `length`
-- words; the words behind them are never read.
mod Laws
mod Search
mod Refs
mod Tests
use Prim.Native.Nat.{Ordering}
use atlanage.Prelude.{
  ℕ, zero, suc, ◌+◌, ◌-◌, ◌*◌, ◌%◌, ◌^◌, Bool, true, false, ◌||◌, ◌&&◌, not, List, [], ◌∷◌, ◌++◌,
  Option, none, some, ltb, leb, ◌==◌, if◌then◌else◌, length, get_or, set, take,
}
use atlanage.Word.{
  Memory, is_real_ptr, is_negative, from_int, value_to_int, xt_null, xt_true, xt_false,
}
use atlanage.Compare.{compare_values, is_eq, lt_int}
use atlanage.Effect.{Effect, retain, release}

-- `XTArray`
pub record Array : Type 0 where
  pub elements : List ℕ
  pub capacity : ℕ
  pub in_arena : Bool

abbrev pub type_array : ℕ
type_array = 5

-- `arena`: a current arena is set.
unfoldable pub new : Bool → ℕ → Array
new arena capacity = record {
  elements = [];
  capacity = if ltb 0 capacity then capacity else 4;
  in_arena = arena;
}

-- The growth of `xt_array_append`; `available` says whether the allocator has that many words. A
-- failed allocation returns before the element is stored, when the flag has been cleared.
unfoldable pub grow : Bool → (ℕ → Bool) → Array → Array × Bool
grow arena available arr =
    let bigger = if arr.capacity == 0 then 4 else arr.capacity * 2 % 2 ^ 64 in
    let flag = if arena then arr.in_arena else false in
    if leb arr.capacity (length arr.elements)
    then (if available bigger
        then (record arr { capacity = bigger; in_arena = flag }, true)
        else (record arr { in_arena = flag }, false))
    else (arr, true)

-- `xt_array_append` on the array that `arr_val` points to.
unfoldable pub append : Bool → (ℕ → Bool) → ℕ → Array → ℕ → Array × List Effect
unfolding grow
append arena available arr_val arr element =
    let (grown, stored) = grow arena available arr in
    if not (is_real_ptr arr_val)
    then (arr, [])
    else if stored
    then (record grown { elements = grown.elements ++ element ∷ [] }, retain element ∷ [])
    else (grown, [])

-- The test `index < 0 || (size_t)index >= length`.
abbrev pub out_of_range : ℕ → ℕ → Bool
out_of_range index len = is_negative index || leb len index

-- `xt_array_get`
unfoldable pub get : Memory → ℕ → Array → ℕ → ℕ
get m arr_val arr index_val =
    let index = value_to_int m index_val in
    if not (is_real_ptr arr_val) || out_of_range index (length arr.elements)
    then xt_null
    else get_or arr.elements index xt_null

-- `xt_array_pop`, which hands the reference of the last element over to the caller.
unfoldable pub pop : Memory → ℕ → Array → ℕ × Array
pop m arr_val arr =
    let n = length arr.elements in
    if arr_val == 0 || not (m.type_id arr_val == type_array) || n == 0
    then (xt_null, arr)
    else (get_or arr.elements (n - 1) xt_null, record arr { elements = take (n - 1) arr.elements })

-- `xt_array_set`
unfoldable pub set_at : Memory → ℕ → Array → ℕ → ℕ → Array × List Effect
set_at m arr_val arr index_val value =
    let index = value_to_int m index_val in
    if not (is_real_ptr arr_val) || out_of_range index (length arr.elements) then (arr, []) else (
      record arr { elements = set arr.elements index value },
      release (get_or arr.elements index xt_null) ∷ retain value ∷ [],
    )

-- `for (i = index; i < length - 1; i++) elements[i] = elements[i + 1];` with the rounds left.
unfoldable pub shift_left : ℕ → ℕ → List ℕ → List ℕ
shift_left zero i xs = xs
shift_left (suc rounds) i xs = shift_left rounds (i + 1) (set xs i (get_or xs (i + 1) xt_null))

-- `xt_array_remove`
unfoldable pub remove_at : Memory → ℕ → Array → ℕ → Array × List Effect
unfolding shift_left
remove_at m arr_val arr index_val =
    let index = value_to_int m index_val in
    let n = length arr.elements in
    if not (is_real_ptr arr_val) || out_of_range index n then (arr, []) else (
      record arr { elements = take (n - 1) (shift_left (n - 1 - index) index arr.elements) },
      release (get_or arr.elements index xt_null) ∷ [],
    )

-- `for (i = length - 1; i > index; i--)` swap `elements[i]` and `elements[i - 1]`.
unfoldable pub sink : ℕ → ℕ → List ℕ → List ℕ
sink index zero xs = xs
sink index (suc i) xs =
    let swapped = set (set xs (suc i) (get_or xs i xt_null)) i (get_or xs (suc i) xt_null) in
    let rest = sink index i swapped in if ltb index (suc i) then rest else xs

-- `xt_array_insert`; if the append stores nothing, the loop runs over the old elements, and over
-- none of them its start `length - 1` wraps: `none` is the access out of bounds that follows.
unfoldable pub insert :
    Memory → Bool → (ℕ → Bool) → ℕ → Array → ℕ → ℕ → Option (Array × List Effect)
unfolding sink
insert m arena available arr_val arr index_val value =
    let index = value_to_int m index_val in
    let (longer, es) = append arena available arr_val arr value in
    if not (is_real_ptr arr_val) || (is_negative index || ltb (length arr.elements) index)
    then some (arr, [])
    else if length longer.elements == 0
    then none
    else some
        (record longer { elements = sink index (length longer.elements - 1) longer.elements }, es)

-- The loop of `xt_array_contains` and `xt_array_find`, from index `i` on.
unfoldable pub find_from : Memory → ℕ → List ℕ → ℕ → Option ℕ
find_from m element [] i = none
find_from m element (x ∷ xs) i =
    if is_eq (compare_values m x element) then some i else find_from m element xs (i + 1)

-- `xt_array_contains`
unfoldable pub contains : Memory → ℕ → Array → ℕ → ℕ
unfolding find_from
contains m arr_val arr element =
    if not (is_real_ptr arr_val)
    then xt_false
    else elim (find_from m element arr.elements 0) [ some i ↦ xt_true | none ↦ xt_false ]

-- `xt_array_find`; `2 ^ 64 - 1` is the pattern of -1.
unfoldable pub find : Memory → ℕ → Array → ℕ → ℕ
unfolding find_from
find m arr_val arr element =
    if not (is_real_ptr arr_val)
    then from_int (2 ^ 64 - 1)
    else elim (find_from m element arr.elements 0) [
      | some i ↦ from_int i
      | none ↦ from_int (2 ^ 64 - 1)
    ]

-- Appends to a new array, whose pointer is `target`.
unfoldable pub append_all : Bool → (ℕ → Bool) → ℕ → Array → List ℕ → Array × List Effect
unfolding append
append_all arena available target arr [] = (arr, [])
append_all arena available target arr (x ∷ xs) =
    let (arr', es) = append arena available target arr x in
    let (arr'', fs) = append_all arena available target arr' xs in (arr'', es ++ fs)

-- The words `elements[start]`, `elements[start + 1]`, and so on, `rounds` of them.
unfoldable pub read_from : ℕ → ℕ → List ℕ → List ℕ
read_from zero i xs = []
read_from (suc rounds) i xs = get_or xs i xt_null ∷ read_from rounds (i + 1) xs

-- `xt_array_slice` into the new array at `target`.
unfoldable pub slice : Memory → Bool → (ℕ → Bool) → ℕ → ℕ → Array → ℕ → Array × List Effect
unfolding append_all read_from new
slice m arena available target arr_val arr start_val =
    let given = value_to_int m start_val in
    let start = if is_negative given then 0 else given in
    let n = length arr.elements in
    if not (is_real_ptr arr_val) || leb n start
    then (new arena 0, [])
    else append_all arena available target (new arena (n - start))
        (read_from (n - start) start arr.elements)

-- The tagged integers from `i` on, `rounds` of them.
unfoldable pub numbers_from : ℕ → ℕ → List ℕ
numbers_from zero i = []
numbers_from (suc rounds) i = from_int i ∷ numbers_from rounds ((i + 1) % 2 ^ 64)

-- `xt_array_range` into the new array at `target`.
unfoldable pub range : Memory → Bool → (ℕ → Bool) → ℕ → ℕ → ℕ → Array × List Effect
unfolding append_all numbers_from new
range m arena available target start_val end_val =
    let start = value_to_int m start_val in
    let end = value_to_int m end_val in
    let len = (end + 2 ^ 64 - start) % 2 ^ 64 in
    if lt_int start end
    then append_all arena available target (new arena len) (numbers_from len start)
    else (new arena 0, [])
