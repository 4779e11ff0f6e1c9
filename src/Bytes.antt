-- ===== src/Bytes.antt =====
-- runtime/xt_runtime.c, the growing array of bytes `XTBytes`. A `size_t` wraps around at 2 ^ 64, and
-- memory does not run out: the code does not look whether `realloc` has failed.
mod Growth
mod Tests
use atlanage.Prelude.{
  ℕ, ◌*◌, ◌%◌, ◌^◌, List, [], ◌∷◌, ◌++◌, Option, none, some, ltb, leb, if◌then◌else◌, length,
}

-- `XTBytes`; its length is the number of the bytes.
pub record Bytes : Type 0 where
  pub data_bytes : List ℕ
  pub capacity : ℕ

-- `xt_bytes_new`
unfoldable pub new : ℕ → Bytes
new capacity = record { data_bytes = []; capacity = capacity }

-- `xt_bytes_append` to a struct; `none` is a write out of the memory.
unfoldable pub append : Bytes → ℕ → Option Bytes
append b b_val =
    let n = length b.data_bytes in
    let capacity = if leb b.capacity n then b.capacity * 2 % 2 ^ 64 else b.capacity in
    if ltb n capacity
    then some (record { data_bytes = b.data_bytes ++ b_val ∷ []; capacity = capacity })
    else none

-- One call after the other.
unfoldable pub append_all : Bytes → List ℕ → Option Bytes
unfolding append
append_all b [] = some b
append_all b (x ∷ xs) = elim (append b x) [ none ↦ none | some b' ↦ append_all b' xs ]
