-- ===== src/Arena.antt =====
-- runtime/xt_runtime.c, the arenas: `xt_arena_new`, `xt_arena_alloc_raw` and `xt_arena_destroy`.
-- A buffer is named by a number, and a pointer into it is that number with an offset. What `calloc`
-- answers for a buffer is an argument; memory for the struct does not run out.
mod Disjoint
mod Current
mod Immortal
mod Tests
use atlanage.Prelude.{
  ℕ, ◌+◌, ◌-◌, ◌*◌, ◌/◌, ◌%◌, ◌^◌, List, [], ◌∷◌, Option, none, some, ltb, if◌then◌else◌,
}

-- A buffer with its size and the offset of its free part, in the `XTArena` that holds it.
pub record Block : Type 0 where
  pub buffer : ℕ
  pub size : ℕ
  pub offset : ℕ

-- `XTArena` with the blocks that `next` leads to.
pub record Arena : Type 0 where
  pub current : Block
  pub older : List Block

-- The memory that an allocation returns.
pub record Region : Type 0 where
  pub buffer : ℕ
  pub start : ℕ
  pub length : ℕ

-- `xt_arena_new`
unfoldable pub new : Option ℕ → ℕ → Option Arena
new none size = none
new (some buffer) size =
    some (record { current = record { buffer = buffer; size = size; offset = 0 }; older = [] })

-- `(size + 7) & ~7`
abbrev pub rounded : ℕ → ℕ
rounded size = (size + 7) % 2 ^ 64 / 8 * 8

abbrev pub block_bytes : ℕ
block_bytes = 100 * 1024 * 1024

-- The new block: its buffer becomes the current one, and the struct takes over the old buffer.
unfoldable pub expand : Arena → ℕ → ℕ → Arena
expand arena size buffer = record {
  current = record {
    buffer = buffer;
    size = if ltb block_bytes size then size else block_bytes;
    offset = 0;
  };
  older = arena.current ∷ arena.older;
}

-- The end of `xt_arena_alloc_raw`, on a rounded size.
unfoldable pub take_bytes : Arena → ℕ → Arena × Region
take_bytes arena size = (
  record arena {
    current = record (arena.current) { offset = (arena.current.offset + size) % 2 ^ 64 };
  },
  record { buffer = arena.current.buffer; start = arena.current.offset; length = size },
)

-- `xt_arena_alloc_raw` in a current arena; `none` ends the program, out of memory.
unfoldable pub alloc_raw : Option ℕ → Arena → ℕ → Option (Arena × Region)
unfolding expand take_bytes
alloc_raw fresh arena wanted =
    let size = rounded wanted in
    let expanded : Option (Arena × Region) = elim fresh [
      | none ↦ none
      | some buffer ↦ some (take_bytes (expand arena size buffer) size)
    ] in
    if ltb arena.current.size ((arena.current.offset + size) % 2 ^ 64)
    then expanded
    else some (take_bytes arena size)

-- `xt_arena_destroy`: the older buffers are freed; the arena itself keeps its current one until its
-- count of references, now 2, comes to 0.
unfoldable pub buffers : List Block → List ℕ
buffers [] = []
buffers (b ∷ bs) = b.buffer ∷ buffers bs

unfoldable pub destroy : Arena → Arena × List ℕ
unfolding buffers
destroy arena = (record { current = arena.current; older = [] }, buffers arena.older)
