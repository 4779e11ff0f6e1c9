-- ===== src/Arena/Current.antt =====
-- The current arena, a global of the program, and the allocation of objects: `xt_malloc` and
-- `xt_arena_alloc`. An arena is named by a number; no arena is `none`.
use atlanage.Prelude.{ℕ, Option, none, some, ◌==◌, if◌then◌else◌}
use atlanage.Heap.{immortal}
use atlanage.Arena.{Arena, Region, alloc_raw}

-- `g_current_arena`, with the arena that it points to.
abbrev pub Current : Type 0
Current = Option (ℕ × Arena)

-- `xt_arena_use`, and `xt_arena_restore` of what `xt_arena_disable` has returned.
abbrev pub use_arena : ℕ → Arena → Current → Current
use_arena name arena current = some (name, arena)

abbrev pub disable : Current → Current × Current
disable current = (current, none)

abbrev pub restore : Current → Current → Current
restore saved current = saved

-- What `xt_arena_destroy` does to the global.
unfoldable pub destroyed : ℕ → Current → Current
destroyed name none = none
destroyed name (some (other, arena)) = if other == name then none else some (other, arena)

-- `XTObject`
pub record Header : Type 0 where
  pub ref_count : ℕ
  pub type_id : ℕ
  pub magic : ℕ

-- `XT_MAGIC`
abbrev pub object_magic : ℕ
object_magic = 0x58544F42

-- Where an object stands.
pub data Place : Type 0 where
  in_arena : Region → Place
  on_heap : ℕ → Place

-- `xt_arena_alloc`; `fresh` is what `calloc` answers for a new buffer.
abbrev pub with_header : ℕ → ℕ → Option (Arena × Region) → Option (Current × Place × Header)
with_header name type_id none = none
with_header name type_id (some (arena, r)) = some (
  some (name, arena),
  in_arena r,
  record { ref_count = immortal; type_id = type_id; magic = object_magic },
)

unfoldable pub arena_alloc : Option ℕ → ℕ → Arena → ℕ → ℕ → Option (Current × Place × Header)
unfolding alloc_raw
arena_alloc fresh name arena size type_id = with_header name type_id (alloc_raw fresh arena size)

-- `xt_malloc`; `memory` is what `malloc` answers, and `none` ends the program.
abbrev pub heap_alloc : Option ℕ → ℕ → Option (Current × Place × Header)
heap_alloc none type_id = none
heap_alloc (some p) type_id =
    some (none, on_heap p, record { ref_count = 1; type_id = type_id; magic = object_magic })

unfoldable pub xt_malloc : Option ℕ → Option ℕ → Current → ℕ → ℕ → Option (Current × Place × Header)
unfolding arena_alloc
xt_malloc memory fresh none size type_id = heap_alloc memory type_id
xt_malloc memory fresh (some (name, arena)) size type_id = arena_alloc fresh name arena size type_id
