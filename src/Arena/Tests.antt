-- ===== src/Arena/Tests.antt =====
-- An arena with 48 free bytes in its buffer, of which an allocation of 60 bytes wants more.
use atlanage.Prelude.{◌≡◌, refl, [], ◌∷◌, some, none, arith}
use atlanage.Heap.{Object, plain, immortal, release}
use atlanage.Arena.Current.{xt_malloc, on_heap, object_magic}
use atlanage.Arena.{Arena, Region, alloc_raw}
use atlanage.Arena.Disjoint.{IsAllocated, alloc_raw-IsAllocated}

abbrev small_arena : Arena
small_arena = record { current = record { buffer = 1; size = 64; offset = 16 }; older = [] }

abbrev first_region : Region
first_region = record { buffer = 1; start = 0; length = 16 }

alloc_raw-IsAllocated_example :
    (a : Arena) × (r : Region) × (alloc_raw (some 2) small_arena 60 ≡ some (a, r))
    × IsAllocated a r (first_region ∷ []) 60
alloc_raw-IsAllocated_example =
    alloc_raw-IsAllocated 2 small_arena (first_region ∷ []) 60 (omega arith) (omega arith)
      (omega arith) (λ e. omega arith, tt) (λ e. omega arith, tt)

-- An object in an arena, at 6000.
abbrev text_object : Object
text_object = record { ref_count = immortal; body = plain }

left_alone :
    release 1 6000 (record { address = 6000; object = text_object } ∷ [])
    ≡ some (record { address = 6000; object = text_object } ∷ [])
unfolding release
left_alone = refl

-- Without an arena the object is on the heap, with one reference.
malloc_on_heap :
    xt_malloc (some 6000) none none 40 3
    ≡ some (none, on_heap 6000, record { ref_count = 1; type_id = 3; magic = object_magic })
unfolding xt_malloc
malloc_on_heap = refl
