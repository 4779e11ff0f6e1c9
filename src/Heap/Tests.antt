-- ===== src/Heap/Tests.antt =====
-- A heap of an array at 6000 that holds a text at 6002; the program refers to both.
use atlanage.Prelude.{ℕ, ◌+◌, ◌≡◌, ◌≤◌, ◌<◌, refl, false, [], ◌∷◌, Option, none, some, arith}
use atlanage.Effect.{count}
use atlanage.Heap.{
  Object, Heap, object_at, fields, release, retain_value, array, plain, channel, result_new,
}
use atlanage.Heap.Cells.{places, holds, held, live, is_dying}
use atlanage.Heap.Counts.{Accounts, HasUniquePlaces, IsReleased}
use atlanage.Heap.Release.{release-IsReleased}
use atlanage.Heap.Results.{result_new-Accounts}
use atlanage.Heap.Retain.{retain_value-Accounts, release_leaves, fields-contents}
use atlanage.Channel.{new}
use atlanage.Channel.Queue.{contents}
use atlanage.Channel.Refine.{new-IsValid}

abbrev text : Object
text = record { ref_count = 2; body = plain }

abbrev two : Heap
two =
    record { address = 6000; object = record { ref_count = 1; body = array (6002 ∷ []) } }
    ∷ record { address = 6002; object = text }
    ∷ []

two-HasUniquePlaces : HasUniquePlaces two
unfolding places
two-HasUniquePlaces p = ground arith

two-Accounts : Accounts (6000 ∷ 6002 ∷ []) two
unfolding object_at held holds fields
two-Accounts p real = ground arith

two-live : live two ≤ 2
unfolding live
two-live = omega arith

two-is_dying : (p : ℕ) → is_dying p two ≡ false
unfolding is_dying object_at
two-is_dying p = ground arith

-- The array is freed, and with it its reference to the text.
two-release :
    release 3 6000 two
    ≡ some (record { address = 6002; object = record { ref_count = 1; body = plain } } ∷ [])
unfolding release
two-release = refl

release-IsReleased_example :
    (h' : Heap) × (release 3 6000 two ≡ some h') × IsReleased (6002 ∷ []) two h'
release-IsReleased_example =
    release-IsReleased 2 6000 (6002 ∷ []) two two-HasUniquePlaces two-Accounts two-live

release_leaves_example :
    0
    < count 6002 (6002 ∷ [])
      + held 6002 (record { address = 6002; object = record { ref_count = 1; body = plain } } ∷ [])
release_leaves_example =
    release_leaves 2 6000 (6002 ∷ []) two
      (record { address = 6002; object = record { ref_count = 1; body = plain } } ∷ [])
      two-HasUniquePlaces two-Accounts two-live two-is_dying two-release 6002
      (record { ref_count = 1; body = plain }) refl (unfold object_at in refl) (omega arith)

retain_value-Accounts_example :
    (h' : Heap) × (retain_value 6002 two ≡ some h')
    × HasUniquePlaces h'
    × Accounts (6002 ∷ 6000 ∷ 6002 ∷ []) h'
retain_value-Accounts_example =
    retain_value-Accounts 6002 (6000 ∷ 6002 ∷ []) two two-HasUniquePlaces two-Accounts
      (λ real. omega arith)

fields-contents_example : fields (channel (new 2)) ≡ contents (new 2)
fields-contents_example = fields-contents (new 2) (new-IsValid 2 (omega arith)).0

result_new-Accounts_example :
    (h' : Heap) × (result_new 7000 6002 0 two ≡ some h')
    × HasUniquePlaces h'
    × Accounts (7000 ∷ 6000 ∷ 6002 ∷ []) h'
unfolding places
result_new-Accounts_example =
    result_new-Accounts 7000 6002 0 (6000 ∷ 6002 ∷ []) two refl refl two-HasUniquePlaces
      two-Accounts (λ real. omega arith) (λ real. absurd (cc real))

-- A new text in a new result: the release of the result leaves the text, to which nothing refers.
abbrev new_text : Heap
new_text = record { address = 6002; object = record { ref_count = 1; body = plain } } ∷ []

abbrev released_result : Option Heap
released_result = elim (result_new 7000 6002 0 new_text) [ none ↦ none | some h ↦ release 3 7000 h ]

text_leaks : released_result ≡ some new_text
unfolding result_new release
text_leaks = refl
