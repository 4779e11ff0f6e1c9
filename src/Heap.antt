-- ===== src/Heap.antt =====
-- runtime/xt_runtime.c, `xt_retain`, `xt_release` and `xt_free_obj`: the counting of references.
-- The heap is the list of the objects that are not freed. No weak slot points to an object, and
-- what an object holds outside the heap (its bytes, a socket, a mutex) is left aside.
mod Cells
mod Counts
mod Release
mod Retain
mod Results
mod Tests
use atlanage.Prelude.{
  ℕ, zero, suc, ◌+◌, ◌-◌, ◌%◌, ◌^◌, Bool, true, false, not, List, [], ◌∷◌, ◌++◌, Option, none, some,
  leb, ◌==◌, if◌then◌else◌, get_or,
}
use atlanage.Word.{is_real_ptr, xt_null}
use atlanage.Dict.{Entry, Chain}
use atlanage.Channel.{Channel}

-- The objects by their `type_id`, as far as `xt_free_obj` tells them apart: an instance is freed
-- like a dictionary, and the types in `plain` hold no references.
pub data Body : Type 0 where
  array : List ℕ → Body
  dict : List Chain → Body
  result : ℕ → ℕ → Body
  channel : Channel → Body
  task : ℕ → Body
  plain : Body

-- `XTObject` with what follows its header.
pub record Object : Type 0 where
  pub ref_count : ℕ
  pub body : Body

-- `XT_REF_COUNT_IMMORTAL`
abbrev pub immortal : ℕ
immortal = 0x7FFFFFFF

pub record Cell : Type 0 where
  pub address : ℕ
  pub object : Object

abbrev pub Heap : Type 0
Heap = List Cell

-- The object at an address; `none` if it is freed.
unfoldable pub object_at : ℕ → Heap → Option Object
object_at p [] = none
object_at p (c ∷ h) = if c.address == p then some c.object else object_at p h

-- The write of an object at its address.
unfoldable pub put : ℕ → Object → Heap → Heap
put p o [] = []
put p o (c ∷ h) = if c.address == p then record { address = p; object = o } ∷ h else c ∷ put p o h

-- `free`
unfoldable pub erase : ℕ → Heap → Heap
erase p [] = []
erase p (c ∷ h) = if c.address == p then h else c ∷ erase p h

-- The keys and values of a chain, and of the buckets.
unfoldable pub chain_words : Chain → List ℕ
chain_words [] = []
chain_words (e ∷ c) = e.key ∷ e.value ∷ chain_words c

unfoldable pub bucket_words : List Chain → List ℕ
unfolding chain_words
bucket_words [] = []
bucket_words (c ∷ cs) = chain_words c ++ bucket_words cs

-- `buffer[(head + i) % capacity]`, from `i` on.
unfoldable pub buffered : ℕ → ℕ → Channel → List ℕ
buffered zero i c = []
buffered (suc rounds) i c =
    get_or c.buffer ((c.head + i) % c.capacity) xt_null ∷ buffered rounds (i + 1) c

abbrev pub non_null : ℕ → List ℕ
non_null v = if v == xt_null then [] else v ∷ []

-- The values that `xt_free_obj` releases, in its order.
unfoldable pub fields : Body → List ℕ
unfolding bucket_words buffered
fields (array elements) = elements
fields (dict buckets) = bucket_words buckets
fields (result value error) = non_null value ++ non_null error
fields (channel c) = buffered c.size 0 c
fields (task value) = non_null value
fields plain = []

-- A loop of releases.
unfoldable pub each : (ℕ → Heap → Option Heap) → List ℕ → Heap → Option Heap
each f [] h = some h
each f (v ∷ vs) h = elim (f v h) [ none ↦ none | some h' ↦ each f vs h' ]

-- `xt_release`, with `xt_free_obj` in place; `none` is an access to a freed object. The fuel bounds
-- the depth of the recursion. A count of 0 wraps.
unfoldable pub release : ℕ → ℕ → Heap → Option Heap
unfolding object_at put erase fields each
release zero v h = none
release (suc fuel) v h =
    let down : Object → Option Heap = λ (o : Object).
      let lower = put v (record o { ref_count = (o.ref_count + 2 ^ 32 - 1) % 2 ^ 32 }) h in
      let freed : Option Heap = elim (each (release fuel) (fields o.body) lower) [
        | none ↦ none
        | some h' ↦ some (erase v h')
      ] in
      if leb immortal o.ref_count then some h else if o.ref_count == 1 then freed else some lower in
    let at_object : Option Heap = elim (object_at v h) [ none ↦ none | some o ↦ down o ] in
    if is_real_ptr v then at_object else some h

-- `xt_retain`
unfoldable pub retain_value : ℕ → Heap → Option Heap
unfolding object_at put
retain_value v h =
    let at_object : Option Heap = elim (object_at v h) [
      | none ↦ none
      | some o ↦ some (
          if leb immortal o.ref_count
          then h
          else put v (record o { ref_count = (o.ref_count + 1) % 2 ^ 32 }) h)
    ] in
    if is_real_ptr v then at_object else some h

-- `xt_retain_forever`
unfoldable pub retain_forever : ℕ → Heap → Option Heap
unfolding object_at put
retain_forever v h =
    let at_object : Option Heap = elim (object_at v h) [
      | none ↦ none
      | some o ↦ some (put v (record o { ref_count = immortal }) h)
    ] in
    if is_real_ptr v then at_object else some h

-- `xt_result_new` at the new address `p`. The struct is made before the two references are taken,
-- which none of them sees.
abbrev pub with_result : ℕ → ℕ → ℕ → Option Heap → Option Heap
with_result p value error none = none
with_result p value error (some h) =
    some (record { address = p; object = record { ref_count = 1; body = result value error } } ∷ h)

unfoldable pub result_new : ℕ → ℕ → ℕ → Heap → Option Heap
unfolding retain_value
result_new p value error h =
    with_result p value error
      (elim (retain_value value h) [ none ↦ none | some h' ↦ retain_value error h' ])
