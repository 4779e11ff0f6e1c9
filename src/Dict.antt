-- ===== src/Dict.antt =====
-- runtime/xt_runtime.c, the dictionary `XTDict` (an `XTInstance` has the same table): a vector of
-- chains of entries, newest first, that never grows. Memory for an entry does not run out.
mod Chain
mod Table
mod Size
mod Refs
mod Access
mod Tests
use atlanage.Prelude.{
  ℕ, zero, suc, ◌+◌, ◌-◌, ◌%◌, Bool, true, false, ◌&&◌, ◌||◌, not, List, [], ◌∷◌, ◌++◌, Option,
  none, some, ltb, ◌==◌, if◌then◌else◌, length, get_or, set, replicate, map,
}
use atlanage.Word.{Memory, is_real_ptr, xt_null}
use atlanage.Compare.{eq_values, hash_value, strcmp, is_eq}
use atlanage.Effect.{Effect, retain, release}

-- `XTDictEntry`, without its link.
pub record Entry : Type 0 where
  pub key : ℕ
  pub value : ℕ

abbrev pub Chain : Type 0
Chain = List Entry

-- `XTDict`; its capacity is the number of buckets.
pub record Dict : Type 0 where
  pub buckets : List Chain
  pub size : ℕ

abbrev pub type_dict : ℕ
type_dict = 6

abbrev pub type_instance : ℕ
type_instance = 7

abbrev pub type_result : ℕ
type_result = 8

abbrev pub type_socket : ℕ
type_socket = 14

-- `xt_dict_new`
unfoldable pub new : ℕ → Dict
new capacity = record { buckets = replicate (if ltb capacity 8 then 8 else capacity) []; size = 0 }

-- The guard of the operations: a real pointer to a dictionary or an instance.
abbrev pub is_dict : Memory → ℕ → Bool
is_dict m v = is_real_ptr v && (m.type_id v == type_dict || m.type_id v == type_instance)

-- `hash % capacity`: the bucket of a key.
unfoldable pub bucket : Memory → ℕ → ℕ → ℕ
bucket m capacity k = hash_value m k % capacity

-- The walk along a chain.
unfoldable pub find : Memory → ℕ → Chain → Option ℕ
find m k [] = none
find m k (e ∷ c) = if eq_values m e.key k then some e.value else find m k c

-- `entry->value = value` at the first entry that has the key.
unfoldable pub assign : Memory → ℕ → ℕ → Chain → Chain
assign m k v [] = []
assign m k v (e ∷ c) =
    if eq_values m e.key k then record e { value = v } ∷ c else e ∷ assign m k v c

-- `xt_dict_set` on the dictionary `d` that the value `dict_val` points to.
unfoldable pub set_key : Memory → ℕ → Dict → ℕ → ℕ → Dict × List Effect
unfolding find assign bucket
set_key m dict_val d k v =
    let i = bucket m (length d.buckets) k in
    let c = get_or d.buckets i [] in
    if is_dict m dict_val
    then elim (find m k c) [
      | some old ↦
          (record d { buckets = set d.buckets i (assign m k v c) }, release old ∷ retain v ∷ [])
      | none ↦ (
        record { buckets = set d.buckets i (record { key = k; value = v } ∷ c); size = d.size + 1 },
        retain k ∷ retain v ∷ [],
      )
    ]
    else (d, [])

-- `xt_dict_set_weak`: the value is not counted.
unfoldable pub set_weak : Memory → ℕ → Dict → ℕ → ℕ → Dict × List Effect
unfolding find assign bucket
set_weak m dict_val d k v =
    let i = bucket m (length d.buckets) k in
    let c = get_or d.buckets i [] in
    if is_dict m dict_val
    then elim (find m k c) [
      | some old ↦ (record d { buckets = set d.buckets i (assign m k v c) }, [])
      | none ↦ (
        record { buckets = set d.buckets i (record { key = k; value = v } ∷ c); size = d.size + 1 },
        retain k ∷ [],
      )
    ]
    else (d, [])

-- The function that a socket or a result answers a name with.
pub data Method : Type 0 where
  read write close to_string and_then or_else : Method

-- What `xt_dict_get` returns: a word, or a new function object for a method.
pub data Member : Type 0 where
  plain : ℕ → Member
  method : Method → Member

-- The names in UTF-8; `strcmp` finds a name equal to one of them.
unfoldable pub is_named : List ℕ → List (List ℕ) → Bool
is_named name [] = false
is_named name (n ∷ ns) = is_eq (strcmp name n) || is_named name ns

abbrev pub read_names : List (List ℕ)
read_names = (0xe8 ∷ 0xaf ∷ 0xbb ∷ []) ∷ (b'r' ∷ b'e' ∷ b'a' ∷ b'd' ∷ []) ∷ []

abbrev pub write_names : List (List ℕ)
write_names =
    (0xe5 ∷ 0x86 ∷ 0x99 ∷ [])
    ∷ (0xe5 ∷ 0x8f ∷ 0x91 ∷ [])
    ∷ (b'w' ∷ b'r' ∷ b'i' ∷ b't' ∷ b'e' ∷ [])
    ∷ (b's' ∷ b'e' ∷ b'n' ∷ b'd' ∷ [])
    ∷ []

abbrev pub close_names : List (List ℕ)
close_names = (0xe5 ∷ 0x85 ∷ 0xb3 ∷ []) ∷ (b'c' ∷ b'l' ∷ b'o' ∷ b's' ∷ b'e' ∷ []) ∷ []

abbrev pub to_string_names : List (List ℕ)
to_string_names =
    (0xe8 ∷ 0xbd ∷ 0xac ∷ 0xe5 ∷ 0xad ∷ 0x97 ∷ [])
    ∷ (b't' ∷ b'o' ∷ b'S' ∷ b't' ∷ b'r' ∷ b'i' ∷ b'n' ∷ b'g' ∷ [])
    ∷ []

abbrev pub then_names : List (List ℕ)
then_names = (0xe6 ∷ 0x8e ∷ 0xa5 ∷ 0xe7 ∷ 0x9d ∷ 0x80 ∷ []) ∷ (b't' ∷ b'h' ∷ b'e' ∷ b'n' ∷ []) ∷ []

abbrev pub else_names : List (List ℕ)
else_names = (0xe5 ∷ 0x90 ∷ 0xa6 ∷ 0xe5 ∷ 0x88 ∷ 0x99 ∷ []) ∷ (b'e' ∷ b'l' ∷ b's' ∷ b'e' ∷ []) ∷ []

abbrev pub socket_member : List ℕ → Member
socket_member name =
    if is_named name read_names
    then method read
    else if is_named name write_names
    then method write
    else if is_named name close_names
    then method close
    else if is_named name to_string_names
    then method to_string
    else plain xt_null

abbrev pub result_member : List ℕ → Member
result_member name =
    if is_named name then_names
    then method and_then
    else if is_named name else_names
    then method or_else
    else plain xt_null

-- The value that a bucket gives for a key.
unfoldable pub found : Option ℕ → ℕ
found (some v) = v
found none = xt_null

-- `xt_dict_get`
unfoldable pub get : Memory → ℕ → Dict → ℕ → Member
unfolding find bucket found
get m dict_val d k =
    if not (is_real_ptr dict_val)
    then plain xt_null
    else if m.type_id dict_val == type_socket
    then (if is_real_ptr k then socket_member (m.string_data k) else plain xt_null)
    else if m.type_id dict_val == type_result
    then (if is_real_ptr k then result_member (m.string_data k) else plain xt_null)
    else if not (is_dict m dict_val) || length d.buckets == 0
    then plain xt_null
    else plain (found (find m k (get_or d.buckets (bucket m (length d.buckets) k) [])))

-- `xt_dict_contains`
unfoldable pub contains : Memory → ℕ → Dict → ℕ → Bool
unfolding get
contains m dict_val d k = elim (get m dict_val d k) [
  | plain v ↦ not (v == xt_null)
  | method f ↦ true
]

-- `xt_dict_size`
unfoldable pub size_of : Memory → ℕ → Dict → ℕ
size_of m dict_val d = if is_dict m dict_val then d.size else 0

-- The unlinking of `xt_dict_remove`: the first entry that has the key.
unfoldable pub find_entry : Memory → ℕ → Chain → Option Entry
find_entry m k [] = none
find_entry m k (e ∷ c) = if eq_values m e.key k then some e else find_entry m k c

unfoldable pub unlink : Memory → ℕ → Chain → Chain
unlink m k [] = []
unlink m k (e ∷ c) = if eq_values m e.key k then c else e ∷ unlink m k c

-- `xt_dict_remove`; it looks only that the value is a real pointer. `size` is a `size_t` that is
-- positive where an entry was found.
unfoldable pub remove : Memory → ℕ → Dict → ℕ → Dict × List Effect
unfolding find_entry unlink bucket
remove m dict_val d k =
    let i = bucket m (length d.buckets) k in
    let c = get_or d.buckets i [] in
    if is_real_ptr dict_val
    then elim (find_entry m k c) [
      | some e ↦ (
        record { buckets = set d.buckets i (unlink m k c); size = d.size - 1 },
        release e.key ∷ release e.value ∷ [],
      )
      | none ↦ (d, [])
    ]
    else (d, [])

-- The elements that `xt_dict_keys` and `xt_dict_values` append, bucket by bucket.
unfoldable pub entries : List Chain → List Entry
entries [] = []
entries (c ∷ cs) = c ++ entries cs

unfoldable pub keys : Dict → List ℕ
unfolding entries
keys d = map (λ (e : Entry). e.key) (entries d.buckets)

unfoldable pub values : Dict → List ℕ
unfolding entries
values d = map (λ (e : Entry). e.value) (entries d.buckets)
