-- ===== src/Dict/Tests.antt =====
-- The dictionary at a concrete memory: a dictionary at 5000 and texts elsewhere, of which the ones
-- at 6000 and 6002 hold the same bytes.
use atlanage.Prelude.{◌<◌, ◌≡◌, refl, [], ◌∷◌, arith, ◌==◌, if◌then◌else◌, length}
use atlanage.Word.{Memory, xt_null}
use atlanage.Compare.{eq_values, compare_values, strcmp, hash_value}
use atlanage.Dict.{Dict, new, set_key, remove, get, plain, entries, type_dict, find, bucket}
use atlanage.Dict.Table.{
  HasUniqueKeys, new-HasUniqueKeys, get-set_key, get-remove, set_key-HasUniqueKeys,
}
use atlanage.Dict.Size.{HasSize, set_key-HasSize}

abbrev memory : Memory
memory = record {
  type_id = λ p. if p == 5000 then type_dict else 3;
  string_data = λ p. if p == 6004 then b'c' ∷ [] else b'a' ∷ b'b' ∷ [];
  int_value = λ p. 0;
  float_to_int = λ p. 0;
  atoll = λ s. 0;
}

-- A dictionary with the text at 6000 as its key.
abbrev table : Dict
table = (set_key memory 5000 (new 8) 6000 7).0

table-room : 0 < length table.buckets
unfolding new set_key bucket find hash_value
table-room = omega arith

table-HasUniqueKeys : HasUniqueKeys memory table.buckets
table-HasUniqueKeys =
    set_key-HasUniqueKeys memory 5000 (new 8) 6000 refl (unfold new in omega arith) 7
      (new-HasUniqueKeys memory 8)

table-HasSize : HasSize table
table-HasSize =
    set_key-HasSize memory 5000 (new 8) 6000 (unfold new in omega arith) 7
      (unfold new entries in refl)

get-set_key_example :
    get memory 5000 (set_key memory 5000 table 6002 9).0 6000
    ≡ (if eq_values memory 6002 6000 then plain 9 else get memory 5000 table 6000)
get-set_key_example = get-set_key memory 5000 table 6002 refl table-room 9 6000 refl refl

get-remove_example :
    get memory 5000 (remove memory 5000 table 6002).0 6000
    ≡ (if eq_values memory 6002 6000 then plain xt_null else get memory 5000 table 6000)
get-remove_example =
    get-remove memory 5000 table 6002 refl table-room 6000 refl refl table-HasUniqueKeys

-- A key is found by another text with the same bytes.
get-table : get memory 5000 table 6002 ≡ plain 7
unfolding get set_key new hash_value eq_values compare_values strcmp
get-table = refl
