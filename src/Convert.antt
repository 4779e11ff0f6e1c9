-- ===== src/Convert.antt =====
-- runtime/xt_runtime.c: values as texts, `xt_obj_to_string`, and texts as numbers, `xt_to_int`; and
-- `xt_array_join` and `xt_string_contains`.
pub mod Numbers
pub mod Decimal
mod Reading
mod Contains
mod Tests
use atlanage.Prelude.{
  ℕ, zero, suc, ◌+◌, ◌*◌, Bool, true, false, not, List, [], ◌∷◌, ◌++◌, Option, none, some, ltb,
  ◌==◌, if◌then◌else◌, length,
}
use atlanage.Word.{
  Memory, is_int, is_real_ptr, from_int, to_int, signed, value_to_int, xt_null, xt_true, xt_false,
  type_int, type_float, type_string,
}
use atlanage.Dict.{type_dict, type_instance, type_result, type_socket}
use atlanage.Array.{type_array}
use atlanage.Json.Value.{print_int}
use atlanage.Text.{join_loop}
use atlanage.Text.Search.{c_str, strstr}

-- What is read behind a pointer, with the two sides of an `XTResult`, and what `"%g"` prints for a
-- float.
pub record Objects : Type 0 where
  pub memory : Memory
  pub float_text : ℕ → List ℕ
  pub is_success : ℕ → Bool
  pub value : ℕ → ℕ
  pub error : ℕ → ℕ

abbrev pub type_bool : ℕ
type_bool = 4

abbrev pub type_channel : ℕ
type_channel = 12

-- "真", "假", "空", "非法地址", "实例对象", "成功(", "失败(", "字典对象", "数组对象", "Socket连接", "通道对象"
-- and "未知对象"
abbrev pub true_text : List ℕ
true_text = 0xe7 ∷ 0x9c ∷ 0x9f ∷ []

abbrev pub false_text : List ℕ
false_text = 0xe5 ∷ 0x81 ∷ 0x87 ∷ []

abbrev pub null_text : List ℕ
null_text = 0xe7 ∷ 0xa9 ∷ 0xba ∷ []

abbrev bad_address : List ℕ
bad_address = 0xe9 ∷ 0x9d ∷ 0x9e ∷ 0xe6 ∷ 0xb3 ∷ 0x95 ∷ 0xe5 ∷ 0x9c ∷ 0xb0 ∷ 0xe5 ∷ 0x9d ∷ 0x80 ∷ []

abbrev object : List ℕ
object = 0xe5 ∷ 0xaf ∷ 0xb9 ∷ 0xe8 ∷ 0xb1 ∷ 0xa1 ∷ []

abbrev instance_text : List ℕ
instance_text = 0xe5 ∷ 0xae ∷ 0x9e ∷ 0xe4 ∷ 0xbe ∷ 0x8b ∷ object

abbrev pub success_text : List ℕ
success_text = 0xe6 ∷ 0x88 ∷ 0x90 ∷ 0xe5 ∷ 0x8a ∷ 0x9f ∷ b'(' ∷ []

abbrev pub failure_text : List ℕ
failure_text = 0xe5 ∷ 0xa4 ∷ 0xb1 ∷ 0xe8 ∷ 0xb4 ∷ 0xa5 ∷ b'(' ∷ []

abbrev dict_text : List ℕ
dict_text = 0xe5 ∷ 0xad ∷ 0x97 ∷ 0xe5 ∷ 0x85 ∷ 0xb8 ∷ object

abbrev array_text : List ℕ
array_text = 0xe6 ∷ 0x95 ∷ 0xb0 ∷ 0xe7 ∷ 0xbb ∷ 0x84 ∷ object

abbrev socket_text : List ℕ
socket_text = b'S' ∷ b'o' ∷ b'c' ∷ b'k' ∷ b'e' ∷ b't' ∷ 0xe8 ∷ 0xbf ∷ 0x9e ∷ 0xe6 ∷ 0x8e ∷ 0xa5 ∷ []

abbrev channel_text : List ℕ
channel_text = 0xe9 ∷ 0x80 ∷ 0x9a ∷ 0xe9 ∷ 0x81 ∷ 0x93 ∷ object

abbrev unknown_text : List ℕ
unknown_text = 0xe6 ∷ 0x9c ∷ 0xaa ∷ 0xe7 ∷ 0x9f ∷ 0xa5 ∷ object

-- `xt_int_to_string`
abbrev pub int_to_string : ℕ → List ℕ
int_to_string w = print_int (signed w)

module _ (o : Objects) where
  -- The cases of `xt_obj_to_string` that are not a result.
  abbrev pub plain_text : ℕ → List ℕ
  plain_text v =
      let t = o.memory.type_id v in
      if t == type_int
      then int_to_string (o.memory.int_value v)
      else if t == type_string
      then o.memory.string_data v
      else if t == type_float
      then o.float_text v
      else if t == type_bool
      then (if o.memory.int_value v == 0 then false_text else true_text)
      else if t == type_instance
      then instance_text
      else if t == type_dict
      then dict_text
      else if t == type_array
      then array_text
      else if t == type_socket
      then socket_text
      else if t == type_channel
      then channel_text
      else unknown_text

  abbrev pub wrapped : ℕ → Option (List ℕ) → Option (List ℕ)
  wrapped v none = none
  wrapped v (some inner) =
      some ((if o.is_success v then success_text else failure_text) ++ (inner ++ b')' ∷ []))

  -- `xt_obj_to_string`, on fuel: as deep as results are nested.
  unfoldable pub obj_to_string : ℕ → ℕ → Option (List ℕ)
  obj_to_string zero v = none
  obj_to_string (suc fuel) v =
      let inner = obj_to_string fuel (if o.is_success v then o.value v else o.error v) in
      if is_int v
      then some (int_to_string (to_int v))
      else if v == xt_true
      then some true_text
      else if v == xt_false
      then some false_text
      else if v == xt_null
      then some null_text
      else if not (is_real_ptr v)
      then some bad_address
      else if o.memory.type_id v == type_result
      then wrapped v inner
      else some (plain_text v)

  -- The texts of the elements of an array.
  abbrev pub texts_of : ℕ → List ℕ → Option (List (List ℕ))
  texts_of fuel [] = some []
  texts_of fuel (v ∷ vs) = elim (obj_to_string fuel v) [
    | none ↦ none
    | some s ↦ elim (texts_of fuel vs) [ none ↦ none | some ss ↦ some (s ∷ ss) ]
  ]

-- The first loop of `xt_array_join`: the size of the buffer.
unfoldable pub join_size : ℕ → List (List ℕ) → ℕ
join_size sep_len [] = 0
join_size sep_len (s ∷ []) = length s
join_size sep_len (s ∷ t ∷ ss) = length s + sep_len + join_size sep_len (t ∷ ss)

-- `xt_array_join`; a write out of the buffer is `none`, and the text ends at a zero byte.
abbrev pub joined : List ℕ → Option (List (List ℕ)) → Option (List ℕ)
joined sep none = none
joined sep (some ss) =
    let bytes = join_loop sep ss in
    if ltb (join_size (length sep) ss) (length bytes) then none else some (c_str bytes)

unfoldable pub array_join : Objects → ℕ → List ℕ → List ℕ → Option (List ℕ)
unfolding obj_to_string join_size join_loop
array_join o fuel elements sep = joined sep (texts_of o fuel elements)

-- `xt_convert_to_int`
unfoldable pub convert_to_int : Memory → ℕ → ℕ
unfolding value_to_int
convert_to_int m v = from_int (value_to_int m v)

-- Whether `strstr` finds something.
abbrev pub is_found : Option (List ℕ × List ℕ) → Bool
is_found none = false
is_found (some r) = true

-- `xt_string_contains`; a null pointer is `none`.
unfoldable pub string_contains : Option (List ℕ) → Option (List ℕ) → Bool
unfolding strstr
string_contains none sub = false
string_contains (some s) none = false
string_contains (some s) (some sub) = is_found (strstr (c_str sub) s)
