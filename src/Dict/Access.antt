-- ===== src/Dict/Access.antt =====
-- `xt_get_member`, which compiled programs call for `a.b`, against `xt_dict_get`.
use atlanage.Prelude.{
  ℕ, ◌≡◌, refl, false, not, ◌||◌, List, ◌==◌, if◌then◌else◌, Bool-cases, inl, inr, length, arith,
}
use atlanage.Word.{Memory, is_real_ptr, xt_null}
use atlanage.Dict.{
  Dict, type_dict, type_instance, type_result, type_socket, read, write, close, to_string, and_then,
  or_else, Member, plain, method, read_names, write_names, close_names, to_string_names, then_names,
  else_names, is_named, socket_member, result_member, get,
}

-- The methods of a socket here.
abbrev pub socket_method : List ℕ → Member
socket_method name =
    if is_named name read_names
    then method read
    else if is_named name write_names
    then method write
    else if is_named name close_names
    then method close
    else plain xt_null

-- `xt_get_member`
unfoldable pub get_member : Memory → ℕ → Dict → ℕ → Member
unfolding get
get_member m obj_val d k =
    if not (is_real_ptr obj_val)
    then plain xt_null
    else if m.type_id obj_val == type_dict || m.type_id obj_val == type_instance
    then get m obj_val d k
    else if m.type_id obj_val == type_socket
    then (if is_real_ptr k then socket_method (m.string_data k) else plain xt_null)
    else if m.type_id obj_val == type_result
    then (if is_real_ptr k then result_member (m.string_data k) else plain xt_null)
    else plain xt_null

-- The one method that only `xt_dict_get` knows.
abbrev pub without_to_string : Member → Member
without_to_string (plain v) = plain v
without_to_string (method read) = method read
without_to_string (method write) = method write
without_to_string (method close) = method close
without_to_string (method to_string) = plain xt_null
without_to_string (method and_then) = method and_then
without_to_string (method or_else) = method or_else

socket_method_lem : (name : List ℕ) → socket_method name ≡ without_to_string (socket_member name)
socket_method_lem name = elim (Bool-cases (is_named name read_names)) [
  | inl a ↦ rw a refl
  | inr a ↦ elim (Bool-cases (is_named name write_names)) [
    | inl b ↦ rw (a, b) refl
    | inr b ↦ elim (Bool-cases (is_named name close_names)) [
      | inl c ↦ rw (a, b, c) refl
      | inr c ↦ elim (Bool-cases (is_named name to_string_names)) [
        | inl e ↦ rw (a, b, c, e) refl
        | inr e ↦ rw (a, b, c, e) refl
      ]
    ]
  ]
]

result_member_lem : (name : List ℕ) → result_member name ≡ without_to_string (result_member name)
result_member_lem name = elim (Bool-cases (is_named name then_names)) [
  | inl a ↦ rw a refl
  | inr a ↦ elim (Bool-cases (is_named name else_names)) [
    | inl b ↦ rw (a, b) refl
    | inr b ↦ rw (a, b) refl
  ]
]

-- Whatever the object and the name, `xt_get_member` answers what `xt_dict_get` does, but null for the
-- method of a socket that gives its text.
pub get_member-get :
    (m : Memory) (obj_val : ℕ) (d : Dict) (k : ℕ)
    → get_member m obj_val d k ≡ without_to_string (get m obj_val d k)
unfolding get_member get
get_member-get m obj_val d k = elim (Bool-cases (is_real_ptr obj_val)) [
  | inr r ↦ rw r refl
  | inl r ↦
      let t = m.type_id obj_val in
      elim (Bool-cases (t == type_socket)) [
        | inl s ↦
            let a : (t == type_dict) ≡ false = ground (arith, s) in
            let b : (t == type_instance) ≡ false = ground (arith, s) in
            elim (Bool-cases (is_real_ptr k)) [
              | inl n ↦ rw (r, s, a, b, n) (socket_method_lem (m.string_data k))
              | inr n ↦ rw (r, s, a, b, n) refl
            ]
        | inr s ↦ elim (Bool-cases (t == type_result)) [
          | inl u ↦
              let a : (t == type_dict) ≡ false = ground (arith, u) in
              let b : (t == type_instance) ≡ false = ground (arith, u) in
              elim (Bool-cases (is_real_ptr k)) [
                | inl n ↦ rw (r, s, u, a, b, n) (result_member_lem (m.string_data k))
                | inr n ↦ rw (r, s, u, a, b, n) refl
              ]
          | inr u ↦ elim (Bool-cases (t == type_dict || t == type_instance)) [
            | inr a ↦ rw (r, s, u, a) refl
            | inl a ↦ elim (Bool-cases (length d.buckets == 0)) [
              | inl z ↦ rw (r, s, u, a, z) refl
              | inr z ↦ rw (r, s, u, a, z) refl
            ]
          ]
        ]
      ]
]
