-- ===== src/Convert/Tests.antt =====
-- Texts of values: 7 is the integer 3, and 2 ^ 64 - 5 the integer -3. The text "-3" is at 5000, a
-- failure with the integer 3 at 6000.
use atlanage.Prelude.{
  ◌-◌, ◌^◌, ◌≡◌, ◌↔◌, refl, true, false, [], ◌∷◌, ◌++◌, some, arith, ◌==◌, if◌then◌else◌,
}
use atlanage.Word.{type_string, to_int}
use atlanage.Dict.{type_result}
use atlanage.Json.Value.{decimal, digits, print_int}
use atlanage.Convert.Numbers.{ascii_to_int, int64}
use atlanage.Convert.{
  Objects, obj_to_string, convert_to_int, string_contains, array_join, failure_text,
}
use atlanage.Convert.Reading.{convert_to_int-text}
use atlanage.Convert.Contains.{Occurs, string_contains-Occurs}

abbrev minus_three : Objects
minus_three = record {
  memory = record {
    type_id = λ p. if p == 5000 then type_string else type_result;
    string_data = λ p. b'-' ∷ b'3' ∷ [];
    int_value = λ p. 0;
    float_to_int = λ p. 0;
    atoll = λ bytes. int64 (ascii_to_int bytes);
  };
  float_text = λ p. [];
  is_success = λ p. false;
  value = λ p. 0;
  error = λ p. 7;
}

convert_to_int-text_example : convert_to_int minus_three.memory 5000 ≡ 2 ^ 64 - 5
unfolding obj_to_string decimal digits print_int to_int
convert_to_int-text_example =
    convert_to_int-text minus_three 0 (2 ^ 64 - 5) 5000 (record { reads = λ bytes. refl })
      (omega arith) refl refl refl refl

failure_of_three : obj_to_string minus_three 2 6000 ≡ some (failure_text ++ b'3' ∷ b')' ∷ [])
unfolding obj_to_string decimal digits print_int to_int
failure_of_three = refl

three_and_minus_three :
    array_join minus_three 1 (7 ∷ 5000 ∷ []) (b',' ∷ []) ≡ some (b'3' ∷ b',' ∷ b'-' ∷ b'3' ∷ [])
unfolding array_join decimal digits print_int to_int
three_and_minus_three = refl

string_contains-Occurs_example :
    (string_contains (some (b'a' ∷ b'b' ∷ b'c' ∷ [])) (some (b'b' ∷ b'c' ∷ [])) ≡ true)
    ↔ Occurs (b'b' ∷ b'c' ∷ []) (b'a' ∷ b'b' ∷ b'c' ∷ [])
string_contains-Occurs_example = string_contains-Occurs (b'a' ∷ b'b' ∷ b'c' ∷ []) (b'b' ∷ b'c' ∷ [])
