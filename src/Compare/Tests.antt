-- ===== src/Compare/Tests.antt =====
-- The order at concrete values: texts at 6000 and 6002, which hold the same bytes, and at 6004.
use atlanage.Prelude.{◌≡◌, refl, true, false, [], ◌∷◌, ◌==◌, if◌then◌else◌}
use atlanage.Word.{Memory, type_string}
use atlanage.Compare.{eq_values, compare_values, strcmp}

abbrev memory : Memory
memory = record {
  type_id = λ p. type_string;
  string_data = λ p. if p == 6004 then b'c' ∷ [] else b'a' ∷ b'b' ∷ [];
  int_value = λ p. 0;
  float_to_int = λ p. 0;
  atoll = λ s. 0;
}

same_bytes : eq_values memory 6000 6002 ≡ true
unfolding eq_values compare_values strcmp
same_bytes = refl

other_bytes : eq_values memory 6000 6004 ≡ false
unfolding eq_values compare_values strcmp
other_bytes = refl
