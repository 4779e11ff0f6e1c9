-- ===== src/Word/Tests.antt =====
-- The arithmetic at concrete words: 11 is the integer 5, and 2 ^ 64 - 5 is the integer -3.
use atlanage.Prelude.{◌-◌, ◌^◌, ◌≡◌, refl, [], arith}
use atlanage.Prelude.Int.{◌-ℤ◌}
use atlanage.Word.{Memory, to_int, signed, sub}
use atlanage.Word.Arithmetic.{sub-exact}

abbrev memory : Memory
memory = record {
  type_id = λ p. 1;
  string_data = λ p. [];
  int_value = λ p. 0;
  float_to_int = λ p. 0;
  atoll = λ s. 0;
}

sub-exact_example :
    signed (to_int (sub memory 11 (2 ^ 64 - 5)))
    ≡ signed (to_int 11) -ℤ signed (to_int (2 ^ 64 - 5))
unfolding to_int ◌-ℤ◌
sub-exact_example =
    sub-exact memory 11 (2 ^ 64 - 5) (omega arith) (omega arith) refl refl (ground arith)
