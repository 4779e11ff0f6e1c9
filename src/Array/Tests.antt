-- ===== src/Array/Tests.antt =====
-- The array at concrete elements. The word 3 is the index 1, and the word 9 the index 4.
use atlanage.Prelude.{◌≡◌, refl, true, false, [], ◌∷◌, ◌++◌, some, arith, take, drop}
use atlanage.Word.{Memory, value_to_int}
use atlanage.Effect.{retain, Balanced}
use atlanage.Array.{Array, remove_at, insert}
use atlanage.Array.Laws.{insert-elements}
use atlanage.Array.Refs.{remove_at-Balanced, insert-Balanced}

abbrev memory : Memory
memory = record {
  type_id = λ p. 5;
  string_data = λ p. [];
  int_value = λ p. 0;
  float_to_int = λ p. 0;
  atoll = λ s. 0;
}

abbrev three : Array
three = record { elements = 3 ∷ 5 ∷ 7 ∷ []; capacity = 3; in_arena = false }

insert-elements_example :
    (b : Array) × (insert memory false (λ n. true) 5000 three 3 9 ≡ some (b, retain 9 ∷ []))
    × (b.elements
        ≡ take (value_to_int memory 3) (3 ∷ 5 ∷ 7 ∷ [])
          ++ 9 ∷ drop (value_to_int memory 3) (3 ∷ 5 ∷ 7 ∷ []))
unfolding value_to_int
insert-elements_example =
    insert-elements memory false (λ n. true) 5000 three 3 9 refl (λ n. refl) refl (omega arith)

insert-Balanced_example :
    (b : Array) × (insert memory false (λ n. true) 5000 three 3 9 ≡ some (b, retain 9 ∷ []))
    × Balanced (3 ∷ 5 ∷ 7 ∷ []) (retain 9 ∷ []) b.elements
unfolding value_to_int
insert-Balanced_example =
    insert-Balanced memory false (λ n. true) 5000 three 3 9 refl (λ n. refl) refl (omega arith)

remove_at-Balanced_example :
    let (b, es) = remove_at memory 5000 three 3 in Balanced (3 ∷ 5 ∷ 7 ∷ []) es b.elements
remove_at-Balanced_example = remove_at-Balanced memory 5000 three 3
