-- ===== src/Weak/Tests.antt =====
-- Two weak slots of the object 6000, and one of 6002.
use atlanage.Prelude.{◌≡◌, refl, [], ◌∷◌, ◌==◌, if◌then◌else◌}
use atlanage.Weak.{Weak, set_null, release_key, weak_init, dict_weak_init, weak_clear}

abbrev empty : Weak
empty = record { slots = []; cells = λ a. if a == 100 then 6000 else 6002 }

abbrev filled : Weak
unfolding weak_init dict_weak_init
filled = (dict_weak_init (weak_init (weak_init empty 100 6000) 108 6002) 5000 3 6000).0

clear_filled : (weak_clear 6000 filled).1 ≡ set_null 5000 3 ∷ release_key 3 ∷ []
unfolding weak_clear filled
clear_filled = refl

clear_cell_filled : (weak_clear 6000 filled).0.cells 100 ≡ 0
unfolding weak_clear filled
clear_cell_filled = refl
