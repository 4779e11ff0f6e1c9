-- ===== src/Bytes/Tests.antt =====
-- Bytes appended to a memory of one byte, and to one of none.
use atlanage.Prelude.{◌≡◌, refl, ◌∷◌, [], some, none, arith}
use atlanage.Bytes.{Bytes, new, append, append_all}
use atlanage.Bytes.Growth.{IsBytes, append_all-IsBytes}

append_all-IsBytes_example :
    (b' : Bytes) × (append_all (new 1) (5 ∷ 6 ∷ 7 ∷ []) ≡ some b')
    × (b'.data_bytes ≡ 5 ∷ 6 ∷ 7 ∷ [])
    × IsBytes 1 b'
unfolding new
append_all-IsBytes_example =
    append_all-IsBytes 1 (5 ∷ 6 ∷ 7 ∷ []) (new 1)
      (record { some_room = omega arith; fits = omega arith; small = omega arith }) (omega arith)

-- A capacity of 0 is doubled to 0, and the byte is written behind the memory.
no_room : append (new 0) 5 ≡ none
unfolding append new
no_room = refl
