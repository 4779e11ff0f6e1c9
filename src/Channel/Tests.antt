-- ===== src/Channel/Tests.antt =====
-- Channels at 1000 with two slots.
use atlanage.Prelude.{◌≡◌, refl, true, none, [], ◌∷◌, arith}
use atlanage.Channel.{Channel, new, send, Turn, forever, receive_blocking}
use atlanage.Channel.Queue.{contents, IsValid}
use atlanage.Channel.Refine.{offer, poll, run, run_queue, new-IsValid, send_refines, run_refines}
use atlanage.Channel.Blocking.{AllValid, IsFound, IsOldest, receive_blocking-IsOldest}

-- A channel that holds 5.
abbrev one : Channel
one = (send 1000 (new 2) 5).0

new_two-IsValid : IsValid (new 2)
new_two-IsValid = (new-IsValid 2 (omega arith)).0

one-IsValid : IsValid one
one-IsValid = (send_refines 1000 refl (new 2) new_two-IsValid 5).0

run_refines_example :
    run 1000 one (offer 7 ∷ offer 9 ∷ poll ∷ poll ∷ poll ∷ [])
    ≡ run_queue one.capacity (contents one) (offer 7 ∷ offer 9 ∷ poll ∷ poll ∷ poll ∷ [])
run_refines_example =
    run_refines 1000 (offer 7 ∷ offer 9 ∷ poll ∷ poll ∷ poll ∷ []) one refl one-IsValid

-- Another thread sends 5 while the operation waits.
abbrev filled_turn : Turn
filled_turn = record { after_run = none; signalled = true; found = one }

filled-AllValid : AllValid (filled_turn ∷ [])
filled-AllValid = ((one-IsValid, λ c h. cc), tt)

receive_blocking-IsOldest_example :
    IsOldest
      (λ d. IsFound d (new 2) (filled_turn ∷ []))
      (receive_blocking 1000 (new 2) forever (filled_turn ∷ []))
receive_blocking-IsOldest_example =
    receive_blocking-IsOldest 1000 (filled_turn ∷ []) (new 2) forever new_two-IsValid
      filled-AllValid
