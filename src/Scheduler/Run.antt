-- ===== src/Scheduler/Run.antt =====
-- A round of the loop of `xt_scheduler_run`. `poll` is what the function of a fiber does with the
-- scheduler, and whether it is done; `address` is where a fiber stands; `others` is what the other
-- threads do with it between the two times that a round holds the mutex. The flag `running` is 1
-- while the rounds go on.
use atlanage.Prelude.{
  ℕ, ◌+◌, ◌-◌, Bool, false, not, ◌&&◌, ◌||◌, List, [], ◌∷◌, none, some, ltb, ◌==◌, if◌then◌else◌,
  length,
}
use atlanage.Scheduler.{
  done, Fiber, Scheduler, fiber, set_fiber, wakeup, wake_task, dequeue, timer_tick, is_waiting,
}

-- Whether `xt_scheduler_run` comes to its loop, by the flag `running`.
unfoldable pub enters : Bool → Scheduler → Bool
enters running s = not (length s.fibers == 0) && not running

-- What the loop does at the end of a round: it goes on, sleeps for some microseconds, looks again
-- soon for what other threads do, or ends.
pub data Round : Type 0 where
  goes_on : Scheduler → Round
  sleeps : ℕ → Scheduler → Round
  looks_again : Scheduler → Round
  stops : Scheduler → Round

-- The loop that looks for a fiber that waits.
unfoldable pub has_waiting : List Fiber → Bool
has_waiting [] = false
has_waiting (f ∷ fs) = is_waiting f.status || has_waiting fs

abbrev pub next_wake : Scheduler → ℕ
next_wake s = if length s.timers == 0 then 0 else wakeup s s.timers 0 - s.now_us

-- A round with no fiber that is ready.
unfoldable pub idle : Scheduler → Round
unfolding has_waiting
idle s =
    if next_wake s == 0
    then (if has_waiting s.fibers then looks_again s else stops s)
    else sleeps (if ltb (next_wake s) 100 then 100 else next_wake s) s

-- A round with the fiber `i`.
unfoldable pub run_fiber : (ℕ → Scheduler → Bool × Scheduler) → (ℕ → ℕ) → ℕ → Scheduler → Scheduler
unfolding wake_task
run_fiber poll address i s =
    let (result, polled) = poll i (record s { current = some i }) in
    let left = record polled { current = none } in
    let over = set_fiber left i (record (fiber left i) { status = done }) in
    if result then wake_task (wake_task over (address i)) (i + 1) else left

unfoldable pub run_round :
    (ℕ → Scheduler → Bool × Scheduler) → (ℕ → ℕ) → (Scheduler → Scheduler) → ℕ → Scheduler → Round
unfolding timer_tick dequeue idle run_fiber
run_round poll address others now s =
    let (first, s') = dequeue (timer_tick (record s { now_us = now }) now) in
    elim first [ none ↦ idle (others s') | some i ↦ goes_on (run_fiber poll address i s') ]
