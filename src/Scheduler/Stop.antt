-- ===== src/Scheduler/Stop.antt =====
-- When the loop of `xt_scheduler_run` ends.
use atlanage.Prelude.{ℕ, ◌≡◌, false, List, [], ◌∷◌, ◌++◌, length}
use atlanage.Scheduler.{Scheduler, fiber, timer_tick, is_waiting, wake_task}
use atlanage.Scheduler.Waking.{waiters}

-- No fiber sleeps, and none waits.
pub record IsIdle (s : Scheduler) : Type 0 where
  pub no_timer : length s.timers ≡ 0
  pub no_waiting : (j : ℕ) → is_waiting (fiber s j).status ≡ false

-- Other threads finish tasks, one after the other.
abbrev pub wake_all : List ℕ → Scheduler → Scheduler
wake_all [] s = s
wake_all (task ∷ tasks) s = wake_all tasks (wake_task s task)

-- The fibers that wait for these tasks, in the order in which they are woken.
abbrev pub late : List ℕ → Scheduler → List ℕ
late [] s = []
late (task ∷ tasks) s = waiters (length s.fibers) 0 task s ++ late tasks (wake_task s task)

-- The timers, the time and the times to wake up are the same.
record KeepsTimers (s u : Scheduler) : Type 0 where
  timers : u.timers ≡ s.timers
  now : u.now_us ≡ s.now_us
  times : (j : ℕ) → (fiber u j).wakeup_at ≡ (fiber s j).wakeup_at

-- What a round sees after its tick.
abbrev pub at_time : ℕ → Scheduler → Scheduler
at_time now s = timer_tick (record s { now_us = now }) now
