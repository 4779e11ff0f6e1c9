-- ===== src/Scheduler/Tests.antt =====
-- Runs of the scheduler.
use atlanage.Prelude.{
  Bool, true, ℕ, ◌+◌, ◌≡◌, refl, Option, none, some, arith, List, [], ◌∷◌, ◌==◌, if◌then◌else◌,
}
use atlanage.Scheduler.{
  Scheduler, ready, waiting, sleeping, done, spawn, blank, dequeue, wake_task, timer_tick,
  timer_add, fiber,
}
use atlanage.Scheduler.Results.{recycle, take_result}
use atlanage.Scheduler.Free.{HasFree, IsSpawned, spawn-IsSpawned}
use atlanage.Scheduler.Run.{
  Round, goes_on, sleeps, looks_again, stops, has_waiting, idle, run_round,
}
use atlanage.Scheduler.Stop.{wake_all}
use atlanage.Scheduler.Timers.{IsHeap, occurs, one_if}
use atlanage.Scheduler.Due.{IsTicked}
use atlanage.Scheduler.Woken.{IsTimed, IsWoken, timer_tick-IsWoken}
use atlanage.Scheduler.Sleep.{timer_add-tick}

-- Three fibers: the first two sleep until 50 and 20, and the third waits for the task 9.
abbrev three : Scheduler
three = record {
  fibers =
      record blank { status = sleeping; wakeup_at = 50 }
      ∷ record blank { status = sleeping; wakeup_at = 20 }
      ∷ record blank { status = waiting; wait_target = 9 }
      ∷ [];
  ready_head = none;
  ready_tail = none;
  timers = 1 ∷ 0 ∷ [];
  now_us = 0;
  current = none;
  free_ids = [];
}

-- The task is done, and then a tick at 60 wakes both sleepers, the earlier one first.
first_three : (dequeue (timer_tick (wake_task three 9) 60)).0 ≡ some 2
unfolding dequeue timer_tick wake_task
first_three = refl

second_three : (dequeue (dequeue (timer_tick (wake_task three 9) 60)).1).0 ≡ some 1
unfolding dequeue timer_tick wake_task
second_three = refl

third_three : (dequeue (dequeue (dequeue (timer_tick (wake_task three 9) 60)).1).1).0 ≡ some 0
unfolding dequeue timer_tick wake_task
third_three = refl

three-IsHeap : IsHeap three three.timers
three-IsHeap c p q = let e : c ≡ 1 = omega arith in rw e (omega arith)

three-IsTimed : IsTimed three []
unfolding occurs
three-IsTimed = record {
  heap = three-IsHeap;
  queued = record { links = refl; tail = refl };
  inside = λ x p. ground (arith, p);
  once = λ x. ground arith;
  apart = λ x p. refl;
}

timer_tick-IsWoken_example :
    IsTicked 30 three (timer_tick three 30)
    × ((woken : List ℕ) × IsWoken 30 three (timer_tick three 30) [] woken)
timer_tick-IsWoken_example = timer_tick-IsWoken three [] 30 three-IsTimed

two_free : occurs 2 three.timers ≡ 0
unfolding occurs
two_free = refl

-- The third fiber goes to sleep until 30.
abbrev three_asleep : Scheduler
three_asleep = record three {
  fibers =
      record blank { status = sleeping; wakeup_at = 50 }
      ∷ record blank { status = sleeping; wakeup_at = 20 }
      ∷ record blank { status = sleeping; wakeup_at = 30; wait_target = 9 }
      ∷ [];
  timers = 1 ∷ 0 ∷ 2 ∷ [];
}

asleep_run : timer_add three 2 30 ≡ some three_asleep
unfolding timer_add
asleep_run = refl

timer_add-tick_example :
    (s' : Scheduler) × (woken : List ℕ) × (timer_add three 2 30 ≡ some s')
    × IsTimed s' []
    × ((x : ℕ) → occurs x s'.timers ≡ occurs x three.timers + one_if x 2)
    × ((x : ℕ)
        → fiber s' x ≡ (
            if 2 == x
            then record blank { status = sleeping; wakeup_at = 30; wait_target = 9 }
            else fiber three x))
    × IsTimed (timer_tick s' 40) woken
    × (occurs 2 (timer_tick s' 40).timers ≡ 0)
    × (occurs 2 woken ≡ 1)
    × ((fiber (timer_tick s' 40) 2).status ≡ ready)
timer_add-tick_example = timer_add-tick three [] 2 30 40 (omega arith) three-IsTimed two_free refl

-- One fiber, which is done, and whose result has been taken.
abbrev one_free : Scheduler
one_free = record three {
  fibers = record blank { status = done; result_consumed = true; in_free_list = true } ∷ [];
  timers = [];
  free_ids = 0 ∷ [];
}

one_free-HasFree : HasFree one_free
unfolding occurs
one_free-HasFree = record {
  inside = λ i p. ground (arith, p);
  over = λ i p. let e : i ≡ 0 = ground (arith, p) in rw e refl;
  consumed = λ i p. let e : i ≡ 0 = ground (arith, p) in rw e refl;
  marked = λ i p. let e : i ≡ 0 = ground (arith, p) in rw e refl;
  once = λ i. ground arith;
}

spawn-IsSpawned_example : IsSpawned one_free 0 (spawn one_free).1
unfolding spawn
spawn-IsSpawned_example = spawn-IsSpawned one_free one_free-HasFree 0 refl

take_one :
    take_result (record three { fibers = record blank { status = done; result = 9 } ∷ [] }) 0 ≡ (
      9,
      record three {
        fibers = record blank { status = done; result_consumed = true; in_free_list = true } ∷ [];
        free_ids = 0 ∷ [];
      },
      [],
    )
unfolding take_result recycle
take_one = refl

-- A function that is done at once.
abbrev poll_once : ℕ → Scheduler → Bool × Scheduler
poll_once i s = (true, s)

-- A fiber that waits for the task 9, which another thread finishes when the queue has been looked at.
abbrev one_waits : Scheduler
one_waits = record three {
  fibers = record blank { status = waiting; wait_target = 9 } ∷ [];
  timers = [];
}

abbrev left_behind : Round → Option ℕ
left_behind (stops s) = s.ready_head
left_behind (goes_on s) = none
left_behind (sleeps us s) = none
left_behind (looks_again s) = none

one_left :
    left_behind (run_round poll_once (λ i. 5000 + i) (wake_all (9 ∷ [])) 7 one_waits) ≡ some 0
unfolding run_round timer_tick dequeue idle has_waiting wake_task
one_left = refl
