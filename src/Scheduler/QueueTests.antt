-- ===== src/Scheduler/QueueTests.antt =====
-- Runs of the ready queue.
use atlanage.Prelude.{ℕ, zero, suc, true, false, ◌≡◌, refl, none, some, arith, [], ◌∷◌}
use atlanage.Scheduler.{
  Scheduler, waiting, blank, wake_task, enqueue, dequeue, yield_fiber, fiber, is_waiting,
}
use atlanage.Scheduler.Fair.{running, yield_fiber-IsReady}
use atlanage.Scheduler.Queue.{has, IsQueue}
use atlanage.Scheduler.Fifo.{put, get, perform, perform-fifo}
use atlanage.Scheduler.Waking.{IsReady, wake_task-IsReady}

-- Three fibers, of which the second one is queued.
abbrev one_queued : Scheduler
one_queued = record {
  fibers =
      record blank { status = waiting; wait_target = 9 }
      ∷ blank
      ∷ record blank { status = waiting; wait_target = 9 }
      ∷ [];
  ready_head = some 1;
  ready_tail = some 1;
  timers = [];
  now_us = 0;
  current = none;
  free_ids = [];
}

one_queued-IsQueue : IsQueue one_queued (1 ∷ [])
one_queued-IsQueue = record { links = (refl, omega arith, refl, refl); tail = refl }

perform-fifo_example :
    ((perform (put 0 ∷ get ∷ put 2 ∷ get ∷ get ∷ get ∷ put 1 ∷ []) one_queued).0
      ≡ some 1 ∷ some 0 ∷ some 2 ∷ none ∷ [])
    × IsQueue (perform (put 0 ∷ get ∷ put 2 ∷ get ∷ get ∷ get ∷ put 1 ∷ []) one_queued).1 (1 ∷ [])
perform-fifo_example =
    perform-fifo (put 0 ∷ get ∷ put 2 ∷ get ∷ get ∷ get ∷ put 1 ∷ []) one_queued (1 ∷ [])
      one_queued-IsQueue refl

-- A fiber that is enqueued twice cuts the links of the fibers behind it.
enqueued_twice : (dequeue (enqueue one_queued 1)).0 ≡ some 1
unfolding dequeue enqueue
enqueued_twice = refl

fiber_lost : (dequeue (dequeue (enqueue (enqueue one_queued 0) 1)).1).0 ≡ none
unfolding dequeue enqueue
fiber_lost = refl

wake_task-IsReady_example : IsReady (wake_task one_queued 9) (1 ∷ 0 ∷ 2 ∷ [])
wake_task-IsReady_example = wake_task-IsReady one_queued (1 ∷ []) 9 (record {
  queued = one_queued-IsQueue;
  awake = λ j m. let e : j ≡ 1 = ground (arith, m) in rw e refl;
})

-- The second fiber runs while the first and the third are queued, and yields.
abbrev all_queued : Scheduler
all_queued = record one_queued {
  fibers = record blank { next = some 2 } ∷ record blank { next = some 0 } ∷ blank ∷ [];
  ready_tail = some 2;
}

all_awake : (j : ℕ) → has j (1 ∷ 0 ∷ 2 ∷ []) ≡ true → is_waiting (fiber all_queued j).status ≡ false
all_awake zero m = refl
all_awake (suc zero) m = refl
all_awake (suc (suc zero)) m = refl
all_awake (suc (suc (suc j))) m = refl

yield_fiber-IsReady_example : IsReady (yield_fiber (running all_queued)) (0 ∷ 2 ∷ 1 ∷ [])
yield_fiber-IsReady_example = yield_fiber-IsReady all_queued 1 (0 ∷ 2 ∷ []) (record {
  queued = record {
    links = (refl, omega arith, refl, (refl, omega arith, refl, (refl, omega arith, refl, refl)));
    tail = refl;
  };
  awake = all_awake;
})
