-- ===== src/Scheduler/Wake.antt =====
-- `xt_scheduler_wake_task` against the fibers that wait.
use atlanage.Prelude.{
  ℕ, zero, suc, ◌+◌, ◌≡◌, ◌≤◌, ◌<◌, ◌∙◌, ap, ◌&&◌, arith, ltb, leb, ◌==◌, if◌then◌else◌, length,
  length-set, get_or-set_any,
}
use atlanage.Scheduler.Link.{unlinked-enqueue, length-enqueue}
use atlanage.Scheduler.{
  Scheduler, Status, ready, Fiber, blank, fiber, set_fiber, enqueue, is_waiting, wake_from,
  wake_task,
}

-- What a fiber waits for is seen in these.
abbrev pub wait_state : Fiber → Status × ℕ
wait_state f = (f.status, f.wait_target)

pub wait_state-enqueue :
    (s : Scheduler) (i j : ℕ) → wait_state (fiber (enqueue s i) j) ≡ wait_state (fiber s j)
wait_state-enqueue s i j = ap wait_state (unlinked-enqueue s i j)

-- A fiber that waits for the task becomes ready, and waits for nothing.
abbrev pub woken : ℕ → Status × ℕ → Status × ℕ
woken task (st, target) = if is_waiting st && (target == task) then (ready, 0) else (st, target)

-- The scheduler after one round of the loop.
abbrev pub after_round : ℕ → ℕ → Scheduler → Scheduler
after_round i task s =
    if is_waiting (fiber s i).status && ((fiber s i).wait_target == task)
    then enqueue (set_fiber s i (record (fiber s i) { status = ready; wait_target = 0 })) i
    else s

pub length-after_round :
    (i task : ℕ) (s : Scheduler) → length (after_round i task s).fibers ≡ length s.fibers
length-after_round i task s =
    let f : Fiber = record (fiber s i) { status = ready; wait_target = 0 } in
    ground (arith, length-enqueue (set_fiber s i f) i, length-set s.fibers i f)

pub wait_state-after_round :
    (i task : ℕ) (s : Scheduler) (j : ℕ)
    → i < length s.fibers
    → wait_state (fiber (after_round i task s) j)
      ≡ (if i == j then woken task (wait_state (fiber s j)) else wait_state (fiber s j))
wait_state-after_round i task s j inside =
    let f : Fiber = record (fiber s i) { status = ready; wait_target = 0 } in
    ground (arith, wait_state-enqueue (set_fiber s i f) i j, get_or-set_any s.fibers i j f blank)

wake_from_lem :
    (rounds i task : ℕ) (s : Scheduler) (j : ℕ)
    → i + rounds ≤ length s.fibers
    → wait_state (fiber (wake_from rounds i task s) j) ≡ (
        if leb i j && ltb j (i + rounds)
        then woken task (wait_state (fiber s j))
        else wait_state (fiber s j))
unfolding wake_from
wake_from_lem zero i task s j inside = ground arith
wake_from_lem (suc rounds) i task s j inside =
    let s' = after_round i task s in
    let n = length-after_round i task s in
    let later = wake_from_lem rounds (i + 1) task s' j (omega (arith, n)) in
    let here = wait_state-after_round i task s j (omega arith) in later ∙ rw here (ground arith)

-- `xt_scheduler_wake_task` makes each fiber that waits for the task ready and clears what it waits
-- for, and changes neither of the two in another fiber.
pub wake_task-woken :
    (s : Scheduler) (task j : ℕ)
    → j < length s.fibers
    → wait_state (fiber (wake_task s task) j) ≡ woken task (wait_state (fiber s j))
unfolding wake_task
wake_task-woken s task j inside =
    wake_from_lem (length s.fibers) 0 task s j (omega arith) ∙ ground arith
