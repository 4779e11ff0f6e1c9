-- ===== src/Scheduler.antt =====
-- runtime/xt_runtime.c and runtime/xt_scheduler.h: the fibers of the scheduler, its ready queue and
-- the heap of its timers. A fiber is named by its index, and null is `none`; each operation runs
-- under the mutex of the scheduler, and so is one step. A fiber out of bounds reads as `blank`. Times
-- are not negative.
mod Link
mod Queue
mod Fifo
mod Waking
mod Fair
mod Results
mod Free
mod Run
mod Stop
mod Wake
mod Timers
mod Sift
mod Tick
mod Due
mod Woken
mod Sleep
mod Tests
mod QueueTests
use atlanage.Prelude.{
  ℕ, zero, suc, ◌+◌, ◌-◌, ◌*◌, ◌/◌, Bool, true, false, ◌&&◌, List, [], ◌∷◌, ◌++◌, Option, none,
  some, ltb, leb, ◌==◌, if◌then◌else◌, length, get_or, set, take,
}

-- `XT_FIBER_READY` to `XT_FIBER_DONE`
pub data Status : Type 0 where
  ready waiting sleeping done : Status

-- `XTFiber`, without its state.
pub record Fiber : Type 0 where
  pub status : Status
  pub wakeup_at : ℕ
  pub wait_target : ℕ
  pub result : ℕ
  pub result_consumed : Bool
  pub in_free_list : Bool
  pub next : Option ℕ

-- `XTScheduler` with the stack of free indices.
pub record Scheduler : Type 0 where
  pub fibers : List Fiber
  pub ready_head : Option ℕ
  pub ready_tail : Option ℕ
  pub timers : List ℕ
  pub now_us : ℕ
  pub current : Option ℕ
  pub free_ids : List ℕ

abbrev pub max_fibers : ℕ
max_fibers = 65535

abbrev pub timer_heap_size : ℕ
timer_heap_size = 8192

abbrev pub blank : Fiber
blank = record {
  status = ready;
  wakeup_at = 0;
  wait_target = 0;
  result = 0;
  result_consumed = false;
  in_free_list = false;
  next = none;
}

abbrev pub fiber : Scheduler → ℕ → Fiber
fiber s i = get_or s.fibers i blank

abbrev pub set_fiber : Scheduler → ℕ → Fiber → Scheduler
set_fiber s i f = record s { fibers = set s.fibers i f }

-- `_sched_enqueue_nolock`
unfoldable pub enqueue : Scheduler → ℕ → Scheduler
enqueue s i =
    let cleared = set_fiber s i (record (fiber s i) { next = none }) in
    elim (s.ready_tail) [
      | some t ↦ record (set_fiber cleared t (record (fiber cleared t) { next = some i })) {
        ready_tail = some i;
      }
      | none ↦ record cleared { ready_head = some i; ready_tail = some i }
    ]

-- `xt_scheduler_dequeue`
unfoldable pub dequeue : Scheduler → Option ℕ × Scheduler
dequeue s = elim (s.ready_head) [
  | none ↦ (none, s)
  | some i ↦
      let after = (fiber s i).next in
      let tail : Option ℕ = elim after [ none ↦ none | some j ↦ s.ready_tail ] in
      (
        some i,
        record (set_fiber s i (record (fiber s i) { next = none })) {
          ready_head = after;
          ready_tail = tail;
        },
      )
]

abbrev pub is_waiting : Status → Bool
is_waiting ready = false
is_waiting waiting = true
is_waiting sleeping = false
is_waiting done = false

-- The loop of `xt_scheduler_wake_task` from fiber `i` on.
unfoldable pub wake_from : ℕ → ℕ → ℕ → Scheduler → Scheduler
unfolding enqueue
wake_from zero i task s = s
wake_from (suc rounds) i task s =
    let f = fiber s i in
    let woken = enqueue (set_fiber s i (record f { status = ready; wait_target = 0 })) i in
    wake_from rounds (i + 1) task
      (if is_waiting f.status && (f.wait_target == task) then woken else s)

-- `xt_scheduler_wake_task`
unfoldable pub wake_task : Scheduler → ℕ → Scheduler
unfolding wake_from
wake_task s task = wake_from (length s.fibers) 0 task s

-- `xt_scheduler_wait_task`
unfoldable pub wait_task : Scheduler → ℕ → Scheduler
wait_task s task = elim (s.current) [
  | none ↦ s
  | some i ↦ set_fiber s i (record (fiber s i) { status = waiting; wait_target = task })
]

-- `xt_scheduler_yield`
unfoldable pub yield_fiber : Scheduler → Scheduler
unfolding enqueue
yield_fiber s = elim (s.current) [
  | none ↦ s
  | some i ↦ enqueue (set_fiber s i (record (fiber s i) { status = ready })) i
]

-- `xt_scheduler_spawn`; the index, or null if there is no room for a fiber. A new fiber is blank.
unfoldable pub spawn : Scheduler → Option ℕ × Scheduler
unfolding enqueue
spawn s = elim (s.free_ids) [
  | i ∷ ids ↦ (some i, enqueue (set_fiber (record s { free_ids = ids }) i blank) i)
  | [] ↦
      let n = length s.fibers in
      if leb max_fibers n
      then (none, s)
      else (some n, enqueue (record s { fibers = s.fibers ++ blank ∷ [] }) n)
]

abbrev pub wakeup : Scheduler → List ℕ → ℕ → ℕ
wakeup s heap k = (fiber s (get_or heap k 0)).wakeup_at

abbrev pub swap : List ℕ → ℕ → ℕ → List ℕ
swap heap i j = set (set heap i (get_or heap j 0)) j (get_or heap i 0)

-- `_sched_timer_up`, on fuel.
unfoldable pub timer_up : ℕ → Scheduler → List ℕ → ℕ → List ℕ
timer_up zero s heap k = heap
timer_up (suc fuel) s heap k =
    let p = (k - 1) / 2 in
    let rest = timer_up fuel s (swap heap k p) p in
    if k == 0 then heap else if leb (wakeup s heap p) (wakeup s heap k) then heap else rest

-- The index that holds the earliest of a timer and its children.
abbrev pub earliest : Scheduler → List ℕ → ℕ → ℕ
earliest s heap k =
    let l = k * 2 + 1 in
    let r = k * 2 + 2 in
    let n = length heap in
    let m = if ltb l n && ltb (wakeup s heap l) (wakeup s heap k) then l else k in
    if ltb r n && ltb (wakeup s heap r) (wakeup s heap m) then r else m

-- `_sched_timer_down`, on fuel.
unfoldable pub timer_down : ℕ → Scheduler → List ℕ → ℕ → List ℕ
timer_down zero s heap k = heap
timer_down (suc fuel) s heap k =
    let m = earliest s heap k in
    let rest = timer_down fuel s (swap heap k m) m in if m == k then heap else rest

-- `xt_scheduler_timer_add`; `none` ends the program.
unfoldable pub timer_add : Scheduler → ℕ → ℕ → Option Scheduler
unfolding timer_up
timer_add s i wakeup_time =
    let s' = set_fiber s i (record (fiber s i) { wakeup_at = wakeup_time; status = sleeping }) in
    let n = length s.timers in
    if leb timer_heap_size n
    then none
    else some (record s' { timers = timer_up (n + 1) s' (s.timers ++ i ∷ []) n })

-- `xt_scheduler_sleep_us`
unfoldable pub sleep_us : Scheduler → ℕ → Option Scheduler
unfolding timer_add
sleep_us s us = elim (s.current) [ none ↦ some s | some i ↦ timer_add s i (s.now_us + us) ]

-- The removal of the first timer: the last one takes its place and sinks.
unfoldable pub pop_timer : Scheduler → List ℕ
unfolding timer_down
pop_timer s =
    let n = length s.timers - 1 in
    let heap = take n (set s.timers 0 (get_or s.timers n 0)) in
    if n == 0 then heap else timer_down n s heap 0

-- The loop of `xt_scheduler_timer_tick`, on fuel: each round takes a timer.
unfoldable pub tick_loop : ℕ → Scheduler → ℕ → Scheduler
unfolding pop_timer enqueue
tick_loop zero s now = s
tick_loop (suc fuel) s now =
    let i = get_or s.timers 0 0 in
    let popped = record s { timers = pop_timer s } in
    let woken = enqueue (set_fiber popped i (record (fiber popped i) { status = ready })) i in
    let rest = tick_loop fuel woken now in
    if length s.timers == 0 then s else if ltb now (fiber s i).wakeup_at then s else rest

-- `xt_scheduler_timer_tick`
unfoldable pub timer_tick : Scheduler → ℕ → Scheduler
unfolding tick_loop
timer_tick s now = tick_loop (length s.timers) s now
