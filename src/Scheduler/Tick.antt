-- ===== src/Scheduler/Tick.antt =====
-- `xt_scheduler_timer_add` and `xt_scheduler_timer_tick` against the timers as a collection.
use atlanage.Prelude.{
  ℕ, suc, ◌+◌, ◌-◌, ◌≡◌, ◌∙◌, ◌<◌, refl, ap, true, false, List, arith, ◌==◌, if◌then◌else◌, length,
  length-set, length-take, get_or, get_or-set, get_or-set_any, set, take, Option-cases, ℕ_discrete,
  inl, inr,
}
use atlanage.Scheduler.{
  Scheduler, Status, ready, Fiber, blank, fiber, set_fiber, enqueue, pop_timer,
}
use atlanage.Scheduler.Link.{unlinked, unlinked-enqueue, length-enqueue}
use atlanage.Scheduler.Timers.{parent, IsHeap, occurs, one_if, occurs-set, occurs-take, get-take}
use atlanage.Scheduler.Sift.{IsHigh, timer_down-IsSifted}

-- The timers without the first.
pub record IsPopped (s : Scheduler) (b : List ℕ) : Type 0 where
  pub heap : IsHeap s b
  pub size : length b + 1 ≡ length s.timers
  pub same : (x : ℕ) → occurs x b + one_if x (get_or s.timers 0 0) ≡ occurs x s.timers

module _ (s : Scheduler) (h : IsHeap s s.timers) (n : ℕ) (e : length s.timers ≡ suc n) where
  moved : List ℕ
  moved = take n (set s.timers 0 (get_or s.timers n 0))

  length-moved : length moved ≡ n
  unfolding moved
  length-moved = omega (
    arith,
    length-take n (set s.timers 0 (get_or s.timers n 0)),
    length-set s.timers 0 (get_or s.timers n 0),
    e,
  )

  get-moved : (k : ℕ) → 0 < k → k < n → get_or moved k 0 ≡ get_or s.timers k 0
  unfolding moved
  get-moved k p q =
      get-take (set s.timers 0 (get_or s.timers n 0)) n k q
      ∙ ground (arith, p, get_or-set s.timers 0 k (get_or s.timers n 0) 0 (omega (arith, e)))

  occurs-moved : (x : ℕ) → occurs x moved + one_if x (get_or s.timers 0 0) ≡ occurs x s.timers
  unfolding moved
  occurs-moved x =
      let v = get_or s.timers n 0 in
      let b = set s.timers 0 v in
      let l = get_or-set s.timers 0 n v 0 (omega (arith, e)) in
      let f : get_or b n 0 ≡ v = ground (arith, l) in
      omega (
        arith,
        occurs-set x s.timers 0 v (omega (arith, e)),
        rw f at (occurs-take x n b (omega (arith, length-set s.timers 0 v, e))),
      )

  moved-IsHigh : 0 < n → IsHigh s moved 0
  moved-IsHigh p = record {
    inside = omega (arith, length-moved);
    edges = λ c q r t. ground (arith, length-moved, get-moved c, get-moved (parent c), h c, e);
    bridged = λ c q r t u. absurd (omega arith);
  }

  pub pop_timer-IsPopped : IsPopped s (pop_timer s)
  unfolding pop_timer moved
  pop_timer-IsPopped =
      let m : length s.timers - 1 ≡ n = omega (arith, e) in
      elim (ℕ_discrete n 0) [
        | yes z ↦
            let b : (n == 0) ≡ true = ground (arith, z) in
            rw (m, b)
              record {
                heap = λ c p q. absurd (omega (arith, length-moved));
                size = omega (arith, length-moved, e);
                same = occurs-moved;
              }
        | no z ↦
            let b : (n == 0) ≡ false = ground (arith, z) in
            let d =
              timer_down-IsSifted s n moved 0 (omega (arith, length-moved))
                (moved-IsHigh (omega arith)) in
            rw (m, b)
              record {
                heap = d.heap;
                size = omega (arith, d.size, length-moved, e);
                same = λ x. omega (arith, d.same x, occurs-moved x);
              }
      ]

-- A round of the tick: the first timer is taken, and its fiber is ready and queued.
abbrev pub popped : Scheduler → Scheduler
popped s = record s { timers = pop_timer s }

abbrev pub ready_fiber : Scheduler → ℕ → Fiber
ready_fiber s i = record (fiber s i) { status = ready }

abbrev pub after_round : Scheduler → Scheduler
after_round s = let i = get_or s.timers 0 0 in enqueue (set_fiber (popped s) i (ready_fiber s i)) i

pub timers-enqueue : (s : Scheduler) (i : ℕ) → (enqueue s i).timers ≡ s.timers
unfolding enqueue
timers-enqueue s i = elim (Option-cases (s.ready_tail)) [
  | inl e ↦ rw e refl
  | inr (t, e) ↦ rw e refl
]

pub timers-after_round : (s : Scheduler) → (after_round s).timers ≡ pop_timer s
timers-after_round s =
    let i = get_or s.timers 0 0 in timers-enqueue (set_fiber (popped s) i (ready_fiber s i)) i

pub length-after_round : (s : Scheduler) → length (after_round s).fibers ≡ length s.fibers
length-after_round s =
    let i = get_or s.timers 0 0 in
    length-enqueue (set_fiber (popped s) i (ready_fiber s i)) i
    ∙ length-set s.fibers i (ready_fiber s i)

abbrev pub times : Fiber → ℕ × Status
times f = (f.wakeup_at, f.status)

unlinked-ready :
    (s : Scheduler) (i j : ℕ)
    → unlinked (if i == j then ready_fiber s i else fiber s j)
      ≡ unlinked (record (fiber s j) { status = if i == j then ready else (fiber s j).status })
unlinked-ready s i j = elim (ℕ_discrete i j) [
  | yes e ↦ let b : (i == j) ≡ true = ground (arith, e) in rw b (rw e refl)
  | no e ↦ let b : (i == j) ≡ false = ground (arith, e) in rw b refl
]

pub unlinked-after_round :
    (s : Scheduler) (j : ℕ)
    → j < length s.fibers
    → unlinked (fiber (after_round s) j)
      ≡ unlinked (record (fiber s j) {
        status = if get_or s.timers 0 0 == j then ready else (fiber s j).status;
      })
unlinked-after_round s j l =
    let i = get_or s.timers 0 0 in
    let g : fiber (set_fiber (popped s) i (ready_fiber s i)) j
        ≡ (if i == j then ready_fiber s i else fiber s j) =
      ground (arith, l, get_or-set_any s.fibers i j (ready_fiber s i) blank) in
    unlinked-enqueue (set_fiber (popped s) i (ready_fiber s i)) i j
    ∙ ap unlinked g
    ∙ unlinked-ready s i j

pub wakeup_at-after_round :
    (s : Scheduler) (j : ℕ) → (fiber (after_round s) j).wakeup_at ≡ (fiber s j).wakeup_at
wakeup_at-after_round s j =
    let i = get_or s.timers 0 0 in
    ap (λ (f : Fiber). f.wakeup_at)
      (unlinked-enqueue (set_fiber (popped s) i (ready_fiber s i)) i j)
    ∙ ground (arith, get_or-set_any s.fibers i j (ready_fiber s i) blank)

pub after_round-IsHeap :
    (s : Scheduler) → IsHeap s (pop_timer s) → IsHeap (after_round s) (after_round s).timers
after_round-IsHeap s h c p q =
    let i = get_or s.timers 0 0 in
    let t = timers-enqueue (set_fiber (popped s) i (ready_fiber s i)) i in
    rw
      (
        t,
        wakeup_at-after_round s (get_or (pop_timer s) c 0),
        wakeup_at-after_round s (get_or (pop_timer s) (parent c) 0),
      )
      (h c p (rw t at q))
