-- ===== src/Scheduler/Waking.antt =====
-- `xt_scheduler_wake_task` on the ready queue.
use atlanage.Prelude.{
  ℕ, zero, suc, ◌+◌, ◌≡◌, ◌≢◌, ◌≤◌, ◌<◌, ◌∙◌, refl, ap, ap₂, Bool, true, false, ◌&&◌, List, [], ◌∷◌,
  ◌++◌, append-nil, append_assoc, arith, Bool-cases, inl, inr, ◌==◌, if◌then◌else◌, length,
  length-set, get_or-set_any, ℕ_discrete,
}
use atlanage.Scheduler.Queue.{has, has-append, IsQueue, frame, enqueue-IsQueue}
use atlanage.Scheduler.Wake.{
  wait_state, wait_state-enqueue, after_round, length-after_round, wait_state-after_round,
}
use atlanage.Scheduler.{
  Scheduler, Status, ready, Fiber, blank, fiber, set_fiber, enqueue, is_waiting, wake_from,
  wake_task,
}

-- These fibers are the ready queue, in order, and none of them waits.
pub record IsReady (s : Scheduler) (q : List ℕ) : Type 0 where
  pub queued : IsQueue s q
  pub awake : (j : ℕ) → has j q ≡ true → is_waiting (fiber s j).status ≡ false

abbrev pub waits_for : ℕ → Status × ℕ → Bool
waits_for task (st, target) = is_waiting st && (target == task)

-- The fibers from `i` on that wait for the task.
abbrev pub waiters : ℕ → ℕ → ℕ → Scheduler → List ℕ
waiters zero i task s = []
waiters (suc rounds) i task s =
    let later = waiters rounds (i + 1) task s in
    if waits_for task (wait_state (fiber s i)) then i ∷ later else later

waiters-same :
    (rounds i task : ℕ) (s s' : Scheduler)
    → ((j : ℕ) → i ≤ j → wait_state (fiber s' j) ≡ wait_state (fiber s j))
    → waiters rounds i task s' ≡ waiters rounds i task s
waiters-same zero i task s s' same = refl
waiters-same (suc rounds) i task s s' same =
    ap₂ (λ b l. if b then i ∷ l else l) (ap (waits_for task) (same i (omega arith)))
      (waiters-same rounds (i + 1) task s s' (λ j b. same j (omega arith)))

-- A fiber that waits is not in the queue.
has-waits :
    (s : Scheduler) (q : List ℕ) (i task : ℕ)
    → IsReady s q
    → waits_for task (wait_state (fiber s i)) ≡ true
    → has i q ≡ false
has-waits s q i task h w = elim (Bool-cases (has i q)) [
  | inl y ↦ ground (arith, w, h.awake i y)
  | inr n ↦ n
]

pub ne_of_has : (i j : ℕ) (q : List ℕ) → has j q ≡ true → has i q ≡ false → i ≢ j
ne_of_has i j q m out e = cc (m, out, ap (λ k. has k q) e)

-- A write to a fiber that is not queued leaves the queue alone.
pub set-IsReady :
    (s : Scheduler) (q : List ℕ) (i : ℕ) (f : Fiber)
    → IsReady s q
    → has i q ≡ false
    → IsReady (set_fiber s i f) q
set-IsReady s q i f h out =
    let spared : (j : ℕ) → has j q ≡ true → fiber (set_fiber s i f) j ≡ fiber s j = λ j m.
      let n = ne_of_has i j q m out in get_or-set_any s.fibers i j f blank ∙ ground (arith, n) in
    record {
      queued = record {
        links =
            frame s (set_fiber s i f) s.ready_head q (length-set s.fibers i f)
              (λ j m. ap (λ (g : Fiber). g.next) (spared j m)) h.queued.links;
        tail = h.queued.tail;
      };
      awake = λ j m. rw (spared j m) (h.awake j m);
    }

pub enqueue-IsReady :
    (s : Scheduler) (q : List ℕ) (i : ℕ)
    → IsReady s q
    → i < length s.fibers
    → has i q ≡ false
    → is_waiting (fiber s i).status ≡ false
    → IsReady (enqueue s i) (q ++ i ∷ [])
enqueue-IsReady s q i h inside out idle = record {
  queued = enqueue-IsQueue s q i h.queued inside out;
  awake = λ j m. ap (λ w. is_waiting (w.0)) (wait_state-enqueue s i j) ∙ elim (ℕ_discrete j i) [
    | yes e ↦ rw e idle
    | no n ↦ h.awake j (ground (arith, m, n, has-append j i q))
  ];
}

round-IsReady :
    (s : Scheduler) (q : List ℕ) (i task : ℕ)
    → IsReady s q
    → i < length s.fibers
    → IsReady
        (after_round i task s)
        (if waits_for task (wait_state (fiber s i)) then q ++ i ∷ [] else q)
round-IsReady s q i task h inside =
    let f : Fiber = record (fiber s i) { status = ready; wait_target = 0 } in
    let s' = set_fiber s i f in
    elim (Bool-cases (waits_for task (wait_state (fiber s i)))) [
      | inr n ↦ rw n h
      | inl y ↦
          let out = has-waits s q i task h y in
          rw y (
            enqueue-IsReady s' q i (set-IsReady s q i f h out)
              (omega (arith, length-set s.fibers i f)) out
              (ground (arith, get_or-set_any s.fibers i i f blank)))
    ]

append-if :
    (b : Bool) (q : List ℕ) (i : ℕ) (l : List ℕ)
    → (if b then q ++ i ∷ [] else q) ++ l ≡ q ++ (if b then i ∷ l else l)
append-if true q i l = append_assoc q (i ∷ []) l
append-if false q i l = refl

wake_from-IsReady :
    (rounds i task : ℕ) (s : Scheduler) (q : List ℕ)
    → i + rounds ≤ length s.fibers
    → IsReady s q
    → IsReady (wake_from rounds i task s) (q ++ waiters rounds i task s)
unfolding wake_from
wake_from-IsReady zero i task s q inside h = rw (append-nil q) h
wake_from-IsReady (suc rounds) i task s q inside h =
    let s' = after_round i task s in
    let n = length-after_round i task s in
    let later : waiters rounds (i + 1) task s' ≡ waiters rounds (i + 1) task s =
      waiters-same rounds (i + 1) task s s'
        (λ j b. wait_state-after_round i task s j (omega arith) ∙ ground arith) in
    let here = round-IsReady s q i task h (omega arith) in
    let rest =
      wake_from-IsReady rounds (i + 1) task s'
        (if waits_for task (wait_state (fiber s i)) then q ++ i ∷ [] else q) (omega (arith, n))
        here in
    rw (append-if (waits_for task (wait_state (fiber s i))) q i (waiters rounds (i + 1) task s)) at
      (rw later at rest)

-- `xt_scheduler_wake_task` enqueues the fibers that wait for the task, the lowest index first, behind the fibers of the ready queue, and leaves a queue whose fibers do not wait.
pub wake_task-IsReady :
    (s : Scheduler) (q : List ℕ) (task : ℕ)
    → IsReady s q
    → IsReady (wake_task s task) (q ++ waiters (length s.fibers) 0 task s)
unfolding wake_task
wake_task-IsReady s q task h = wake_from-IsReady (length s.fibers) 0 task s q (omega arith) h
