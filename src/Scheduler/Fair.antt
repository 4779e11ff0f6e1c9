-- ===== src/Scheduler/Fair.antt =====
-- A fiber that runs and yields.
use atlanage.Prelude.{
  ℕ, ◌≡◌, ◌∙◌, ap, List, [], ◌∷◌, ◌++◌, none, some, arith, length-set, get_or-set_any,
}
use atlanage.Scheduler.Fifo.{dequeue-cons, length-dequeue}
use atlanage.Scheduler.Waking.{IsReady, set-IsReady, enqueue-IsReady}
use atlanage.Scheduler.{
  Scheduler, ready, Fiber, blank, fiber, set_fiber, dequeue, is_waiting, yield_fiber,
}

status-dequeue :
    (s : Scheduler) (i j : ℕ)
    → s.ready_head ≡ some i
    → (fiber (dequeue s).1 j).status ≡ (fiber s j).status
unfolding dequeue
status-dequeue s i j e =
    rw e (ground (arith, get_or-set_any s.fibers i j (record (fiber s i) { next = none }) blank))

dequeue-IsReady : (s : Scheduler) (i : ℕ) (q : List ℕ) → IsReady s (i ∷ q) → IsReady (dequeue s).1 q
dequeue-IsReady s i q h =
    let (e, b, out, rest) = h.queued.links in
    record {
      queued = (dequeue-cons s i q h.queued).1;
      awake = λ j m. ap is_waiting (status-dequeue s i j e) ∙ h.awake j (ground (arith, m));
    }

-- The fiber that was taken runs.
abbrev pub running : Scheduler → Scheduler
running s = record (dequeue s).1 { current = (dequeue s).0 }

-- A fiber that is taken from the ready queue, runs, and calls `xt_scheduler_yield` stands behind all
-- the fibers that were queued behind it, whose order stays.
pub yield_fiber-IsReady :
    (s : Scheduler) (i : ℕ) (q : List ℕ)
    → IsReady s (i ∷ q)
    → IsReady (yield_fiber (running s)) (q ++ i ∷ [])
unfolding yield_fiber
yield_fiber-IsReady s i q h =
    let (e, b, out, rest) = h.queued.links in
    let taken = (dequeue-cons s i q h.queued).0 in
    let h' = dequeue-IsReady s i q h in
    let f : Fiber = record (fiber (dequeue s).1 i) { status = ready } in
    let n = length-dequeue s in
    let run : Scheduler = record (dequeue s).1 { current = some i } in
    let at_run : IsReady run q = record {
      queued = record { links = h'.queued.links; tail = h'.queued.tail };
      awake = h'.awake;
    } in
    let sizes = length-set (dequeue s).1.fibers i f in
    rw taken (
      enqueue-IsReady (set_fiber run i f) q i (set-IsReady run q i f at_run out)
        (omega (arith, n, sizes, b)) out
        (ground (arith, get_or-set_any (dequeue s).1.fibers i i f blank)))
