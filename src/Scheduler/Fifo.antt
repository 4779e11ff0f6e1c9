-- ===== src/Scheduler/Fifo.antt =====
-- The ready queue against an abstract queue, over any sequence of `_sched_enqueue_nolock` and
-- `xt_scheduler_dequeue`.
use atlanage.Prelude.{
  ℕ, ◌≡◌, ◌∙◌, refl, ap, Bool, true, ◌&&◌, not, List, [], ◌∷◌, ◌++◌, Option, none, some,
  Option-cases, inl, inr, arith, length, length-set, ltb,
}
use atlanage.Scheduler.Queue.{has, IsQueue, frame, next-set, enqueue-IsQueue}
use atlanage.Scheduler.Link.{length-enqueue}
use atlanage.Scheduler.{Scheduler, fiber, set_fiber, enqueue, dequeue}

-- The queue that remains once its first fiber is taken.
pub dequeue-nil : (s : Scheduler) → IsQueue s [] → dequeue s ≡ (none, s)
unfolding dequeue
dequeue-nil s h = rw (h.links) refl

pub length-dequeue : (s : Scheduler) → length (dequeue s).1.fibers ≡ length s.fibers
unfolding dequeue
length-dequeue s = elim (Option-cases (s.ready_head)) [
  | inl e ↦ rw e refl
  | inr (i, e) ↦ rw e (length-set s.fibers i (record (fiber s i) { next = none }))
]

pub dequeue-cons :
    (s : Scheduler) (i : ℕ) (q : List ℕ)
    → IsQueue s (i ∷ q)
    → ((dequeue s).0 ≡ some i) × IsQueue (dequeue s).1 q
unfolding dequeue
dequeue-cons s i [] h =
    let (e, b, out, after) = h.links in rw (e, after) (refl, record { links = refl; tail = refl })
dequeue-cons s i (k ∷ q) h =
    let (e, b, out, rest) = h.links in
    let s' = set_fiber s i (record (fiber s i) { next = none }) in
    let sizes = length-set s.fibers i (record (fiber s i) { next = none }) in
    let spared =
      frame s s' (some k) (k ∷ q) sizes (λ j m. next-set s i j none b ∙ ground (arith, m, out))
        (refl, rest.1, rest.2, rest.3) in
    rw (e, rest.0) (refl, record { links = spared; tail = h.tail })

-- What is done to the queue.
pub data Op : Type 0 where
  put : ℕ → Op
  get : Op

-- What the calls return.
abbrev pub perform : List Op → Scheduler → List (Option ℕ) × Scheduler
perform [] s = ([], s)
perform (put i ∷ ops) s = perform ops (enqueue s i)
perform (get ∷ ops) s =
    let taken = dequeue s in let rest = perform ops taken.1 in (taken.0 ∷ rest.0, rest.1)

-- The same calls on a list of fibers.
abbrev pub fifo : List Op → List ℕ → List (Option ℕ) × List ℕ
fifo [] q = ([], q)
fifo (put i ∷ ops) q = fifo ops (q ++ i ∷ [])
fifo (get ∷ ops) [] = let rest = fifo ops [] in (none ∷ rest.0, rest.1)
fifo (get ∷ ops) (i ∷ q) = let rest = fifo ops q in (some i ∷ rest.0, rest.1)

-- No fiber is enqueued while it is queued, and each of the `n` fibers is there.
abbrev pub once : ℕ → List Op → List ℕ → Bool
once n [] q = true
once n (put i ∷ ops) q = ltb i n && not (has i q) && once n ops (q ++ i ∷ [])
once n (get ∷ ops) [] = once n ops []
once n (get ∷ ops) (i ∷ q) = once n ops q

-- The ready queue is a queue of fibers: whatever is enqueued and dequeued, the calls return what they
-- return on a list, and leave that list linked, if no fiber is enqueued while it is queued.
pub perform-fifo :
    (ops : List Op) (s : Scheduler) (q : List ℕ)
    → IsQueue s q
    → once (length s.fibers) ops q ≡ true
    → ((perform ops s).0 ≡ (fifo ops q).0) × IsQueue (perform ops s).1 (fifo ops q).1
perform-fifo [] s q h ok = (refl, h)
perform-fifo (put i ∷ ops) s q h ok =
    perform-fifo ops (enqueue s i) (q ++ i ∷ [])
      (enqueue-IsQueue s q i h (ground (arith, ok)) (ground (arith, ok)))
      (rw (length-enqueue s i) (ground (arith, ok)))
perform-fifo (get ∷ ops) s [] h ok =
    let (same, later) = perform-fifo ops s [] h ok in
    rw (dequeue-nil s h) (ap (λ r. none ∷ r) same, later)
perform-fifo (get ∷ ops) s (i ∷ q) h ok =
    let (e, h') = dequeue-cons s i q h in
    let (same, later) = perform-fifo ops (dequeue s).1 q h' (rw (length-dequeue s) ok) in
    (rw (e, same) refl, later)
