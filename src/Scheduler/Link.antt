-- ===== src/Scheduler/Link.antt =====
-- What the ready queue leaves alone: all of a fiber but its link.
use atlanage.Prelude.{
  ℕ, ◌≡◌, ◌∙◌, Option, none, some, Option-cases, inl, inr, arith, length, length-set,
  get_or-set_any,
}
use atlanage.Scheduler.{Scheduler, Fiber, blank, fiber, set_fiber, enqueue}

abbrev pub unlinked : Fiber → Fiber
unlinked f = record f { next = none }

next_lem :
    (s : Scheduler) (i j : ℕ) (n : Option ℕ)
    → unlinked (fiber (set_fiber s i (record (fiber s i) { next = n })) j) ≡ unlinked (fiber s j)
next_lem s i j n =
    ground (arith, get_or-set_any s.fibers i j (record (fiber s i) { next = n }) blank)

pub unlinked-enqueue :
    (s : Scheduler) (i j : ℕ) → unlinked (fiber (enqueue s i) j) ≡ unlinked (fiber s j)
unfolding enqueue
unlinked-enqueue s i j =
    let cleared = set_fiber s i (record (fiber s i) { next = none }) in
    elim (Option-cases (s.ready_tail)) [
      | inl e ↦ rw e (next_lem s i j none)
      | inr (t, e) ↦ rw e (next_lem cleared t j (some i) ∙ next_lem s i j none)
    ]

pub length-enqueue : (s : Scheduler) (i : ℕ) → length (enqueue s i).fibers ≡ length s.fibers
unfolding enqueue
length-enqueue s i =
    let f : Fiber = record (fiber s i) { next = none } in
    let cleared = set_fiber s i f in
    elim (Option-cases (s.ready_tail)) [
      | inl e ↦ rw e (length-set s.fibers i f)
      | inr (t, e) ↦ rw e (
          length-set cleared.fibers t (record (fiber cleared t) { next = some i })
          ∙ length-set s.fibers i f)
    ]
