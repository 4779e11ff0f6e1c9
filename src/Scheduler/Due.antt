-- ===== src/Scheduler/Due.antt =====
-- `xt_scheduler_timer_tick` and `xt_scheduler_timer_add` against the timers as a collection: which
-- fibers are woken, and which go on sleeping.
use atlanage.Prelude.{
  ℕ, zero, suc, ◌+◌, ◌-◌, ◌≡◌, ◌∙◌, ◌≤◌, ◌<◌, refl, ap, true, false, ◌&&◌, List, [], ◌∷◌, arith,
  ltb, leb, ◌==◌, if◌then◌else◌, length, get_or, Bool-cases, ℕ_discrete, inl, inr,
}
use atlanage.Scheduler.{Scheduler, ready, fiber, Fiber, Status, wakeup, tick_loop, timer_tick}
use atlanage.Scheduler.Link.{unlinked}
use atlanage.Scheduler.Timers.{IsHeap, occurs, one_if, root_least, place}
use atlanage.Scheduler.Tick.{
  pop_timer-IsPopped, after_round, unlinked-after_round, wakeup_at-after_round, timers-after_round,
  length-after_round, after_round-IsHeap,
}

-- What a tick at the time `now` makes of `s`: the timers that are due are gone and all others are
-- still there, in order; the fibers of those that are gone are ready, and nothing else changes in a
-- fiber but its link.
pub record IsTicked (now : ℕ) (s s' : Scheduler) : Type 0 where
  pub heap : IsHeap s' s'.timers
  pub same : (x : ℕ) → (fiber s' x).wakeup_at ≡ (fiber s x).wakeup_at
  pub timers :
      (x : ℕ)
      → occurs x s'.timers ≡ (if ltb now (fiber s x).wakeup_at then occurs x s.timers else 0)
  pub fibers :
      (x : ℕ)
      → x < length s.fibers
      → unlinked (fiber s' x)
        ≡ unlinked (record (fiber s x) {
          status =
              if ltb 0 (occurs x s.timers) && leb (fiber s x).wakeup_at now
              then ready
              else (fiber s x).status;
        })

pub occurs-nil : (x : ℕ) (a : List ℕ) → length a ≡ 0 → occurs x a ≡ 0
unfolding occurs
occurs-nil x [] h = refl
occurs-nil x (y ∷ a) h = absurd (omega arith)

pub not_due :
    (s : Scheduler) (now x : ℕ)
    → IsHeap s s.timers
    → now < wakeup s s.timers 0
    → 0 < occurs x s.timers
    → now < (fiber s x).wakeup_at
not_due s now x h l p =
    let (k, q, e) = place x s.timers p in
    let r = root_least s s.timers k h q in
    omega (arith, r, l, ap (λ (i : ℕ). (fiber s i).wakeup_at) e)

-- Nothing is due.
stays-IsTicked :
    (s : Scheduler) (now : ℕ)
    → IsHeap s s.timers
    → ((x : ℕ) → 0 < occurs x s.timers → now < (fiber s x).wakeup_at)
    → IsTicked now s s
stays-IsTicked s now h later = record {
  heap = h;
  same = λ x. refl;
  timers = λ x. ground (arith, later x);
  fibers = λ x l. ground (arith, later x);
}

round-IsTicked :
    (s s' : Scheduler) (now n : ℕ)
    → IsHeap s s.timers
    → length s.timers ≡ suc n
    → wakeup s s.timers 0 ≤ now
    → IsTicked now (after_round s) s'
    → IsTicked now s s'
round-IsTicked s s' now n h e due t =
    let p = pop_timer-IsPopped s h n e in
    let same : (x : ℕ)
        → occurs x (after_round s).timers + one_if x (get_or s.timers 0 0) ≡ occurs x s.timers =
      λ x. rw (timers-after_round s) (p.same x) in
    record {
      heap = t.heap;
      same = λ x. t.same x ∙ wakeup_at-after_round s x;
      timers = λ x. ground (arith, t.timers x, same x, wakeup_at-after_round s x, due);
      fibers = λ x l.
          let status : Status =
            if ltb 0 (occurs x (after_round s).timers)
              && leb (fiber (after_round s) x).wakeup_at now
            then ready
            else (fiber (after_round s) x).status in
          let r = unlinked-after_round s x l in
          let st = ap (λ (f : Fiber). f.status) r in
          let w = wakeup_at-after_round s x in
          let first = t.fibers x (omega (arith, l, length-after_round s)) in
          first
          ∙ ap (λ (f : Fiber). record f { status = status }) r
          ∙ ap (λ (v : Status). unlinked (record (fiber s x) { status = v }))
              (ground (arith, same x, due, st, w));
    }

tick_loop-IsTicked :
    (fuel : ℕ) (s : Scheduler) (now : ℕ)
    → length s.timers ≤ fuel
    → IsHeap s s.timers
    → IsTicked now s (tick_loop fuel s now)
unfolding tick_loop
tick_loop-IsTicked zero s now f h =
    stays-IsTicked s now h (λ x p. absurd (omega (arith, occurs-nil x s.timers (omega arith))))
tick_loop-IsTicked (suc fuel) s now f h = elim (ℕ_discrete (length s.timers) 0) [
  | yes e ↦
      let b : (length s.timers == 0) ≡ true = ground (arith, e) in
      rw b (stays-IsTicked s now h (λ x p. absurd (omega (arith, occurs-nil x s.timers e))))
  | no e ↦
      let b : (length s.timers == 0) ≡ false = ground (arith, e) in
      elim (Bool-cases (ltb now (wakeup s s.timers 0))) [
        | inl l ↦
            rw (b, l) (stays-IsTicked s now h (λ x p. not_due s now x h (ground (arith, l)) p))
        | inr l ↦
            let n : ℕ = length s.timers - 1 in
            let m : length s.timers ≡ suc n = omega arith in
            let p = pop_timer-IsPopped s h n m in
            let s1 = after_round s in
            let t = timers-after_round s in
            rw (b, l)
              (round-IsTicked s (tick_loop fuel s1 now) now n h m (ground (arith, l)) (
                tick_loop-IsTicked fuel s1 now (omega (arith, ap length t, p.size))
                  (after_round-IsHeap s p.heap)))
      ]
]

pub timer_tick-IsTicked :
    (s : Scheduler) (now : ℕ) → IsHeap s s.timers → IsTicked now s (timer_tick s now)
unfolding timer_tick
timer_tick-IsTicked s now h = tick_loop-IsTicked (length s.timers) s now (omega arith) h
