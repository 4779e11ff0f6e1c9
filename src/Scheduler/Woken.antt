-- ===== src/Scheduler/Woken.antt =====
-- `xt_scheduler_timer_tick` on the ready queue: the fibers whose time has come stand behind it.
use atlanage.Prelude.{
  ℕ, zero, suc, ◌+◌, ◌-◌, ◌≡◌, ◌∙◌, ◌≤◌, ◌<◌, ap, true, false, List, [], ◌∷◌, ◌++◌, append-nil,
  append_assoc, arith, ltb, leb, ◌==◌, if◌then◌else◌, length, length-set, get_or, get_or-set_any,
  Bool-cases, ℕ_discrete, inl, inr,
}
use atlanage.Scheduler.{Scheduler, Fiber, blank, fiber, set_fiber, wakeup, tick_loop, timer_tick}
use atlanage.Scheduler.Queue.{has, has-append, IsQueue, frame, enqueue-IsQueue}
use atlanage.Scheduler.Waking.{ne_of_has}
use atlanage.Scheduler.Timers.{IsHeap, occurs, one_if, get-occurs}
use atlanage.Scheduler.Tick.{
  pop_timer-IsPopped, popped, ready_fiber, after_round, wakeup_at-after_round, timers-after_round,
  length-after_round, after_round-IsHeap,
}
use atlanage.Scheduler.Due.{IsTicked, timer_tick-IsTicked, occurs-nil, not_due}

-- The timers are in order, each a fiber that stands among them once and is not in the ready queue.
pub record IsTimed (s : Scheduler) (q : List ℕ) : Type 0 where
  pub heap : IsHeap s s.timers
  pub queued : IsQueue s q
  pub inside : (x : ℕ) → 0 < occurs x s.timers → x < length s.fibers
  pub once : (x : ℕ) → occurs x s.timers ≤ 1
  pub apart : (x : ℕ) → 0 < occurs x s.timers → has x q ≡ false

-- The fibers that a tick at the time `now` puts behind the queue: each timer that is due, once.
pub record IsWoken (now : ℕ) (s s' : Scheduler) (q woken : List ℕ) : Type 0 where
  pub timed : IsTimed s' (q ++ woken)
  pub due :
      (x : ℕ) → occurs x woken ≡ (if leb (fiber s x).wakeup_at now then occurs x s.timers else 0)

none-IsWoken :
    (now : ℕ) (s : Scheduler) (q : List ℕ)
    → IsTimed s q
    → ((x : ℕ) → 0 < occurs x s.timers → now < (fiber s x).wakeup_at)
    → IsWoken now s s q []
unfolding occurs
none-IsWoken now s q h later = record {
  timed = rw (append-nil q) h;
  due = λ x. ground (arith, later x);
}

module _ (s : Scheduler) (q : List ℕ) (now n : ℕ) (h : IsTimed s q)
    (e : length s.timers ≡ suc n) where
  head-occurs : 0 < occurs (get_or s.timers 0 0) s.timers
  head-occurs = get-occurs s.timers 0 (omega (arith, e))

  queued-after_round : IsQueue (after_round s) (q ++ get_or s.timers 0 0 ∷ [])
  queued-after_round =
      let i = get_or s.timers 0 0 in
      let f = ready_fiber s i in
      let u = set_fiber (popped s) i f in
      let out = h.apart i head-occurs in
      let spared : (j : ℕ) → has j q ≡ true → (fiber u j).next ≡ (fiber s j).next = λ j m.
        let ne = ne_of_has i j q m out in
        let d : fiber u j ≡ fiber s j = get_or-set_any s.fibers i j f blank ∙ ground (arith, ne) in
        ap (λ (g : Fiber). g.next) d in
      let l = length-set s.fibers i f in
      enqueue-IsQueue u q i
        (record { links = frame s u s.ready_head q l spared h.queued.links; tail = h.queued.tail })
        (omega (arith, l, h.inside i head-occurs)) out

  occurs-after_round :
      (x : ℕ) → occurs x (after_round s).timers + one_if x (get_or s.timers 0 0) ≡ occurs x s.timers
  occurs-after_round x = rw (timers-after_round s) ((pop_timer-IsPopped s h.heap n e).same x)

  IsTimed-after_round : IsTimed (after_round s) (q ++ get_or s.timers 0 0 ∷ [])
  IsTimed-after_round =
      let i = get_or s.timers 0 0 in
      record {
        heap = after_round-IsHeap s (pop_timer-IsPopped s h.heap n e).heap;
        queued = queued-after_round;
        inside = λ x p. omega (arith, p, h.inside x, occurs-after_round x, length-after_round s);
        once = λ x. omega (arith, h.once x, occurs-after_round x);
        apart =
            λ x p. ground (arith, p, has-append x i q, h.apart x, h.once x, occurs-after_round x);
      }

  one-IsWoken :
      (s' : Scheduler) (woken : List ℕ)
      → wakeup s s.timers 0 ≤ now
      → IsWoken now (after_round s) s' (q ++ get_or s.timers 0 0 ∷ []) woken
      → IsWoken now s s' q (get_or s.timers 0 0 ∷ woken)
  unfolding occurs
  one-IsWoken s' woken due w =
      let i = get_or s.timers 0 0 in
      record {
        timed = rw (append_assoc q (i ∷ []) woken) at w.timed;
        due = λ x. ground (arith, w.due x, occurs-after_round x, wakeup_at-after_round s x, due);
      }

tick_loop-IsWoken :
    (fuel : ℕ) (s : Scheduler) (q : List ℕ) (now : ℕ)
    → length s.timers ≤ fuel
    → IsTimed s q
    → (woken : List ℕ) × IsWoken now s (tick_loop fuel s now) q woken
unfolding tick_loop
tick_loop-IsWoken zero s q now f h = (
  [],
  none-IsWoken now s q h (λ x p. absurd (omega (arith, occurs-nil x s.timers (omega arith)))),
)
tick_loop-IsWoken (suc fuel) s q now f h = elim (ℕ_discrete (length s.timers) 0) [
  | yes e ↦
      let b : (length s.timers == 0) ≡ true = ground (arith, e) in
      ([], rw b (none-IsWoken now s q h (λ x p. absurd (omega (arith, occurs-nil x s.timers e)))))
  | no e ↦
      let b : (length s.timers == 0) ≡ false = ground (arith, e) in
      elim (Bool-cases (ltb now (wakeup s s.timers 0))) [
        | inl l ↦ (
          [],
          rw (b, l) (none-IsWoken now s q h (λ x p. not_due s now x h.heap (ground (arith, l)) p)),
        )
        | inr l ↦
            let n : ℕ = length s.timers - 1 in
            let m : length s.timers ≡ suc n = omega arith in
            let p = pop_timer-IsPopped s h.heap n m in
            let t = timers-after_round s in
            let i = get_or s.timers 0 0 in
            let (woken, w) =
              tick_loop-IsWoken fuel (after_round s) (q ++ i ∷ []) now
                (omega (arith, ap length t, p.size)) (IsTimed-after_round s q now n h m) in
            (
              i ∷ woken,
              rw (b, l)
                  (one-IsWoken s q now n h m (tick_loop fuel (after_round s) now) woken
                    (ground (arith, l)) w),
            )
      ]
]

-- `xt_scheduler_timer_tick` puts each fiber whose time has come, and no other one, once behind the
-- fibers of the ready queue. They are ready and no timers any more; the other timers are still there,
-- in order. Of all that is in a fiber nothing else changes but the link of the queue. The timers are
-- in order before, each a fiber that is a timer once and not queued, and so they are after it.
pub timer_tick-IsWoken :
    (s : Scheduler) (q : List ℕ) (now : ℕ)
    → IsTimed s q
    → IsTicked now s (timer_tick s now)
      × ((woken : List ℕ) × IsWoken now s (timer_tick s now) q woken)
unfolding timer_tick
timer_tick-IsWoken s q now h = (
  unfold timer_tick in timer_tick-IsTicked s now h.heap,
  tick_loop-IsWoken (length s.timers) s q now (omega arith) h,
)
