-- ===== src/Scheduler/Sleep.antt =====
-- `xt_scheduler_timer_add` puts a fiber among the timers, and `xt_scheduler_timer_tick` wakes it.
use atlanage.Prelude.{
  ℕ, zero, suc, ◌+◌, ◌≡◌, ◌∙◌, ◌<◌, refl, ap, true, false, List, [], ◌∷◌, ◌++◌, none, some, arith,
  ltb, leb, ◌==◌, if◌then◌else◌, length, length-append, length-set, get_or, get_or-set,
  get_or-set_any,
}
use atlanage.Scheduler.{
  Scheduler, Fiber, Status, ready, sleeping, blank, fiber, set_fiber, wakeup, timer_tick, timer_add,
  timer_up, timer_heap_size,
}
use atlanage.Scheduler.Timers.{parent, IsHeap, occurs, one_if, occurs-append, get-occurs}
use atlanage.Scheduler.Sift.{IsLow, timer_up-IsSifted}
use atlanage.Scheduler.Tick.{times}
use atlanage.Scheduler.Queue.{has, frame}
use atlanage.Scheduler.Waking.{ne_of_has}
use atlanage.Scheduler.Woken.{IsTimed, timer_tick-IsWoken}

get-append :
    (a : List ℕ) (x k : ℕ) → get_or (a ++ x ∷ []) k 0 ≡ (if k == length a then x else get_or a k 0)
get-append [] x zero = refl
get-append [] x (suc k) = ground arith
get-append (y ∷ a) x zero = ground arith
get-append (y ∷ a) x (suc k) = ground (arith, get-append a x k)

module _ (s : Scheduler) (i time : ℕ) (inside : i < length s.fibers) (h : IsHeap s s.timers)
    (new : occurs i s.timers ≡ 0) where
  asleep : Scheduler
  asleep = set_fiber s i (record (fiber s i) { wakeup_at = time; status = sleeping })

  wakeup-asleep : (k : ℕ) → k < length s.timers → wakeup asleep s.timers k ≡ wakeup s s.timers k
  unfolding asleep
  wakeup-asleep k p =
      let j = get_or s.timers k 0 in
      let e : (i == j) ≡ false = ground (arith, get-occurs s.timers k p, new) in
      ground (
        arith,
        e,
        get_or-set_any s.fibers i j (record (fiber s i) { wakeup_at = time; status = sleeping })
            blank,
      )

  wakeup-behind :
      (k : ℕ) → k < length s.timers → wakeup asleep (s.timers ++ i ∷ []) k ≡ wakeup s s.timers k
  wakeup-behind k p =
      let e : (k == length s.timers) ≡ false = ground (arith, p) in
      let g : get_or (s.timers ++ i ∷ []) k 0 ≡ get_or s.timers k 0 =
        ground (arith, e, get-append s.timers i k) in
      ap (λ (j : ℕ). (fiber asleep j).wakeup_at) g ∙ wakeup-asleep k p

  behind-IsLow : IsLow asleep (s.timers ++ i ∷ []) (length s.timers)
  behind-IsLow =
      let l = length-append s.timers (i ∷ []) in
      record {
        inside = omega (arith, l);
        edges = λ c p q r. omega (arith, l, h c p, wakeup-behind c, wakeup-behind (parent c));
        bridged = λ c p q r t. absurd (omega (arith, l));
      }

  after : Scheduler
  after = record asleep {
    timers = timer_up (length s.timers + 1) asleep (s.timers ++ i ∷ []) (length s.timers);
  }

  timer_add_lem :
      timer_add s i time ≡ (if leb timer_heap_size (length s.timers) then none else some after)
  unfolding timer_add after asleep
  timer_add_lem = refl

  after-IsHeap : IsHeap after after.timers
  unfolding after
  after-IsHeap =
      (timer_up-IsSifted asleep (length s.timers + 1) (s.timers ++ i ∷ []) (length s.timers)
        (omega arith) behind-IsLow).heap

  occurs-after : (x : ℕ) → occurs x after.timers ≡ occurs x s.timers + one_if x i
  unfolding after occurs
  occurs-after x =
      let u =
        timer_up-IsSifted asleep (length s.timers + 1) (s.timers ++ i ∷ []) (length s.timers)
          (omega arith) behind-IsLow in
      omega (arith, u.same x, occurs-append x s.timers (i ∷ []))

  times-after : times (fiber after i) ≡ (time, sleeping)
  unfolding after asleep
  times-after = ground (
    arith,
    inside,
    get_or-set s.fibers i i (record (fiber s i) { wakeup_at = time; status = sleeping }) blank,
  )

  length-after : length after.fibers ≡ length s.fibers
  unfolding after asleep
  length-after = length-set s.fibers i (record (fiber s i) { wakeup_at = time; status = sleeping })

  fiber-after :
      (x : ℕ)
      → fiber after x
        ≡ (if i == x then record (fiber s i) { wakeup_at = time; status = sleeping } else fiber s x)
  unfolding after asleep
  fiber-after x = ground (
    arith,
    inside,
    get_or-set_any s.fibers i x (record (fiber s i) { wakeup_at = time; status = sleeping }) blank,
  )

  -- The ready queue is not touched.
  after-IsTimed : (q : List ℕ) → IsTimed s q → has i q ≡ false → IsTimed after q
  after-IsTimed q timed out =
      let same : (j : ℕ) → has j q ≡ true → (fiber after j).next ≡ (fiber s j).next = λ j m.
        let ne = ne_of_has i j q m out in
        let d : fiber after j ≡ fiber s j = ground (arith, ne, fiber-after j) in
        ap (λ (g : Fiber). g.next) d in
      record {
        heap = after-IsHeap;
        queued = record {
          links =
              unfold after in
              unfold asleep in frame s after s.ready_head q length-after same timed.queued.links;
          tail = unfold after in unfold asleep in timed.queued.tail;
        };
        inside = λ x p. ground (arith, p, occurs-after x, length-after, timed.inside x, inside);
        once = λ x. ground (arith, timed.once x, occurs-after x, new);
        apart = λ x p. ground (arith, p, occurs-after x, timed.apart x, out);
      }

-- A fiber that is neither a timer nor in the ready queue becomes a timer by `xt_scheduler_timer_add`,
-- unless there are 8192 timers already, where the program ends: the timers stay in order, the fiber
-- is added to them once and no other one is, it sleeps until its time, all other fibers stay as they
-- are, and so does the ready queue. A tick at any later time leaves it asleep if its time has not
-- come, and otherwise takes it from the timers, makes it ready and puts it once behind the queue.
pub timer_add-tick :
    (s : Scheduler) (q : List ℕ) (i time now : ℕ)
    → i < length s.fibers
    → IsTimed s q
    → occurs i s.timers ≡ 0
    → has i q ≡ false
    → (s' : Scheduler) × (woken : List ℕ) × (timer_add s i time
        ≡ (if leb 8192 (length s.timers) then none else some s'))
      × IsTimed s' q
      × ((x : ℕ) → occurs x s'.timers ≡ occurs x s.timers + one_if x i)
      × ((x : ℕ)
          → fiber s' x ≡ (
              if i == x
              then record (fiber s i) { wakeup_at = time; status = sleeping }
              else fiber s x))
      × IsTimed (timer_tick s' now) (q ++ woken)
      × (occurs i (timer_tick s' now).timers ≡ (if ltb now time then 1 else 0))
      × (occurs i woken ≡ (if ltb now time then 0 else 1))
      × ((fiber (timer_tick s' now) i).status ≡ (if ltb now time then sleeping else ready))
timer_add-tick s q i time now inside h new out =
    let a = after s i time inside h.heap new in
    let timed = after-IsTimed s i time inside h.heap new q h out in
    let (t, (woken, w)) = timer_tick-IsWoken a q now timed in
    let at = times-after s i time inside h.heap new in
    let o : occurs i a.timers ≡ 1 =
      ground (arith, occurs-after s i time inside h.heap new i, new) in
    let f =
      ap times (t.fibers i (omega (arith, inside, length-after s i time inside h.heap new))) in
    let wake = ap (λ (p : ℕ × Status). p.0) at in
    let st = ap (λ (p : ℕ × Status). p.1) at in
    (
      a,
      woken,
      timer_add_lem s i time inside h.heap new,
      timed,
      occurs-after s i time inside h.heap new,
      fiber-after s i time inside h.heap new,
      w.timed,
      ground (arith, t.timers i, wake, o),
      ground (arith, w.due i, wake, o),
      ap (λ (p : ℕ × Status). p.1) f ∙ ground (arith, wake, st, o),
    )
