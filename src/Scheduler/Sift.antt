-- ===== src/Scheduler/Sift.antt =====
-- `_sched_timer_up` and `_sched_timer_down` put the timers in order.
use atlanage.Prelude.{
  ℕ, zero, suc, ◌+◌, ◌*◌, ◌≡◌, ◌≢◌, ◌∙◌, ◌≤◌, ◌<◌, refl, true, false, ◌&&◌, ◌⊎◌, inl, inr, List,
  arith, ltb, leb, ◌==◌, if◌then◌else◌, length, Bool-cases, ℕ_discrete,
}
use atlanage.Scheduler.{Scheduler, wakeup, swap, timer_up, earliest, timer_down}
use atlanage.Scheduler.Timers.{
  parent, IsHeap, IsBridged, occurs, get-swap, length-swap, occurs-swap,
}

-- The timers `b` are those of `a`, in order.
pub record IsSifted (s : Scheduler) (a b : List ℕ) : Type 0 where
  pub heap : IsHeap s b
  pub size : length b ≡ length a
  pub same : (x : ℕ) → occurs x b ≡ occurs x a

-- Only the edge above `k` may be out of order.
pub record IsLow (s : Scheduler) (a : List ℕ) (k : ℕ) : Type 0 where
  pub inside : k < length a
  pub edges : (c : ℕ) → 0 < c → c < length a → c ≢ k → wakeup s a (parent c) ≤ wakeup s a c
  pub bridged : IsBridged s a k

-- Only the edges below `k` may be out of order.
pub record IsHigh (s : Scheduler) (a : List ℕ) (k : ℕ) : Type 0 where
  pub inside : k < length a
  pub edges : (c : ℕ) → 0 < c → c < length a → parent c ≢ k → wakeup s a (parent c) ≤ wakeup s a c
  pub bridged : IsBridged s a k

module _ (s : Scheduler) where
  wakeup-swap :
      (a : List ℕ) (i j k : ℕ)
      → i < length a
      → j < length a
      → wakeup s (swap a i j) k
        ≡ (if j == k then wakeup s a i else if i == k then wakeup s a j else wakeup s a k)
  wakeup-swap a i j k hi hj = ground (arith, get-swap a i j k hi hj)

  IsSifted-swap :
      (a b : List ℕ) (i j : ℕ)
      → i < length a
      → j < length a
      → IsSifted s (swap a i j) b
      → IsSifted s a b
  IsSifted-swap a b i j hi hj h = record {
    heap = h.heap;
    size = h.size ∙ length-swap a i j;
    same = λ x. h.same x ∙ occurs-swap x a i j hi hj;
  }

  swap-IsLow :
      (a : List ℕ) (k : ℕ)
      → IsLow s a k
      → 0 < k
      → wakeup s a k < wakeup s a (parent k)
      → IsLow s (swap a k (parent k)) (parent k)
  swap-IsLow a k v pos below =
      let p = parent k in
      let l = length-swap a k p in
      let at : (c : ℕ)
          → wakeup s (swap a k p) c
            ≡ (if p == c then wakeup s a k else if k == c then wakeup s a p else wakeup s a c) =
        λ c. wakeup-swap a k p c v.inside (omega (arith, v.inside)) in
      record {
        inside = omega (arith, l, v.inside);
        edges =
            λ c q r t. ground (arith, l, at c, at (parent c), v.edges c, v.edges p, v.bridged c);
        bridged = λ c q r t u. ground (arith, l, at c, at (parent p), v.edges c, v.edges p);
      }

  pub timer_up-IsSifted :
      (fuel : ℕ) (a : List ℕ) (k : ℕ) → k < fuel → IsLow s a k → IsSifted s a (timer_up fuel s a k)
  unfolding timer_up
  timer_up-IsSifted zero a k f v = absurd (omega arith)
  timer_up-IsSifted (suc fuel) a k f v = elim (ℕ_discrete k 0) [
    | yes e ↦
        let z : (k == 0) ≡ true = ground (arith, e) in
        rw z record { heap = λ c p q. v.edges c p q (omega arith); size = refl; same = λ x. refl }
    | no e ↦
        let z : (k == 0) ≡ false = ground (arith, e) in
        elim (Bool-cases (leb (wakeup s a (parent k)) (wakeup s a k))) [
          | inl b ↦
              rw (z, b)
                record {
                  heap = λ c p q. ground (arith, v.edges c, b);
                  size = refl;
                  same = λ x. refl;
                }
          | inr b ↦
              rw (z, b)
                (IsSifted-swap a (timer_up fuel s (swap a k (parent k)) (parent k)) k (parent k)
                  v.inside (omega (arith, v.inside))
                  (timer_up-IsSifted fuel (swap a k (parent k)) (parent k) (omega arith)
                    (swap-IsLow a k v (omega arith) (ground (arith, b)))))
        ]
  ]

  -- What `earliest` finds: the timer itself, when it is not later than its children, or the child
  -- that is not later than the other.
  record IsEarliest (a : List ℕ) (k m : ℕ) : Type 0 where
    inside : m < length a
    place : (m ≡ k) ⊎ ((0 < m) × (parent m ≡ k) × (wakeup s a m < wakeup s a k))
    least : (c : ℕ) → 0 < c → c < length a → parent c ≡ k → wakeup s a m ≤ wakeup s a c

  child-cases : (c k : ℕ) → 0 < c → parent c ≡ k → (c ≡ k * 2 + 1) ⊎ (c ≡ k * 2 + 2)
  child-cases c k p e = omega arith

  least_lem :
      (a : List ℕ) (k m c : ℕ)
      → (k * 2 + 1 < length a → wakeup s a m ≤ wakeup s a (k * 2 + 1))
      → (k * 2 + 2 < length a → wakeup s a m ≤ wakeup s a (k * 2 + 2))
      → 0 < c
      → c < length a
      → parent c ≡ k
      → wakeup s a m ≤ wakeup s a c
  least_lem a k m c hl hr p q e = elim (child-cases c k p e) [
    | inl g ↦ rw g (hl (omega (arith, g)))
    | inr g ↦ rw g (hr (omega (arith, g)))
  ]

  earliest-IsEarliest : (a : List ℕ) (k : ℕ) → k < length a → IsEarliest a k (earliest s a k)
  earliest-IsEarliest a k h =
      let n : ℕ = length a in
      let l : ℕ = k * 2 + 1 in
      let r : ℕ = k * 2 + 2 in
      let w = wakeup s a in
      elim (Bool-cases (ltb l n && ltb (w l) (w k))) [
        | inl e ↦ elim (Bool-cases (ltb r n && ltb (w r) (w l))) [
          | inl f ↦
              rw (e, f)
                record {
                  inside = ground (arith, f);
                  place = inr (omega arith, omega arith, ground (arith, e, f));
                  least = λ c. least_lem a k r c (λ x. ground (arith, e, f)) (λ x. omega arith);
                }
          | inr f ↦
              rw (e, f)
                record {
                  inside = ground (arith, e);
                  place = inr (omega arith, omega arith, ground (arith, e));
                  least = λ c. least_lem a k l c (λ x. omega arith) (λ x. ground (arith, f, x));
                }
        ]
        | inr e ↦ elim (Bool-cases (ltb r n && ltb (w r) (w k))) [
          | inl f ↦
              rw (e, f)
                record {
                  inside = ground (arith, f);
                  place = inr (omega arith, omega arith, ground (arith, f));
                  least = λ c. least_lem a k r c (λ x. ground (arith, e, f, x)) (λ x. omega arith);
                }
          | inr f ↦
              rw (e, f)
                record {
                  inside = h;
                  place = inl refl;
                  least = λ c.
                      least_lem a k k c (λ x. ground (arith, e, x)) (λ x. ground (arith, f, x));
                }
        ]
      ]

  swap-IsHigh :
      (a : List ℕ) (k m : ℕ)
      → IsHigh s a k
      → IsEarliest a k m
      → m ≢ k
      → (0 < m) × (parent m ≡ k) × (wakeup s a m < wakeup s a k)
      → IsHigh s (swap a k m) m
  swap-IsHigh a k m v e n (pos, up, below) =
      let l = length-swap a k m in
      let at : (c : ℕ)
          → wakeup s (swap a k m) c
            ≡ (if m == c then wakeup s a k else if k == c then wakeup s a m else wakeup s a c) =
        λ c. wakeup-swap a k m c v.inside e.inside in
      record {
        inside = omega (arith, l, e.inside);
        edges =
            λ c q r t. ground (arith, l, at c, at (parent c), v.edges c, v.bridged m, e.least c);
        bridged = λ c q r t u. ground (arith, l, at c, at (parent m), v.edges c);
      }

  sink_step :
      (fuel : ℕ) (a : List ℕ) (k m : ℕ)
      → IsHigh s a k
      → IsEarliest a k m
      → length a ≤ k + suc fuel
      → (length (swap a k m) ≤ m + fuel
          → IsHigh s (swap a k m) m
          → IsSifted s (swap a k m) (timer_down fuel s (swap a k m) m))
      → IsSifted s a (if m == k then a else timer_down fuel s (swap a k m) m)
  sink_step fuel a k m v e f ih = elim (e.place) [
    | inl i ↦
        let z : (m == k) ≡ true = ground (arith, i) in
        rw z record {
          heap = λ c p q. ground (arith, v.edges c, e.least c, i);
          size = refl;
          same = λ x. refl;
        }
    | inr (pos, up, below) ↦
        let z : (m == k) ≡ false = ground (arith, pos, up) in
        rw z (
          IsSifted-swap a (timer_down fuel s (swap a k m) m) k m v.inside e.inside (
            ih (omega (arith, length-swap a k m, f))
              (swap-IsHigh a k m v e (omega arith) (pos, up, below))))
  ]

  pub timer_down-IsSifted :
      (fuel : ℕ) (a : List ℕ) (k : ℕ)
      → length a ≤ k + fuel
      → IsHigh s a k
      → IsSifted s a (timer_down fuel s a k)
  unfolding timer_down
  timer_down-IsSifted zero a k f v = absurd (omega (arith, v.inside))
  timer_down-IsSifted (suc fuel) a k f v =
      let m = earliest s a k in
      sink_step fuel a k m v (earliest-IsEarliest a k v.inside) f
        (timer_down-IsSifted fuel (swap a k m) m)
