-- ===== src/Scheduler/Queue.antt =====
-- The ready queue, which is linked through the fibers, against a list of fibers: first in, first out.
use atlanage.Prelude.{
  ℕ, ◌≡◌, ◌<◌, ◌∙◌, refl, sym, Bool, true, false, ◌||◌, List, [], ◌∷◌, ◌++◌, Option, none, some,
  Option-cases, Bool-cases, inl, inr, arith, length, length-set, ◌==◌, if◌then◌else◌,
  get_or-set_any,
}
use atlanage.Scheduler.Link.{length-enqueue}
use atlanage.Scheduler.{Scheduler, blank, fiber, set_fiber, enqueue}

abbrev pub has : ℕ → List ℕ → Bool
has i [] = false
has i (j ∷ q) = (i == j) || has i q

abbrev pub last : List ℕ → Option ℕ
last [] = none
last (i ∷ []) = some i
last (i ∷ j ∷ q) = last (j ∷ q)

-- From `p` the links lead through these fibers, which are all different, to null.
abbrev pub Links : Scheduler → Option ℕ → List ℕ → Type 0
Links s p [] = p ≡ none
Links s p (i ∷ q) =
    (p ≡ some i) × (i < length s.fibers) × (has i q ≡ false) × Links s (fiber s i).next q

-- These fibers are the ready queue, in order.
pub record IsQueue (s : Scheduler) (q : List ℕ) : Type 0 where
  pub links : Links s s.ready_head q
  pub tail : s.ready_tail ≡ last q

-- The links survive a change that spares these fibers.
pub frame :
    (s s' : Scheduler) (p : Option ℕ) (q : List ℕ)
    → length s'.fibers ≡ length s.fibers
    → ((j : ℕ) → has j q ≡ true → (fiber s' j).next ≡ (fiber s j).next)
    → Links s p q
    → Links s' p q
frame s s' p [] size same h = h
frame s s' p (i ∷ q) size same (e, b, out, h) =
    let rest = frame s s' (fiber s i).next q size (λ j m. same j (ground (arith, m))) h in
    (e, omega (arith, size), out, rw (same i (ground arith)) rest)

last-has : (q : List ℕ) (t : ℕ) → last q ≡ some t → has t q ≡ true
last-has [] t e = absurd (cc e)
last-has (i ∷ []) t e = let p : i ≡ t = cc e in ground (arith, p)
last-has (i ∷ j ∷ q) t e = ground (arith, last-has (j ∷ q) t e)

last-append : (q : List ℕ) (i : ℕ) → last (q ++ i ∷ []) ≡ some i
last-append [] i = refl
last-append (j ∷ []) i = refl
last-append (j ∷ k ∷ q) i = last-append (k ∷ q) i

pub has-append : (x i : ℕ) (q : List ℕ) → has x (q ++ i ∷ []) ≡ (has x q || (x == i))
has-append x i [] = ground arith
has-append x i (j ∷ q) = ground (arith, has-append x i q)

-- Behind the last fiber stands another one.
push-Links :
    (s s' : Scheduler) (p : Option ℕ) (q : List ℕ) (t i : ℕ)
    → length s'.fibers ≡ length s.fibers
    → i < length s.fibers
    → has i q ≡ false
    → last q ≡ some t
    → ((j : ℕ) → has j q ≡ true → (fiber s' j).next ≡ (if j == t then some i else (fiber s j).next))
    → (fiber s' i).next ≡ none
    → Links s p q
    → Links s' p (q ++ i ∷ [])
push-Links s s' p [] t i size inside out e next end_ h = absurd (cc e)
push-Links s s' p (k ∷ []) t i size inside out e next end_ (here, b, once, h) =
    let kt : k ≡ t = cc e in
    let n : (fiber s' k).next ≡ some i = next k (ground arith) ∙ ground (arith, kt) in
    (here, omega (arith, size), ground (arith, out), (n, omega (arith, size), refl, end_))
push-Links s s' p (k ∷ l ∷ q) t i size inside out e next end_ (here, b, once, h) =
    let there = last-has (l ∷ q) t e in
    let n : (fiber s' k).next ≡ (fiber s k).next =
      next k (ground arith) ∙ ground (arith, there, once) in
    let rest =
      push-Links s s' (fiber s k).next (l ∷ q) t i size inside (ground (arith, out)) e
        (λ j m. next j (ground (arith, m))) end_ h in
    (here, omega (arith, size), has-append k i (l ∷ q) ∙ ground (arith, once, out), rw n rest)

-- A write of a link.
pub next-set :
    (s : Scheduler) (i j : ℕ) (n : Option ℕ)
    → i < length s.fibers
    → (fiber (set_fiber s i (record (fiber s i) { next = n })) j).next
      ≡ (if j == i then n else (fiber s j).next)
next-set s i j n h =
    ground (arith, get_or-set_any s.fibers i j (record (fiber s i) { next = n }) blank)

ready_tail-enqueue : (s : Scheduler) (i : ℕ) → (enqueue s i).ready_tail ≡ some i
unfolding enqueue
ready_tail-enqueue s i = elim (Option-cases (s.ready_tail)) [
  | inl e ↦ rw e refl
  | inr (t, e) ↦ rw e refl
]

ready_head-enqueue :
    (s : Scheduler) (i t : ℕ) → s.ready_tail ≡ some t → (enqueue s i).ready_head ≡ s.ready_head
unfolding enqueue
ready_head-enqueue s i t e = rw e refl

next-enqueue :
    (s : Scheduler) (i t j : ℕ)
    → s.ready_tail ≡ some t
    → i < length s.fibers
    → t < length s.fibers
    → (fiber (enqueue s i) j).next
      ≡ (if j == t then some i else if j == i then none else (fiber s j).next)
unfolding enqueue
next-enqueue s i t j e inside there =
    let cleared = set_fiber s i (record (fiber s i) { next = none }) in
    let sizes = length-set s.fibers i (record (fiber s i) { next = none }) in
    rw e
      (next-set cleared t j (some i) (omega (arith, sizes)) ∙ rw (next-set s i j none inside) refl)

Links-inside :
    (s : Scheduler) (p : Option ℕ) (q : List ℕ) (t : ℕ)
    → has t q ≡ true
    → Links s p q
    → t < length s.fibers
Links-inside s p [] t m h = absurd (cc m)
Links-inside s p (k ∷ q) t m (e, b, once, h) = elim (Bool-cases (has t q)) [
  | inl y ↦ Links-inside s (fiber s k).next q t y h
  | inr n ↦ ground (arith, m, n, b)
]

last-cons : (k : ℕ) (q : List ℕ) → (t : ℕ) × (last (k ∷ q) ≡ some t)
last-cons k [] = (k, refl)
last-cons k (j ∷ q) = last-cons j q

-- A fiber that is not queued is enqueued at the end.
pub enqueue-IsQueue :
    (s : Scheduler) (q : List ℕ) (i : ℕ)
    → IsQueue s q
    → i < length s.fibers
    → has i q ≡ false
    → IsQueue (enqueue s i) (q ++ i ∷ [])
unfolding enqueue
enqueue-IsQueue s [] i h inside out =
    let n = next-set s i i none inside in
    let sizes = length-set s.fibers i (record (fiber s i) { next = none }) in
    rw (h.tail)
      (record { links = (refl, omega (arith, sizes), refl, n ∙ ground arith); tail = refl })
enqueue-IsQueue s (k ∷ q) i h inside out =
    let (t, e) = last-cons k q in
    let at_end = h.tail ∙ e in
    let there = last-has (k ∷ q) t e in
    let b = Links-inside s s.ready_head (k ∷ q) t there h.links in
    record {
      links = rw (ready_head-enqueue s i t at_end) (
          push-Links s (enqueue s i) s.ready_head (k ∷ q) t i (length-enqueue s i) inside out e
            (λ j m. next-enqueue s i t j at_end inside b ∙ ground (arith, m, out))
            (next-enqueue s i t i at_end inside b ∙ ground (arith, out, there)) h.links);
      tail = ready_tail-enqueue s i ∙ sym (last-append (k ∷ q) i);
    }
