-- ===== src/Pool/Slots.antt =====
-- Which slot a task has, and what the loops over the slots find there.
use atlanage.Prelude.{
  ℕ, zero, suc, ◌≡◌, ◌≢◌, ◌<◌, refl, true, false, List, [], ◌∷◌, arith, if◌then◌else◌, length,
  get_or, set,
}
use atlanage.Pool.{Task, blank, store, wait_look, try_look, Look, ready, pending, unknown}

-- The slot `i` is the first one, and the only one that is done, with the id `k`.
pub record IsSlot (k : ℕ) (ts : List Task) (i : ℕ) : Type 0 where
  pub inside : i < length ts
  pub here : (get_or ts i blank).id ≡ k
  pub earlier : (j : ℕ) → j < i → (get_or ts j blank).id ≢ k
  pub later :
      (j : ℕ)
      → i < j
      → j < length ts
      → (get_or ts j blank).id ≡ k
      → (get_or ts j blank).done ≡ false

abbrev pub look_at : Task → Look
look_at t = if t.done then ready t.result else pending

IsSlot-tail :
    (k : ℕ) (t : Task) (ts : List Task) (i : ℕ) → IsSlot k (t ∷ ts) (suc i) → IsSlot k ts i
IsSlot-tail k t ts i s = record {
  inside = omega (arith, s.inside);
  here = s.here;
  earlier = λ j h. s.earlier (suc j) (omega arith);
  later = λ j h l. s.later (suc j) (omega arith) (omega arith);
}

pub store-set :
    (k r : ℕ) (ts : List Task) (i : ℕ)
    → IsSlot k ts i
    → store k r ts ≡ set ts i (record (get_or ts i blank) { result = r; done = true })
unfolding store
store-set k r [] i s = absurd (omega (arith, s.inside))
store-set k r (t ∷ ts) zero s = ground (arith, s.here)
store-set k r (t ∷ ts) (suc i) s =
    ground (arith, s.earlier 0, store-set k r ts i (IsSlot-tail k t ts i s))

pub try_look_lem :
    (k : ℕ) (ts : List Task) (i : ℕ) → IsSlot k ts i → try_look k ts ≡ look_at (get_or ts i blank)
unfolding try_look
try_look_lem k [] i s = absurd (omega (arith, s.inside))
try_look_lem k (t ∷ ts) zero s = ground (arith, s.here)
try_look_lem k (t ∷ ts) (suc i) s =
    ground (arith, s.earlier 0, try_look_lem k ts i (IsSlot-tail k t ts i s))

-- Behind the slot, no other is done.
wait_look_behind :
    (k : ℕ) (ts : List Task)
    → ((j : ℕ) → j < length ts → (get_or ts j blank).id ≡ k → (get_or ts j blank).done ≡ false)
    → wait_look k ts true ≡ pending
unfolding wait_look
wait_look_behind k [] h = refl
wait_look_behind k (t ∷ ts) h =
    ground (arith, h 0, wait_look_behind k ts (λ j l. h (suc j) (omega arith)))

pub wait_look_lem :
    (k : ℕ) (ts : List Task) (i : ℕ)
    → IsSlot k ts i
    → wait_look k ts false ≡ look_at (get_or ts i blank)
unfolding wait_look
wait_look_lem k [] i s = absurd (omega (arith, s.inside))
wait_look_lem k (t ∷ ts) zero s =
    ground
      (arith, s.here, wait_look_behind k ts (λ j l. s.later (suc j) (omega arith) (omega arith)))
wait_look_lem k (t ∷ ts) (suc i) s =
    ground (arith, s.earlier 0, wait_look_lem k ts i (IsSlot-tail k t ts i s))

-- No slot has the id.
abbrev pub IsGone : ℕ → List Task → Type 0
IsGone k ts = (j : ℕ) → j < length ts → (get_or ts j blank).id ≢ k

pub wait_look-IsGone : (k : ℕ) (ts : List Task) → IsGone k ts → wait_look k ts false ≡ unknown
unfolding wait_look
wait_look-IsGone k [] h = refl
wait_look-IsGone k (t ∷ ts) h =
    ground (arith, h 0, wait_look-IsGone k ts (λ j l. h (suc j) (omega arith)))

pub store-IsGone : (k r : ℕ) (ts : List Task) → IsGone k ts → store k r ts ≡ ts
unfolding store
store-IsGone k r [] h = refl
store-IsGone k r (t ∷ ts) h =
    ground (arith, h 0, store-IsGone k r ts (λ j l. h (suc j) (omega arith)))

pub try_look-IsGone : (k : ℕ) (ts : List Task) → IsGone k ts → try_look k ts ≡ unknown
unfolding try_look
try_look-IsGone k [] h = refl
try_look-IsGone k (t ∷ ts) h =
    ground (arith, h 0, try_look-IsGone k ts (λ j l. h (suc j) (omega arith)))

pub length-store : (k r : ℕ) (ts : List Task) → length (store k r ts) ≡ length ts
unfolding store
length-store k r [] = refl
length-store k r (t ∷ ts) = ground (arith, length-store k r ts)
