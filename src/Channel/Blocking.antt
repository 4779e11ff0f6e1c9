-- ===== src/Channel/Blocking.antt =====
-- The operations that wait.
use atlanage.Prelude.{
  ℕ, zero, suc, ◌≡◌, ◌≢◌, ◌<◌, ◌⊎◌, inl, inr, refl, Bool, true, false, List, [], ◌∷◌, ◌++◌, Option,
  none, some, arith, ltb, leb, ◌==◌, if◌then◌else◌,
}
use atlanage.Channel.{
  Channel, Timeout, forever, millis, Turn, Outcome, received, sent, gave_up, waiting,
  receive_blocking, send_blocking, received_from, sent_to, run_first, after_wait, is_expired,
}
use atlanage.Channel.Queue.{
  contents, IsValid, contents-put, put-IsValid, contents-take_out, take_out-IsValid,
}

-- What the other threads leave behind is valid.
abbrev pub IsValidTurn : Turn → Type 0
IsValidTurn t = IsValid t.found × ((c : Channel) → t.after_run ≡ some c → IsValid c)

abbrev pub AllValid : List Turn → Type 0
AllValid [] = Unit
AllValid (t ∷ ts) = IsValidTurn t × AllValid ts

-- The channel as the operation may find it: at first, as the others leave it while it waits, or
-- after the other fibers ran.
abbrev pub IsFound : Channel → Channel → List Turn → Type 0
IsFound d c [] = d ≡ c
IsFound d c (t ∷ ts) = (d ≡ c) ⊎ ((t.after_run ≡ some d) ⊎ IsFound d t.found ts)

IsFound-here : (c : Channel) (ts : List Turn) → IsFound c c ts
IsFound-here c [] = refl
IsFound-here c (t ∷ ts) = inl refl

-- A value was received: it was the oldest of the channel that was found, which keeps the rest.
abbrev pub IsOldest : (Channel → Type 0) → Outcome → Type 0
IsOldest F (received v c es) =
    IsValid c
    × ((before : Channel) × F before × IsValid before × (contents before ≡ v ∷ contents c))
IsOldest F (sent c es) = ⊥
IsOldest F (gave_up c) = F c
IsOldest F waiting = Unit

IsOldest-wider :
    (F G : Channel → Type 0) (o : Outcome)
    → ((c : Channel) → F c → G c)
    → IsOldest F o
    → IsOldest G o
IsOldest-wider F G (received v c es) f (valid, (d, h, v', e)) = (valid, (d, f d h, v', e))
IsOldest-wider F G (sent c es) f h = h
IsOldest-wider F G (gave_up c) f h = f c h
IsOldest-wider F G waiting f h = tt

module _ (F : Channel → Type 0) where
  received_from-IsOldest :
      (chan : ℕ) (c : Channel) → F c → IsValid c → 0 < c.size → IsOldest F (received_from chan c)
  received_from-IsOldest chan c found valid h =
      (take_out-IsValid chan c valid h, (c, found, valid, contents-take_out chan c valid h))

  IsOldest-if :
      (b : Bool) (x y : Outcome)
      → (b ≡ true → IsOldest F x)
      → (b ≡ false → IsOldest F y)
      → IsOldest F (if b then x else y)
  IsOldest-if true x y f g = f refl
  IsOldest-if false x y f g = g refl

  IsOldest-run :
      (chan : ℕ) (o : Option Channel) (wait : Outcome)
      → ((c : Channel) → o ≡ some c → F c × IsValid c)
      → IsOldest F wait
      → IsOldest F (elim o as (λ _. Outcome) [
        | none ↦ wait
        | some ran ↦ if ltb 0 ran.size then received_from chan ran else wait
      ])
  IsOldest-run chan none wait valid h = h
  IsOldest-run chan (some ran) wait valid h =
      let v = valid ran refl in
      IsOldest-if (ltb 0 ran.size) (received_from chan ran) wait
        (λ e. received_from-IsOldest chan ran v.0 v.1 (ground arith)) (λ e. h)

  IsOldest-expired :
      (timeout : Timeout) (c : Channel)
      → F c
      → IsOldest F (if is_expired timeout then gave_up c else waiting)
  IsOldest-expired timeout c found =
      IsOldest-if (is_expired timeout) (gave_up c) waiting (λ e. found) (λ e. tt)

run_first-some :
    (timeout : Timeout) (ran : Option Channel) (c : Channel)
    → run_first timeout ran ≡ some c
    → ran ≡ some c
run_first-some forever ran c h = h
run_first-some (millis n) ran c h = cc

-- What `xt_channel_receive_blocking` returns is the oldest value of a channel that it found, at
-- first or in a round of its wait, and the channel is left with the rest of the values of that one.
-- It may also give up, and leaves a channel that it found, or still wait. The channels that it finds
-- are valid.
pub receive_blocking-IsOldest :
    (chan : ℕ) (ts : List Turn) (c : Channel) (timeout : Timeout)
    → IsValid c
    → AllValid ts
    → IsOldest (λ d. IsFound d c ts) (receive_blocking chan c timeout ts)
unfolding receive_blocking
receive_blocking-IsOldest chan [] c timeout valid all =
    let F = λ (d : Channel). IsFound d c [] in
    IsOldest-if F (c.size == 0) _ _ (λ e. IsOldest-expired F timeout c refl)
      (λ e. received_from-IsOldest F chan c refl valid (ground arith))
receive_blocking-IsOldest chan (t ∷ ts) c timeout valid all =
    let F = λ (d : Channel). IsFound d c (t ∷ ts) in
    let next =
      IsOldest-wider (λ d. IsFound d t.found ts) F
        (receive_blocking chan t.found (after_wait timeout) ts) (λ d h. inr (inr h))
        (receive_blocking-IsOldest chan ts t.found (after_wait timeout) all.0.0 all.1) in
    let wait =
      IsOldest-if F t.signalled (receive_blocking chan t.found (after_wait timeout) ts)
        (gave_up t.found) (λ e. next) (λ e. inr (inr (IsFound-here t.found ts))) in
    let ran : (d : Channel) → run_first timeout t.after_run ≡ some d → F d × IsValid d = λ d h. (
      inr (inl (run_first-some timeout t.after_run d h)),
      all.0.1 d (run_first-some timeout t.after_run d h),
    ) in
    IsOldest-if F (c.size == 0) _ _
      (λ e.
        IsOldest-if F (is_expired timeout) _ _ (λ f. inl refl)
          (λ f. IsOldest-run F chan (run_first timeout t.after_run) _ ran wait))
      (λ e. received_from-IsOldest F chan c (inl refl) valid (ground arith))

-- With a timeout of some milliseconds the operation ends after one wait.
pub receive_blocking-ne-waiting :
    (chan n : ℕ) (c : Channel) (t : Turn) (ts : List Turn)
    → receive_blocking chan c (millis n) (t ∷ ts) ≢ waiting
unfolding receive_blocking
receive_blocking-ne-waiting chan zero c t [] h = ground arith
receive_blocking-ne-waiting chan (suc n) c t [] h = ground arith
receive_blocking-ne-waiting chan zero c t (u ∷ ts) h = ground arith
receive_blocking-ne-waiting chan (suc n) c t (u ∷ ts) h = ground arith

-- A value was sent: it was put behind the values of a valid channel with a free slot.
abbrev pub IsAppended : ℕ → Outcome → Type 0
IsAppended v (sent c es) =
    IsValid c
    × ((before : Channel) × IsValid before
        × (before.size < before.capacity)
        × (contents c ≡ contents before ++ v ∷ []))
IsAppended v (received w c es) = ⊥
IsAppended v (gave_up c) = Unit
IsAppended v waiting = Unit

module _ (chan v : ℕ) where
  sent_to-IsAppended :
      (c : Channel) → IsValid c → c.size < c.capacity → IsAppended v (sent_to chan c v)
  sent_to-IsAppended c valid h =
      (put-IsValid chan v c valid h, (c, valid, h, contents-put chan v c valid h))

  IsAppended-if :
      (b : Bool) (x y : Outcome)
      → (b ≡ true → IsAppended v x)
      → (b ≡ false → IsAppended v y)
      → IsAppended v (if b then x else y)
  IsAppended-if true x y f g = f refl
  IsAppended-if false x y f g = g refl

  IsAppended-run :
      (o : Option Channel) (wait : Outcome)
      → ((c : Channel) → o ≡ some c → IsValid c)
      → IsAppended v wait
      → IsAppended v (elim o as (λ _. Outcome) [
        | none ↦ wait
        | some ran ↦ if ltb ran.size ran.capacity then sent_to chan ran v else wait
      ])
  IsAppended-run none wait valid h = h
  IsAppended-run (some ran) wait valid h =
      IsAppended-if (ltb ran.size ran.capacity) (sent_to chan ran v) wait
        (λ e. sent_to-IsAppended ran (valid ran refl) (ground arith)) (λ e. h)

  -- Whatever the others do while it waits, `xt_channel_send_blocking` stores the value only into a
  -- free slot of a valid channel, behind the values that are there. It may also give up or still
  -- wait. The channels that the others leave are valid.
  pub send_blocking-IsAppended :
      (ts : List Turn) (c : Channel) (timeout : Timeout)
      → IsValid c
      → AllValid ts
      → IsAppended v (send_blocking chan c v timeout ts)
  unfolding send_blocking
  send_blocking-IsAppended [] c timeout valid all =
      IsAppended-if (leb c.capacity c.size) _ _
        (λ e. IsAppended-if (is_expired timeout) (gave_up c) waiting (λ f. tt) (λ f. tt))
        (λ e. sent_to-IsAppended c valid (ground arith))
  send_blocking-IsAppended (t ∷ ts) c timeout valid all =
      let next = send_blocking-IsAppended ts t.found (after_wait timeout) all.0.0 all.1 in
      let wait =
        IsAppended-if t.signalled (send_blocking chan t.found v (after_wait timeout) ts)
          (gave_up t.found) (λ e. next) (λ e. tt) in
      let ran = λ (d : Channel) (h : run_first timeout t.after_run ≡ some d).
        all.0.1 d (run_first-some timeout t.after_run d h) in
      IsAppended-if (leb c.capacity c.size) _ _
        (λ e.
          IsAppended-if (is_expired timeout) _ _ (λ f. tt)
            (λ f. IsAppended-run (run_first timeout t.after_run) _ ran wait))
        (λ e. sent_to-IsAppended c valid (ground arith))
