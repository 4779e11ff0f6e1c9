-- ===== src/Channel/Select.antt =====
-- The choice among several channels.
use atlanage.Prelude.{
  ℕ, zero, suc, ◌+◌, ◌-◌, ◌/◌, ◌≡◌, ◌≢◌, ◌<◌, Bool, true, false, ◌&&◌, not, List, [], ◌∷◌, some,
  arith, ltb, length, get_or, Bool-cases, Option-cases, inl, inr,
}
use atlanage.Word.{is_int}
use atlanage.Channel.{Timeout, millis, first_ready, select_loop, ready, polling, spend}

-- An entry that is a channel with data.
abbrev pub has_data : ℕ × ℕ → Bool
has_data e = not (is_int e.0) && ltb 0 e.1

pub record IsFirstReady (cs : List (ℕ × ℕ)) (k : ℕ) : Type 0 where
  pub inside : k < length cs
  pub filled : has_data (get_or cs k (0, 0)) ≡ true
  pub earlier : (l : ℕ) → l < k → has_data (get_or cs l (0, 0)) ≡ false

IsFirstReady-cons :
    (c : ℕ × ℕ) (cs : List (ℕ × ℕ)) (k : ℕ)
    → has_data c ≡ false
    → IsFirstReady cs k
    → IsFirstReady (c ∷ cs) (suc k)
IsFirstReady-cons c cs k h f = record {
  inside = omega (arith, f.inside);
  filled = f.filled;
  earlier = go;
}
  where
    go : (l : ℕ) → l < suc k → has_data (get_or (c ∷ cs) l (0, 0)) ≡ false
    go zero p = h
    go (suc l) p = f.earlier l (omega arith)

first_ready_lem :
    (cs : List (ℕ × ℕ)) (i j : ℕ)
    → first_ready cs i ≡ some j
    → (k : ℕ) × IsFirstReady cs k × (j ≡ i + k)
unfolding first_ready
first_ready_lem [] i j h = cc
first_ready_lem ((chan, size) ∷ cs) i j h = elim (Bool-cases (has_data (chan, size))) [
  | inl e ↦ (
    0,
    record { inside = omega arith; filled = e; earlier = λ l p. absurd (omega arith) },
    ground arith,
  )
  | inr e ↦
      let (k, first, at) = first_ready_lem cs (i + 1) j (ground arith) in
      (suc k, IsFirstReady-cons (chan, size) cs k e first, omega arith)
]

-- The index that `xt_channel_select` returns is that of the first channel with data, in one of the
-- passes over the channels.
pub select_loop-IsFirstReady :
    (rounds : List (List (ℕ × ℕ))) (timeout : Timeout) (k : ℕ)
    → select_loop timeout rounds ≡ ready k
    → (n : ℕ) × (n < length rounds) × IsFirstReady (get_or rounds n []) k
unfolding select_loop
select_loop-IsFirstReady [] timeout k h = cc
select_loop-IsFirstReady (cs ∷ rounds) timeout k h = elim (Option-cases (first_ready cs 0)) [
  | inr (j, e) ↦
      let (k', first, at) = first_ready_lem cs 0 j e in
      let same : k ≡ k' = ground (arith, at) in (0, omega arith, rw same first)
  | inl e ↦ elim (Option-cases (spend timeout)) [
    | inl f ↦ absurd (ground arith)
    | inr (left, f) ↦
        let (n, inside, first) = select_loop-IsFirstReady rounds left k (ground arith) in
        (suc n, omega arith, first)
  ]
]

-- With a timeout of `n` milliseconds, `xt_channel_select` polls at most `n / 100 + 1` times.
pub select_loop-ne-polling :
    (rounds : List (List (ℕ × ℕ))) (n : ℕ)
    → n / 100 < length rounds
    → select_loop (millis n) rounds ≢ polling
unfolding select_loop
select_loop-ne-polling [] n h = absurd (omega arith)
select_loop-ne-polling (cs ∷ rounds) zero h = ground arith
select_loop-ne-polling (cs ∷ rounds) (suc n) h =
    ground (arith, select_loop-ne-polling rounds (suc n - 100))
