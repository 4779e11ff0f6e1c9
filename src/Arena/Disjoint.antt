-- ===== src/Arena/Disjoint.antt =====
-- No two allocations of an arena share a byte.
use atlanage.Prelude.{
  ℕ, ◌+◌, ◌%◌, ◌^◌, ◌≡◌, ◌≢◌, ◌≤◌, ◌<◌, ◌⊎◌, refl, List, [], ◌∷◌, Option, some, ltb, arith, inl,
  inr, ℕ_discrete, sym, dec_lt, true, false, if◌then◌else◌,
}
use atlanage.Arena.{Block, Arena, Region, rounded, block_bytes, expand, take_bytes, alloc_raw}

abbrev pub All : (Region → Type 0) → List Region → Type 0
All P [] = Unit
All P (r ∷ rs) = P r × All P rs

-- The regions of the current buffer lie below its offset.
abbrev pub IsBelow : Block → Region → Type 0
IsBelow b r = r.buffer ≡ b.buffer → r.start + r.length ≤ b.offset

-- Two regions share no byte.
abbrev pub IsApart : Region → Region → Type 0
IsApart r s =
    (r.buffer ≢ s.buffer) ⊎ ((r.start + r.length ≤ s.start) ⊎ (s.start + s.length ≤ r.start))

abbrev pub IsIn : ℕ → Region → Type 0
IsIn buffer r = r.buffer ≡ buffer

-- What holds after an allocation of `wanted` bytes, next to the regions allocated before.
pub record IsAllocated (arena : Arena) (r : Region) (rs : List Region) (wanted : ℕ) : Type 0 where
  pub enough : wanted ≤ r.length
  pub inside : r.start + r.length ≤ arena.current.size
  pub buffer : r.buffer ≡ arena.current.buffer
  pub apart : All (IsApart r) rs
  pub below : All (IsBelow (arena.current)) (r ∷ rs)
  pub next : arena.current.offset ≡ r.start + r.length
  pub ready : arena.current.offset ≤ arena.current.size
  pub small : arena.current.size < 2 ^ 63

module _ (b : Block) (size : ℕ) (small : b.offset + size < 2 ^ 64) where
  IsApart-below :
      (rs : List Region)
      → All (IsBelow b) rs
      → All (IsApart (record { buffer = b.buffer; start = b.offset; length = size })) rs
  IsApart-below [] all = tt
  IsApart-below (r ∷ rs) all =
      let here : IsApart (record { buffer = b.buffer; start = b.offset; length = size }) r =
        elim (ℕ_discrete b.buffer r.buffer) [
          | yes e ↦ inr (inr (all.0 (sym e)))
          | no ne ↦ inl ne
        ] in
      (here, IsApart-below rs all.1)

  IsBelow-later :
      (rs : List Region)
      → All (IsBelow b) rs
      → All (IsBelow (record b { offset = (b.offset + size) % 2 ^ 64 })) rs
  IsBelow-later [] all = tt
  IsBelow-later (r ∷ rs) all = (λ e. omega (arith, all.0 e), IsBelow-later rs all.1)

-- A buffer that no region lies in.
IsBelow-fresh :
    (buffer size : ℕ) (rs : List Region)
    → All (λ r. r.buffer ≢ buffer) rs
    → All (IsBelow (record { buffer = buffer; size = size; offset = 0 })) rs
IsBelow-fresh buffer size [] all = tt
IsBelow-fresh buffer size (r ∷ rs) all = (λ e. absurd (all.0 e), IsBelow-fresh buffer size rs all.1)

take_bytes-IsAllocated :
    (arena : Arena) (rs : List Region) (wanted : ℕ)
    → wanted < 2 ^ 63
    → arena.current.offset + rounded wanted ≤ arena.current.size
    → arena.current.size < 2 ^ 63
    → All (IsBelow (arena.current)) rs
    → let (a, r) = take_bytes arena (rounded wanted) in IsAllocated a r rs wanted
unfolding take_bytes
take_bytes-IsAllocated arena rs wanted small room size all = record {
  enough = omega arith;
  inside = omega arith;
  buffer = refl;
  apart = IsApart-below (arena.current) (rounded wanted) (omega arith) rs all;
  below = (λ e. omega arith, IsBelow-later (arena.current) (rounded wanted) (omega arith) rs all);
  next = omega arith;
  ready = omega arith;
  small = size;
}

alloc_raw_here :
    (fresh : Option ℕ) (arena : Arena) (wanted : ℕ)
    → arena.current.offset + rounded wanted ≤ arena.current.size
    → arena.current.size < 2 ^ 63
    → alloc_raw fresh arena wanted ≡ some (take_bytes arena (rounded wanted))
unfolding alloc_raw
alloc_raw_here fresh arena wanted room size =
    let test : ltb arena.current.size ((arena.current.offset + rounded wanted) % 2 ^ 64) ≡ false =
      ground arith in
    rw test

alloc_raw_expanded :
    (fresh : ℕ) (arena : Arena) (wanted : ℕ)
    → arena.current.size < arena.current.offset + rounded wanted
    → arena.current.offset + rounded wanted < 2 ^ 64
    → alloc_raw (some fresh) arena wanted
      ≡ some (take_bytes (expand arena (rounded wanted) fresh) (rounded wanted))
unfolding alloc_raw
alloc_raw_expanded fresh arena wanted over small =
    let test : ltb arena.current.size ((arena.current.offset + rounded wanted) % 2 ^ 64) ≡ true =
      ground arith in
    rw test

expand-IsAllocated :
    (fresh : ℕ) (arena : Arena) (rs : List Region) (wanted : ℕ)
    → wanted < 2 ^ 62
    → All (λ r. r.buffer ≢ fresh) rs
    → let (a, r) = take_bytes (expand arena (rounded wanted) fresh) (rounded wanted) in
      IsAllocated a r rs wanted
unfolding expand
expand-IsAllocated fresh arena rs wanted small new =
    let n : ℕ = if ltb block_bytes (rounded wanted) then rounded wanted else block_bytes in
    take_bytes-IsAllocated (expand arena (rounded wanted) fresh) rs wanted (omega arith)
      (ground arith) (ground arith) (IsBelow-fresh fresh n rs new)

-- An allocation in an arena, where `calloc` answers with a buffer in which no region lies, returns a
-- region that is long enough, lies in the current buffer of the arena and shares no byte with the
-- regions allocated before. The next free byte is the one behind the region, so that the arena is
-- ready for the next allocation: all regions in its current buffer are below its offset, which is
-- within its size, which is below 2 ^ 63. This was so before, and fewer than 2 ^ 62 bytes are wanted.
pub alloc_raw-IsAllocated :
    (fresh : ℕ) (arena : Arena) (rs : List Region) (wanted : ℕ)
    → wanted < 2 ^ 62
    → arena.current.offset ≤ arena.current.size
    → arena.current.size < 2 ^ 63
    → All (IsBelow (arena.current)) rs
    → All (λ r. r.buffer ≢ fresh) rs
    → (a : Arena) × (r : Region) × (alloc_raw (some fresh) arena wanted ≡ some (a, r))
      × IsAllocated a r rs wanted
alloc_raw-IsAllocated fresh arena rs wanted small inside size all new =
    let n : rounded wanted < 2 ^ 62 + 8 = omega arith in
    elim (dec_lt arena.current.size (arena.current.offset + rounded wanted)) [
      | no fits ↦ (
        (take_bytes arena (rounded wanted)).0,
        (take_bytes arena (rounded wanted)).1,
        alloc_raw_here (some fresh) arena wanted (omega arith) (omega arith),
        take_bytes-IsAllocated arena rs wanted (omega arith) (omega arith) (omega arith) all,
      )
      | yes over ↦
          let wider = expand arena (rounded wanted) fresh in
          (
            (take_bytes wider (rounded wanted)).0,
            (take_bytes wider (rounded wanted)).1,
            alloc_raw_expanded fresh arena wanted over (omega arith),
            expand-IsAllocated fresh arena rs wanted small new,
          )
    ]
