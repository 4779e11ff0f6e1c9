-- ===== src/Heap/Retain.antt =====
-- What else follows from counts that are right: `xt_retain`, and which objects a release leaves.
use atlanage.Prelude.{
  ℕ, zero, suc, ◌+◌, ◌%◌, ◌^◌, ◌≡◌, ◌≢◌, ◌≤◌, ◌<◌, refl, sym, ap, ◌∙◌, true, false, List, ◌∷◌, none,
  some, arith, ◌==◌, leb, if◌then◌else◌, Bool-cases, Option-cases, inl, inr, ℕ_discrete, dec_lt,
  get_or,
}
use native.Mathlib.Nat.{mod-add-mod, mod-eq_of_lt, add-zero}
use atlanage.Word.{is_real_ptr, xt_null}
use atlanage.Effect.{count}
use atlanage.Heap.{
  Object, Heap, object_at, put, fields, release, retain_value, immortal, buffered, channel,
}
use atlanage.Heap.Cells.{holds, held, live, is_dying, object_at-put, places-put, held-put}
use atlanage.Heap.Counts.{Agrees, Accounts, HasUniquePlaces, Agrees-eq}
use atlanage.Heap.Release.{release-IsReleased}
use atlanage.Channel.{Channel}
use atlanage.Channel.Queue.{slots, contents, IsValid}

module _ (v : ℕ) (roots : List ℕ) (h : Heap) (u : HasUniquePlaces h) (a : Accounts roots h) where
  retain-unreal : is_real_ptr v ≡ false → retain_value v h ≡ some h
  unfolding retain_value
  retain-unreal e = rw e

  unreal-Accounts : is_real_ptr v ≡ false → Accounts (v ∷ roots) h
  unreal-Accounts e p real =
      let ne : v ≢ p = λ same. ground arith in
      Agrees-eq (object_at p h) (object_at p h) _ (count p roots + held p h) refl (ground arith)
        (a p real)

  module _ (real : is_real_ptr v ≡ true) (o : Object) (at : object_at v h ≡ some o) where
    retain-immortal : immortal ≤ o.ref_count → retain_value v h ≡ some h
    unfolding retain_value
    retain-immortal big =
        let test : leb immortal o.ref_count ≡ true = ground arith in rw (real, at, test)

    immortal-Accounts : immortal ≤ o.ref_count → Accounts (v ∷ roots) h
    immortal-Accounts big p r = elim (ℕ_discrete v p) [
      | yes same ↦
          rw (← same)
            (Agrees-eq (object_at v h) (some o) _ _ at refl (λ small. absurd (omega arith)))
      | no ne ↦
          Agrees-eq (object_at p h) (object_at p h) _ (count p roots + held p h) refl (ground arith)
            (a p r)
    ]

    abbrev higher : Heap
    higher = put v (record { ref_count = o.ref_count + 1; body = o.body }) h

    retain-higher : o.ref_count < immortal → retain_value v h ≡ some higher
    unfolding retain_value
    retain-higher small =
        let test : leb immortal o.ref_count ≡ false = ground arith in
        let n : (o.ref_count + 1) % 2 ^ 32 ≡ o.ref_count + 1 = omega arith in rw (real, at, test, n)

    held-higher : (p : ℕ) → 0 < o.ref_count → held p higher ≡ held p h
    unfolding holds
    held-higher p pos =
        ground (arith, held-put v (record { ref_count = o.ref_count + 1; body = o.body }) p h o at)

    object_at-higher :
        (p : ℕ)
        → object_at p higher ≡ (
            if v == p
            then some (record { ref_count = o.ref_count + 1; body = o.body })
            else object_at p h)
    object_at-higher p =
        object_at-put v (record { ref_count = o.ref_count + 1; body = o.body }) p h o at

    counted : o.ref_count < immortal → o.ref_count ≡ count v roots + held v h
    counted small =
        let here : Agrees (some o) (count v roots + held v h) =
          Agrees-eq (some o) (object_at v h) _ _ (sym at) refl (a v real) in
        here small

    higher-Accounts : o.ref_count < immortal → 0 < o.ref_count → Accounts (v ∷ roots) higher
    higher-Accounts small pos p r = elim (ℕ_discrete v p) [
      | yes same ↦
          let test : (v == v) ≡ true = ground arith in
          rw (← same) (
            Agrees-eq (object_at v higher)
              (some (record { ref_count = o.ref_count + 1; body = o.body })) _
              (suc (count v roots + held v h)) (object_at-higher v ∙ rw test refl)
              (ground (arith, held-higher v pos)) (λ low. omega (arith, counted small)))
      | no ne ↦
          let test : (v == p) ≡ false = ground arith in
          Agrees-eq (object_at p higher) (object_at p h) _ (count p roots + held p h)
            (object_at-higher p ∙ rw test refl) (ground (arith, held-higher p pos)) (a p r)
    ]

  -- In a heap where every count is right, `xt_retain` of a value that something refers to touches
  -- no freed object, and leaves a heap where every count is right with one reference of the program
  -- more. A value that is no pointer needs no reference.
  pub retain_value-Accounts :
      (is_real_ptr v ≡ true → 0 < count v roots + held v h)
      → (h' : Heap) × (retain_value v h ≡ some h') × HasUniquePlaces h' × Accounts (v ∷ roots) h'
  retain_value-Accounts known = elim (Bool-cases (is_real_ptr v)) [
    | inr unreal ↦ (h, retain-unreal unreal, u, unreal-Accounts unreal)
    | inl real ↦ elim (Option-cases (object_at v h)) [
      | inl freed ↦
          let here : Agrees none (count v roots + held v h) =
            Agrees-eq none (object_at v h) _ _ (sym freed) refl (a v real) in
          absurd (omega (arith, here, known real))
      | inr (o, at) ↦ elim (dec_lt o.ref_count immortal) [
        | no big ↦ (
          h,
          retain-immortal real o at (omega arith),
          u,
          immortal-Accounts real o at (omega arith),
        )
        | yes small ↦ (
          higher real o at,
          retain-higher real o at small,
          λ p. omega (
            arith,
            u p,
            places-put v (record { ref_count = o.ref_count + 1; body = o.body }) p h,
          ),
          higher-Accounts real o at small (omega (arith, counted real o at small, known real)),
        )
      ]
    ]
  ]

-- After a release in a heap where every count is right and no object is being freed, each object
-- that is left is immortal or referred to: what nothing refers to is freed.
pub release_leaves :
    (fuel v : ℕ) (roots : List ℕ) (h h' : Heap)
    → HasUniquePlaces h
    → Accounts (v ∷ roots) h
    → live h ≤ fuel
    → ((p : ℕ) → is_dying p h ≡ false)
    → release (suc fuel) v h ≡ some h'
    → (p : ℕ) (o : Object) → is_real_ptr p ≡ true
    → object_at p h' ≡ some o
    → o.ref_count < immortal
    → 0 < count p roots + held p h'
unfolding is_dying
release_leaves fuel v roots h h' u a few none_dying e p o real at small =
    let (g, e', r) = release-IsReleased fuel v roots h u a few in
    let same : h' ≡ g = ground (arith, e, e') in
    let found : object_at p g ≡ some o = rw (← same) at in
    let n : Agrees (some o) (count p roots + held p g) =
      Agrees-eq (some o) (object_at p g) _ _ (sym found) refl (r.accounts p real) in
    let alive = r.dying p ∙ none_dying p in rw same (ground (arith, n small, found, alive))

buffered-slots :
    (n i : ℕ) (c : Channel)
    → 0 < c.capacity
    → buffered n i c ≡ slots c.buffer c.capacity ((c.head + i) % c.capacity) n
unfolding buffered slots
buffered-slots zero i c room = refl
buffered-slots (suc n) i c room =
    let e : (c.head + (i + 1)) % c.capacity ≡ ((c.head + i) % c.capacity + 1) % c.capacity =
      ap (λ k. k % c.capacity) (omega arith) ∙ sym (mod-add-mod (c.head + i) c.capacity 1) in
    ap (◌∷◌ (get_or c.buffer ((c.head + i) % c.capacity) xt_null))
      (buffered-slots n (i + 1) c room ∙ ap (λ k. slots c.buffer c.capacity k n) e)

-- What `xt_free_obj` releases of a valid channel are the values that it holds, oldest first.
pub fields-contents : (c : Channel) → IsValid c → fields (channel c) ≡ contents c
unfolding fields contents
fields-contents c valid =
    let start : (c.head + 0) % c.capacity ≡ c.head = rw (add-zero, mod-eq_of_lt valid.head_in) in
    buffered-slots c.size 0 c valid.room ∙ rw start refl
