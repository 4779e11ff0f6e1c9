-- ===== src/Heap/Release.antt =====
-- `xt_release` and `xt_retain` keep every count right.
use atlanage.Prelude.{
  ℕ, zero, suc, ◌+◌, ◌-◌, ◌≡◌, ◌≢◌, ◌≤◌, ◌<◌, refl, sym, ap, ◌∙◌, true, false, List, ◌∷◌, none,
  some, arith, ◌==◌, if◌then◌else◌, Bool-cases, Option-cases, inl, inr, ℕ_discrete, dec_lt,
}
use atlanage.Word.{is_real_ptr}
use atlanage.Effect.{count}
use atlanage.Heap.{Object, Heap, object_at, erase, fields, release, immortal}
use atlanage.Heap.Cells.{
  holds, held, live, zero_count, is_dying, places-put, live-put, object_at-erase, places-erase,
  held-erase, live-erase,
}
use atlanage.Heap.Counts.{
  Agrees, Accounts, HasUniquePlaces, IsReleased, Works, each-Works, release-unreal,
  release-immortal, release-lower, release-free, Agrees-eq, Accounts-at, known, unreal-IsReleased,
  immortal-IsReleased, lower, there-lower, here-lower, lower-IsReleased, lower-Accounts,
}

module _ (v : ℕ) (roots : List ℕ) (h : Heap) (u : HasUniquePlaces h) (a : Accounts (v ∷ roots) h)
    (o : Object) (real : is_real_ptr v ≡ true) (at : object_at v h ≡ some o)
    (small : o.ref_count < immortal) (one : o.ref_count ≡ 1) (g : Heap)
    (r : IsReleased roots (lower v roots h u a o real at small 0) g) where
  -- The object whose fields are released is still there, with a count of 0.
  still_there : (o' : Object) × (object_at v g ≡ some o') × (o'.ref_count ≡ 0)
  unfolding is_dying
  still_there =
      let before = here-lower v roots h u a o real at small 0 in
      let same = r.dying v in
      elim (Option-cases (object_at v g)) [
        | inl e ↦ absurd (ground (arith, before, same, e))
        | inr (o', e) ↦ (o', e, ground (arith, before, same, e))
      ]

  held-erased : (p : ℕ) → held p (erase v g) ≡ held p g
  unfolding holds
  held-erased p = let (o', e, n) = still_there in ground (arith, held-erase v p g o' e)

  erased : (p : ℕ) → object_at p (erase v g) ≡ (if v == p then none else object_at p g)
  erased p = object_at-erase v p g (r.unique v)

  no_more : count v roots + held v g ≡ 0
  no_more =
      let (o', e, n) = still_there in
      let here : Agrees (some o') (count v roots + held v g) =
        Agrees-eq (some o') (object_at v g) _ _ (sym e) refl (r.accounts v real) in
      omega (arith, here (omega arith))

  erased-other : (p : ℕ) → v ≢ p → object_at p (erase v g) ≡ object_at p g
  erased-other p ne = let e : (v == p) ≡ false = ground arith in erased p ∙ rw e refl

  erased_self : object_at v (erase v g) ≡ none
  erased_self = let e : (v == v) ≡ true = ground arith in erased v ∙ rw e refl

  erased-is_dying : (p : ℕ) → is_dying p (erase v g) ≡ is_dying p h
  unfolding is_dying
  erased-is_dying p = elim (ℕ_discrete v p) [
    | yes same ↦ rw (← same, erased_self, at) (ground arith)
    | no ne ↦
        ap zero_count (erased-other p ne)
        ∙ r.dying p
        ∙ ap zero_count (there-lower v roots h u a o real at small 0 p ne)
  ]

  erased-live : live (erase v g) ≤ live h
  erased-live =
      let (o', e, n) = still_there in
      ground (
        arith,
        live-erase v g o' e,
        r.smaller,
        live-put v (record { ref_count = 0; body = o.body }) h o at,
      )

  erased-IsReleased : IsReleased roots h (erase v g)
  erased-IsReleased = record {
    unique = λ p. omega (arith, r.unique p, places-erase v p g);
    accounts =
        Accounts-at v roots h u a roots (erase v g)
          (Agrees-eq (object_at v (erase v g)) none _ 0 erased_self
            (ap (λ k. count v roots + k) (held-erased v) ∙ no_more) refl)
          (λ p ne real'.
            Agrees-eq (object_at p (erase v g)) (object_at p g) _ (count p roots + held p g)
              (erased-other p ne) (ap (λ k. count p roots + k) (held-erased p))
              (r.accounts p real'));
    smaller = erased-live;
    dying = erased-is_dying;
  }

module _ (fuel v : ℕ) (roots : List ℕ) (h : Heap) (u : HasUniquePlaces h)
    (a : Accounts (v ∷ roots) h) (real : is_real_ptr v ≡ true) where
  -- The last reference is given up.
  release_last :
      (n : ℕ)
      → Works (release fuel) n
      → live h ≤ suc n
      → (o : Object) → object_at v h ≡ some o
      → o.ref_count ≡ 1
      → (h' : Heap) × (release (suc fuel) v h ≡ some h') × IsReleased roots h h'
  release_last n works few o at one =
      let small : o.ref_count < immortal = omega arith in
      let o' : Object = record { ref_count = 0; body = o.body } in
      let (g, e, r) =
        each-Works (release fuel) n (fields o.body) roots (lower v roots h u a o real at small 0)
          works (λ p. omega (arith, u p, places-put v o' p h))
          (lower-Accounts v roots h u a o real at small one)
          (ground (arith, live-put v o' h o at)) in
      (
        erase v g,
        release-free fuel v h o real at g one e,
        erased-IsReleased v roots h u a o real at small one g r,
      )

  -- A reference to an object that is there is given up.
  release_object :
      (o : Object)
      → object_at v h ≡ some o
      → (o.ref_count ≡ 1 → (h' : Heap) × (release (suc fuel) v h ≡ some h') × IsReleased roots h h')
      → (h' : Heap) × (release (suc fuel) v h ≡ some h') × IsReleased roots h h'
  release_object o at last = elim (dec_lt o.ref_count immortal) [
    | no big ↦
        let much : immortal ≤ o.ref_count = omega arith in
        (
          h,
          release-immortal fuel v h o real at much,
          immortal-IsReleased v roots h u a o real at much,
        )
    | yes small ↦ elim (ℕ_discrete o.ref_count 1) [
      | yes one ↦ last one
      | no ne ↦
          let more : 1 < o.ref_count = omega (arith, known v roots h u a o real at small) in
          (
            lower v roots h u a o real at small (o.ref_count - 1),
            release-lower fuel v h o real at small more,
            lower-IsReleased v roots h u a o real at small more,
          )
    ]
  ]

  -- Something refers to the object, so it is there.
  has_object : (o : Object) × (object_at v h ≡ some o)
  has_object = elim (Option-cases (object_at v h)) [
    | inl freed ↦
        let here : Agrees none (count v (v ∷ roots) + held v h) =
          Agrees-eq none (object_at v h) _ _ (sym freed) refl (a v real) in
        absurd (ground (arith, here))
    | inr (o, at) ↦ (o, at)
  ]

live_one : (v : ℕ) (h : Heap) (o : Object) → object_at v h ≡ some o → o.ref_count ≡ 1 → 0 < live h
live_one v h o at one = ground (arith, live-erase v h o at)

-- A release keeps counts right, with fuel for every object that is not being freed.
release-Works : (fuel : ℕ) → Works (release (suc fuel)) fuel
release-Works zero v roots h u a few = elim (Bool-cases (is_real_ptr v)) [
  | inr unreal ↦ (h, release-unreal zero v h unreal, unreal-IsReleased v roots h u a unreal)
  | inl real ↦
      let (o, at) = has_object zero v roots h u a real in
      release_object zero v roots h u a real o at
        (λ one. absurd (omega (arith, few, live_one v h o at one)))
]
release-Works (suc n) v roots h u a few = elim (Bool-cases (is_real_ptr v)) [
  | inr unreal ↦ (h, release-unreal (suc n) v h unreal, unreal-IsReleased v roots h u a unreal)
  | inl real ↦
      let (o, at) = has_object (suc n) v roots h u a real in
      release_object (suc n) v roots h u a real o at
        (λ one. release_last (suc n) v roots h u a real n (release-Works n) few o at one)
]

-- In a heap where every count is right, `xt_release` of a value that the program refers to returns,
-- touches no freed object, and leaves a heap where every count is right for the other references of
-- the program: nothing refers to a freed object, and no object is left with a count of 0 that had
-- another before. Fuel for each object whose count is not 0 is enough.
pub release-IsReleased :
    (fuel v : ℕ) (roots : List ℕ) (h : Heap)
    → HasUniquePlaces h
    → Accounts (v ∷ roots) h
    → live h ≤ fuel
    → (h' : Heap) × (release (suc fuel) v h ≡ some h') × IsReleased roots h h'
release-IsReleased fuel v roots h u a few = release-Works fuel v roots h u a few
