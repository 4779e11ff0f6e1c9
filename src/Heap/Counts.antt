-- ===== src/Heap/Counts.antt =====
-- Counts of references that are right, and how the steps of a release change them.
use atlanage.Prelude.{
  ℕ, suc, ◌+◌, ◌-◌, ◌%◌, ◌^◌, ◌≡◌, ◌≢◌, ◌≤◌, ◌<◌, refl, sym, ap, ◌∙◌, true, false, List, [], ◌∷◌,
  ◌++◌, Option, none, some, arith, ◌==◌, leb, ℕ_discrete,
}
use atlanage.Word.{is_real_ptr}
use atlanage.Effect.{count, count-append}
use atlanage.Heap.{Object, Heap, object_at, put, erase, fields, each, release, immortal}
use atlanage.Heap.Cells.{
  places, holds, held, live, is_dying, object_at-put, places-put, held-put, live-put,
}

-- The count of an object against the number of references to it; an immortal object may have any.
abbrev pub Agrees : Option Object → ℕ → Type 0
Agrees none n = n ≡ 0
Agrees (some o) n = o.ref_count < immortal → o.ref_count ≡ n

-- Every count is the number of the references that the program (`roots`) and the objects hold, and
-- nothing refers to a freed object.
abbrev pub Accounts : List ℕ → Heap → Type 0
Accounts roots h =
    (p : ℕ) → is_real_ptr p ≡ true → Agrees (object_at p h) (count p roots + held p h)

abbrev pub HasUniquePlaces : Heap → Type 0
HasUniquePlaces h = (p : ℕ) → places p h ≤ 1

-- A heap after some releases: the counts are right for the references that are left, no object
-- was added, and none is left half freed.
pub record IsReleased (roots : List ℕ) (h h' : Heap) : Type 0 where
  pub unique : HasUniquePlaces h'
  pub accounts : Accounts roots h'
  pub smaller : live h' ≤ live h
  pub dying : (p : ℕ) → is_dying p h' ≡ is_dying p h

-- A release that keeps counts right, on heaps of at most `n` objects.
abbrev pub Works : (ℕ → Heap → Option Heap) → ℕ → Type 0
Works f n =
    (v : ℕ) (roots : List ℕ) (h : Heap)
    → HasUniquePlaces h
    → Accounts (v ∷ roots) h
    → live h ≤ n
    → (h' : Heap) × (f v h ≡ some h') × IsReleased roots h h'

each_step :
    (f : ℕ → Heap → Option Heap) (v : ℕ) (vs : List ℕ) (h h' : Heap)
    → f v h ≡ some h'
    → each f (v ∷ vs) h ≡ each f vs h'
unfolding each
each_step f v vs h h' e = rw (e, each)

pub each-Works :
    (f : ℕ → Heap → Option Heap) (n : ℕ) (vs roots : List ℕ) (h : Heap)
    → Works f n
    → HasUniquePlaces h
    → Accounts (vs ++ roots) h
    → live h ≤ n
    → (h' : Heap) × (each f vs h ≡ some h') × IsReleased roots h h'
each-Works f n [] roots h works u a small = (
  h,
  unfold each in refl,
  record { unique = u; accounts = a; smaller = omega arith; dying = λ p. refl },
)
each-Works f n (v ∷ vs) roots h works u a small =
    let (h', e, one) = works v (vs ++ roots) h u a small in
    let (h'', e', rest) =
      each-Works f n vs roots h' works one.unique one.accounts (omega (arith, one.smaller)) in
    (
      h'',
      each_step f v vs h h' e ∙ e',
      record {
        unique = rest.unique;
        accounts = rest.accounts;
        smaller = omega (arith, one.smaller, rest.smaller);
        dying = λ p. rest.dying p ∙ one.dying p;
      },
    )

module _ (fuel v : ℕ) (h : Heap) where
  pub release-unreal : is_real_ptr v ≡ false → release (suc fuel) v h ≡ some h
  unfolding release
  release-unreal e = rw e

  module _ (o : Object) (real : is_real_ptr v ≡ true) (at : object_at v h ≡ some o) where
    pub release-immortal : immortal ≤ o.ref_count → release (suc fuel) v h ≡ some h
    unfolding release
    release-immortal big =
        let test : leb immortal o.ref_count ≡ true = ground arith in rw (real, at, test)

    pub release-lower :
        o.ref_count < immortal
        → 1 < o.ref_count
        → release (suc fuel) v h
          ≡ some (put v (record { ref_count = o.ref_count - 1; body = o.body }) h)
    unfolding release
    release-lower small more =
        let test : leb immortal o.ref_count ≡ false = ground arith in
        let last : (o.ref_count == 1) ≡ false = ground arith in
        let n : (o.ref_count + 2 ^ 32 - 1) % 2 ^ 32 ≡ o.ref_count - 1 = omega arith in
        rw (real, at, test, last, n)

    pub release-free :
        (h' : Heap)
        → o.ref_count ≡ 1
        → each (release fuel) (fields o.body) (put v (record { ref_count = 0; body = o.body }) h)
          ≡ some h'
        → release (suc fuel) v h ≡ some (erase v h')
    unfolding release
    release-free h' one e =
        let test : leb immortal o.ref_count ≡ false = ground arith in
        let last : (o.ref_count == 1) ≡ true = ground arith in
        let n : (o.ref_count + 2 ^ 32 - 1) % 2 ^ 32 ≡ 0 = omega arith in
        rw (real, at, test, last, n, e)

pub Agrees-eq : (x y : Option Object) (m n : ℕ) → x ≡ y → m ≡ n → Agrees y n → Agrees x m
Agrees-eq x y m n e f t = rw (e, f) t

module _ (v : ℕ) (roots : List ℕ) (h : Heap) (u : HasUniquePlaces h)
    (a : Accounts (v ∷ roots) h) where
  -- The counts of a heap, at an address and at the others.
  pub Accounts-at :
      (rs : List ℕ) (g : Heap)
      → Agrees (object_at v g) (count v rs + held v g)
      → ((p : ℕ) → v ≢ p → is_real_ptr p ≡ true → Agrees (object_at p g) (count p rs + held p g))
      → Accounts rs g
  Accounts-at rs g here there p real = elim (ℕ_discrete v p) [
    | yes e ↦ rw (← e) here
    | no ne ↦ there p ne real
  ]

  -- The count of the released object, before.
  pub known :
      (o : Object)
      → is_real_ptr v ≡ true
      → object_at v h ≡ some o
      → o.ref_count < immortal
      → o.ref_count ≡ suc (count v roots + held v h)
  known o real at small =
      let here : Agrees (some o) (count v (v ∷ roots) + held v h) =
        Agrees-eq (some o) (object_at v h) _ _ (sym at) refl (a v real) in
      ground (arith, here small)

  pub there_same :
      (p : ℕ) → v ≢ p → is_real_ptr p ≡ true → Agrees (object_at p h) (count p roots + held p h)
  there_same p ne real =
      Agrees-eq (object_at p h) (object_at p h) _ (count p (v ∷ roots) + held p h) refl
        (ground arith) (a p real)

  same-IsReleased : Accounts roots h → IsReleased roots h h
  same-IsReleased b = record { unique = u; accounts = b; smaller = omega arith; dying = λ p. refl }

  pub unreal-IsReleased : is_real_ptr v ≡ false → IsReleased roots h h
  unreal-IsReleased e = same-IsReleased (λ p real. there_same p (λ same. ground arith) real)

  module _ (o : Object) (real : is_real_ptr v ≡ true) (at : object_at v h ≡ some o) where
    pub immortal-IsReleased : immortal ≤ o.ref_count → IsReleased roots h h
    immortal-IsReleased big = same-IsReleased (
        Accounts-at roots h
          (Agrees-eq (object_at v h) (some o) _ _ at refl (λ small. absurd (omega arith)))
          there_same)

    module _ (small : o.ref_count < immortal) where
      abbrev pub lower : ℕ → Heap
      lower n = put v (record { ref_count = n; body = o.body }) h

      pub there-lower : (n : ℕ) (p : ℕ) → v ≢ p → object_at p (lower n) ≡ object_at p h
      there-lower n p ne =
          let other : (v == p) ≡ false = ground arith in
          object_at-put v (record { ref_count = n; body = o.body }) p h o at ∙ rw other refl

      pub here-lower :
          (n : ℕ) → object_at v (lower n) ≡ some (record { ref_count = n; body = o.body })
      here-lower n =
          let same : (v == v) ≡ true = ground arith in
          object_at-put v (record { ref_count = n; body = o.body }) v h o at ∙ rw same refl

      held-lower : (n p : ℕ) → 0 < n → 0 < o.ref_count → held p (lower n) ≡ held p h
      unfolding holds
      held-lower n p n_pos pos =
          ground (arith, held-put v (record { ref_count = n; body = o.body }) p h o at)

      held-dying : (p : ℕ) → 0 < o.ref_count → held p (lower 0) + count p (fields o.body) ≡ held p h
      unfolding holds
      held-dying p pos =
          ground (arith, held-put v (record { ref_count = 0; body = o.body }) p h o at)

      pub lower-IsReleased : 1 < o.ref_count → IsReleased roots h (lower (o.ref_count - 1))
      unfolding is_dying
      lower-IsReleased more =
          let n = o.ref_count - 1 in
          let o' : Object = record { ref_count = n; body = o.body } in
          let same = λ (p : ℕ). held-lower n p (omega arith) (omega arith) in
          record {
            unique = λ p. omega (arith, u p, places-put v o' p h);
            accounts =
                Accounts-at roots (lower n)
                  (Agrees-eq (object_at v (lower n)) (some o') _ (count v roots + held v h)
                    (here-lower n) (ap (λ k. count v roots + k) (same v))
                    (λ low. omega (arith, known o real at small)))
                  (λ p ne r.
                    Agrees-eq (object_at p (lower n)) (object_at p h) _ (count p roots + held p h)
                      (there-lower n p ne) (ap (λ k. count p roots + k) (same p))
                      (there_same p ne r));
            smaller = ground (arith, live-put v o' h o at);
            dying = λ p. ground (arith, object_at-put v o' p h o at, at);
          }

      lower-sum :
          (p : ℕ)
          → 0 < o.ref_count
          → count p (fields o.body ++ roots) + held p (lower 0) ≡ count p roots + held p h
      lower-sum p pos = omega (arith, held-dying p pos, count-append p (fields o.body) roots)

      -- The heap in which the fields are released.
      pub lower-Accounts : o.ref_count ≡ 1 → Accounts (fields o.body ++ roots) (lower 0)
      lower-Accounts one =
          let o' : Object = record { ref_count = 0; body = o.body } in
          let vs = fields o.body in
          let sum = λ (p : ℕ). lower-sum p (omega arith) in
          Accounts-at (vs ++ roots) (lower 0)
            (Agrees-eq (object_at v (lower 0)) (some o') _ (count v roots + held v h) (here-lower 0)
              (sum v) (λ low. omega (arith, known o real at small)))
            (λ p ne r.
              Agrees-eq (object_at p (lower 0)) (object_at p h) _ (count p roots + held p h)
                (there-lower 0 p ne) (sum p) (there_same p ne r))
