-- ===== src/Heap/Cells.antt =====
-- Writes and frees on the list of the objects.
use atlanage.Prelude.{
  ℕ, ◌+◌, ◌≡◌, ◌≤◌, refl, Bool, false, [], ◌∷◌, Option, none, some, arith, ◌==◌, if◌then◌else◌,
}
use atlanage.Effect.{count, one_if}
use atlanage.Heap.{Object, Heap, object_at, put, erase, fields}

-- How many objects have an address.
unfoldable pub places : ℕ → Heap → ℕ
places p [] = 0
places p (c ∷ h) = one_if (c.address == p) + places p h

-- The references to a value that an object holds: none, once its count is 0 and it is being freed.
unfoldable pub holds : ℕ → Object → ℕ
holds p o = if o.ref_count == 0 then 0 else count p (fields o.body)

-- The references to a value that all objects hold.
unfoldable pub held : ℕ → Heap → ℕ
held p [] = 0
held p (c ∷ h) = holds p c.object + held p h

abbrev pub is_counted : Object → ℕ
is_counted o = if o.ref_count == 0 then 0 else 1

-- The objects whose count is not 0.
unfoldable pub live : Heap → ℕ
live [] = 0
live (c ∷ h) = is_counted c.object + live h

abbrev pub zero_count : Option Object → Bool
zero_count none = false
zero_count (some o) = o.ref_count == 0

-- The object at an address is being freed.
unfoldable pub is_dying : ℕ → Heap → Bool
is_dying p h = zero_count (object_at p h)

module _ (v : ℕ) (o : Object) where
  pub object_at-put :
      (p : ℕ) (h : Heap) (old : Object)
      → object_at v h ≡ some old
      → object_at p (put v o h) ≡ (if v == p then some o else object_at p h)
  unfolding object_at put
  object_at-put p [] old e = cc
  object_at-put p (c ∷ h) old e = ground (arith, object_at-put p h old)

  pub places-put : (p : ℕ) (h : Heap) → places p (put v o h) ≡ places p h
  unfolding places put
  places-put p [] = refl
  places-put p (c ∷ h) = ground (arith, places-put p h)

  pub held-put :
      (p : ℕ) (h : Heap) (old : Object)
      → object_at v h ≡ some old
      → held p (put v o h) + holds p old ≡ held p h + holds p o
  unfolding held object_at put
  held-put p [] old e = cc
  held-put p (c ∷ h) old e = ground (arith, held-put p h old)

  pub live-put :
      (h : Heap) (old : Object)
      → object_at v h ≡ some old
      → live (put v o h) + is_counted old ≡ live h + is_counted o
  unfolding live object_at put
  live-put [] old e = cc
  live-put (c ∷ h) old e = ground (arith, live-put h old)

pub object_at-places : (p : ℕ) (h : Heap) → places p h ≡ 0 → object_at p h ≡ none
unfolding object_at places
object_at-places p [] e = refl
object_at-places p (c ∷ h) e = ground (arith, object_at-places p h)

module _ (v : ℕ) where
  pub object_at-erase :
      (p : ℕ) (h : Heap)
      → places v h ≤ 1
      → object_at p (erase v h) ≡ (if v == p then none else object_at p h)
  unfolding object_at erase places
  object_at-erase p [] once = ground arith
  object_at-erase p (c ∷ h) once = ground (arith, object_at-erase p h, object_at-places v h)

  pub places-erase : (p : ℕ) (h : Heap) → places p (erase v h) ≤ places p h
  unfolding places erase
  places-erase p [] = omega arith
  places-erase p (c ∷ h) = ground (arith, places-erase p h)

  pub held-erase :
      (p : ℕ) (h : Heap) (old : Object)
      → object_at v h ≡ some old
      → held p (erase v h) + holds p old ≡ held p h
  unfolding held object_at erase
  held-erase p [] old e = cc
  held-erase p (c ∷ h) old e = ground (arith, held-erase p h old)

  pub live-erase :
      (h : Heap) (old : Object)
      → object_at v h ≡ some old
      → live (erase v h) + is_counted old ≡ live h
  unfolding live object_at erase
  live-erase [] old e = cc
  live-erase (c ∷ h) old e = ground (arith, live-erase h old)
