-- ===== src/Heap/Results.antt =====
-- `xt_result_new` and the counts.
use atlanage.Prelude.{
  ℕ, ◌+◌, ◌%◌, ◌^◌, ◌≡◌, ◌<◌, refl, sym, ap, ◌∙◌, true, false, List, ◌∷◌, none, some, arith, ◌==◌,
  leb, Bool-cases, Option-cases, inl, inr, ℕ_discrete,
}
use atlanage.Word.{is_real_ptr}
use atlanage.Effect.{count, count-append, one_if}
use atlanage.Heap.{
  Object, Cell, Heap, object_at, put, fields, retain_value, immortal, result, non_null, result_new,
}
use atlanage.Heap.Cells.{places, holds, held, places-put, object_at-places}
use atlanage.Heap.Counts.{Accounts, HasUniquePlaces, Agrees-eq}
use atlanage.Heap.Retain.{retain_value-Accounts}

places-retain_value :
    (v p : ℕ) (h h' : Heap) → retain_value v h ≡ some h' → places p h' ≡ places p h
unfolding retain_value
places-retain_value v p h h' e = elim (Bool-cases (is_real_ptr v)) [
  | inr n ↦ let same : h ≡ h' = cc (rw n at e) in ap (places p) (sym same)
  | inl y ↦ elim (Option-cases (object_at v h)) [
    | inl freed ↦ absurd (cc (rw (y, freed) at e))
    | inr (o, at) ↦ elim (Bool-cases (leb immortal o.ref_count)) [
      | inl big ↦ let same : h ≡ h' = cc (rw (y, at, big) at e) in ap (places p) (sym same)
      | inr small ↦
          let f : Object = record o { ref_count = (o.ref_count + 1) % 2 ^ 32 } in
          let same : put v f h ≡ h' = cc (rw (y, at, small) at e) in
          ap (places p) (sym same) ∙ places-put v f p h
    ]
  ]
]

count-non_null : (q v : ℕ) → is_real_ptr q ≡ true → count q (non_null v) ≡ one_if (v == q)
count-non_null q v real = ground (arith, real)

-- The new object refers to the two values once each.
count-fields :
    (q value error : ℕ)
    → is_real_ptr q ≡ true
    → count q (fields (result value error)) ≡ one_if (value == q) + one_if (error == q)
unfolding fields
count-fields q value error real = omega (
  arith,
  count-append q (non_null value) (non_null error),
  count-non_null q value real,
  count-non_null q error real,
)

abbrev new_cell : ℕ → ℕ → ℕ → Cell
new_cell p value error = record {
  address = p;
  object = record { ref_count = 1; body = result value error };
}

module _ (p value error : ℕ) (roots : List ℕ) (h : Heap) (real : is_real_ptr p ≡ true)
    (fresh : places p h ≡ 0) (u : HasUniquePlaces h) (a : Accounts (error ∷ value ∷ roots) h) where
  -- Nothing refers to the new address yet.
  unknown : count p (error ∷ value ∷ roots) + held p h ≡ 0
  unknown = Agrees-eq none (object_at p h) _ _ (sym (object_at-places p h fresh)) refl (a p real)

  new_cell-Accounts : Accounts (p ∷ roots) (new_cell p value error ∷ h)
  unfolding object_at held holds
  new_cell-Accounts q q_real =
      let fields_q = count-fields q value error q_real in
      elim (ℕ_discrete p q) [
        | yes e ↦
            let none_q : count q (error ∷ value ∷ roots) + held q h ≡ 0 =
              ap (λ x. count x (error ∷ value ∷ roots) + held x h) (sym e) ∙ unknown in
            let here : (p == q) ≡ true = ground (arith, e) in
            rw here (λ small. omega (arith, none_q, fields_q))
        | no e ↦
            let there : (p == q) ≡ false = ground (arith, e) in
            rw there (
              Agrees-eq (object_at q h) (object_at q h) _
                (count q (error ∷ value ∷ roots) + held q h) refl (omega (arith, fields_q))
                (a q q_real))
      ]

  new_cell-HasUniquePlaces : HasUniquePlaces (new_cell p value error ∷ h)
  unfolding places
  new_cell-HasUniquePlaces q = elim (ℕ_discrete p q) [
    | yes e ↦ ground (arith, ap (λ x. places x h) e, fresh)
    | no e ↦ ground (arith, u q)
  ]

-- `xt_result_new` at an address that no object has takes one reference to each of the two values:
-- the counts stay right, and the program keeps the references that it had and has the new object.
pub result_new-Accounts :
    (p value error : ℕ) (roots : List ℕ) (h : Heap)
    → is_real_ptr p ≡ true
    → places p h ≡ 0
    → HasUniquePlaces h
    → Accounts roots h
    → (is_real_ptr value ≡ true → 0 < count value roots)
    → (is_real_ptr error ≡ true → 0 < count error roots)
    → (h' : Heap) × (result_new p value error h ≡ some h')
      × HasUniquePlaces h'
      × Accounts (p ∷ roots) h'
unfolding result_new
result_new-Accounts p value error roots h real fresh u a known_value known_error =
    let (h', e', u', a') =
      retain_value-Accounts value roots h u a (λ r. omega (arith, known_value r)) in
    let (h'', e'', u'', a'') =
      retain_value-Accounts error (value ∷ roots) h' u' a' (λ r. omega (arith, known_error r)) in
    let fresh'' : places p h'' ≡ 0 =
      places-retain_value error p h' h'' e'' ∙ places-retain_value value p h h' e' ∙ fresh in
    (
      new_cell p value error ∷ h'',
      rw (e', e'') refl,
      new_cell-HasUniquePlaces p value error roots h'' real fresh'' u'' a'',
      new_cell-Accounts p value error roots h'' real fresh'' u'' a'',
    )
