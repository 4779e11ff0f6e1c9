-- ===== src/Weak/Cleared.antt =====
-- `xt_weak_clear` against the slots as a collection.
use atlanage.Prelude.{
  ℕ, ◌+◌, ◌≡◌, Bool, false, ◌&&◌, ◌||◌, List, [], ◌∷◌, ◌++◌, ◌==◌, if◌then◌else◌,
}
use atlanage.Word.{xt_null}
use atlanage.Effect.{one_if}
use atlanage.Weak.{Target, cell, entry, WeakSlot, Weak, ClearCall, set_null, release_key, calls_of}

-- The slots of an object.
abbrev pub slots_of : ℕ → List WeakSlot → List WeakSlot
slots_of p [] = []
slots_of p (ws ∷ slots) = if ws.obj == p then ws ∷ slots_of p slots else slots_of p slots

abbrev pub points : ℕ → Target → Bool
points a (cell b) = b == a
points a (entry dict key) = false

-- The word at the address is a slot of the object.
abbrev pub has_cell : ℕ → ℕ → List WeakSlot → Bool
has_cell obj a [] = false
has_cell obj a (ws ∷ slots) = ((ws.obj == obj) && points a ws.target) || has_cell obj a slots

-- The calls for the slots of dictionaries.
abbrev pub all_calls : List WeakSlot → List ClearCall
all_calls [] = []
all_calls (ws ∷ slots) = calls_of ws.target ++ all_calls slots

-- How many references to a key the slots hold.
abbrev pub holds : ℕ → Target → ℕ
holds key (cell addr) = 0
holds key (entry dict k) = one_if (k == key)

abbrev pub held : ℕ → List WeakSlot → ℕ
held key [] = 0
held key (ws ∷ slots) = holds key ws.target + held key slots

-- How many references to it the calls give up.
abbrev pub released : ℕ → List ClearCall → ℕ
released key [] = 0
released key (set_null dict k ∷ calls) = released key calls
released key (release_key k ∷ calls) = one_if (k == key) + released key calls

-- The slots of an object are gone, and the others are still there.
pub record IsCleared (obj : ℕ) (w w' : Weak) (calls : List ClearCall) : Type 0 where
  pub slots : (p : ℕ) → slots_of p w'.slots ≡ (if p == obj then [] else slots_of p w.slots)
  pub cells :
      (a : ℕ)
      → w'.cells a ≡ (if has_cell obj a w.slots && (w.cells a == obj) then xt_null else w.cells a)
  pub dictionaries : calls ≡ all_calls (slots_of obj w.slots)
  pub keys : (key : ℕ) → held key w'.slots + released key calls ≡ held key w.slots
