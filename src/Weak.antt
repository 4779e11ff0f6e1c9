-- ===== src/Weak.antt =====
-- runtime/xt_runtime.c, the weak slots: `xt_weak_init`, `xt_dict_weak_init` and `xt_weak_clear`. The
-- words at the addresses of the slots are a function, and the calls that `xt_weak_clear` makes to
-- other components are listed, in their order; what these calls change, the slots of a key that its
-- release frees among it, is not followed. `xt_weak_init` and `xt_dict_weak_init` change the slots
-- under their mutex and `xt_weak_clear` without it; here nothing else runs meanwhile, and the memory
-- does not run out.
mod Cleared
mod Tests
use atlanage.Prelude.{ℕ, Bool, true, false, ◌&&◌, not, List, [], ◌∷◌, ◌++◌, ◌==◌, if◌then◌else◌}
use atlanage.Effect.{Effect, retain}
use atlanage.Word.{is_real_ptr, xt_null}

-- A slot is a word at an address, or the entry of a dictionary with a key.
pub data Target : Type 0 where
  cell : ℕ → Target
  entry : ℕ → ℕ → Target

-- `XTWeakSlot`
pub record WeakSlot : Type 0 where
  pub obj : ℕ
  pub target : Target

-- A call of `xt_weak_clear`: `xt_dict_set_weak` of a dictionary and a key to null, or `xt_release`.
pub data ClearCall : Type 0 where
  set_null : ℕ → ℕ → ClearCall
  release_key : ℕ → ClearCall

pub record Weak : Type 0 where
  pub slots : List WeakSlot
  pub cells : ℕ → ℕ

-- `xt_weak_init`
unfoldable pub weak_init : Weak → ℕ → ℕ → Weak
weak_init w slot_addr obj =
    if is_real_ptr obj
    then record w { slots = record { obj = obj; target = cell slot_addr } ∷ w.slots }
    else w

-- `xt_dict_weak_init`
unfoldable pub dict_weak_init : Weak → ℕ → ℕ → ℕ → Weak × List Effect
dict_weak_init w dict key obj =
    if is_real_ptr obj
    then (
      record w { slots = record { obj = obj; target = entry dict key } ∷ w.slots },
      retain key ∷ [],
    )
    else (w, [])

-- The word at the address is cleared, if it is the object.
abbrev pub clear_cell : ℕ → ℕ → (ℕ → ℕ) → ℕ → ℕ
clear_cell obj addr cells a = if (a == addr) && (cells addr == obj) then xt_null else cells a

-- What a slot of the object does to the words, and to the dictionaries.
abbrev pub clear_target : ℕ → Target → (ℕ → ℕ) → ℕ → ℕ
clear_target obj (cell addr) cells = clear_cell obj addr cells
clear_target obj (entry dict key) cells = cells

abbrev pub calls_of : Target → List ClearCall
calls_of (cell addr) = []
calls_of (entry dict key) = set_null dict key ∷ release_key key ∷ []

-- The loop of `xt_weak_clear`: the slots that are left, the words, and the calls, in order.
unfoldable pub clear_loop : ℕ → List WeakSlot → (ℕ → ℕ) → List WeakSlot × (ℕ → ℕ) × List ClearCall
clear_loop obj [] cells = ([], cells, [])
clear_loop obj (ws ∷ slots) cells =
    let here = ws.obj == obj in
    let (left, cells', calls) =
      clear_loop obj slots (if here then clear_target obj ws.target cells else cells) in
    (if here then left else ws ∷ left, cells', if here then calls_of ws.target ++ calls else calls)

-- `xt_weak_clear`
unfoldable pub weak_clear : ℕ → Weak → Weak × List ClearCall
unfolding clear_loop
weak_clear obj w =
    let (left, cells, calls) = clear_loop obj w.slots w.cells in
    (record { slots = left; cells = cells }, calls)
