-- ===== src/Dict/Size.antt =====
-- The count of entries, and the references that a dictionary holds.
use atlanage.Prelude.{
  ℕ, zero, suc, ◌+◌, ◌≡◌, ◌<◌, refl, List, [], ◌∷◌, arith, length, get_or, set, length-append,
  Option-cases, inl, inr,
}
use atlanage.Word.{Memory}
use atlanage.Dict.{
  Entry, Chain, Dict, bucket, find, assign, set_key, remove, unlink, find_entry, entries,
}
use atlanage.Dict.Chain.{length-assign, length-unlink}
use atlanage.Dict.Table.{bucket-lt}

-- The sum of a weight of the chains.
unfoldable pub total : (Chain → ℕ) → List Chain → ℕ
total w [] = 0
total w (c ∷ bs) = w c + total w bs

pub total-set :
    (w : Chain → ℕ) (bs : List Chain) (i : ℕ) (c : Chain)
    → i < length bs
    → total w (set bs i c) + w (get_or bs i []) ≡ total w bs + w c
unfolding total
total-set w [] i c h = absurd (omega arith)
total-set w (x ∷ bs) zero c h = omega arith
total-set w (x ∷ bs) (suc i) c h = omega (arith, total-set w bs i c (omega arith))

length-entries : (bs : List Chain) → length (entries bs) ≡ total length bs
unfolding entries total
length-entries [] = refl
length-entries (c ∷ bs) = omega (arith, length-append c (entries bs), length-entries bs)

-- The keys and the values of the entries: what the dictionary holds references to.
unfoldable pub references : List Entry → List ℕ
references [] = []
references (e ∷ es) = e.key ∷ e.value ∷ references es

-- `size` is the number of entries.
abbrev pub HasSize : Dict → Type 0
HasSize d = length (entries d.buckets) ≡ d.size

module _ (m : Memory) (p : ℕ) (d : Dict) (k : ℕ) (room : 0 < length d.buckets) where
  -- `xt_dict_set` keeps `size` equal to the number of entries.
  pub set_key-HasSize : (v : ℕ) → HasSize d → HasSize (set_key m p d k v).0
  unfolding set_key
  set_key-HasSize v sized =
      let i = bucket m (length d.buckets) k in
      let c = get_or d.buckets i [] in
      let fresh : Entry = record { key = k; value = v } in
      elim (Option-cases (find m k c)) [
        | inl e ↦ rw e (
            ground (
              arith,
              length-entries d.buckets,
              length-entries (set d.buckets i (fresh ∷ c)),
              total-set length d.buckets i (fresh ∷ c) (bucket-lt m (length d.buckets) k room),
            ))
        | inr (old, e) ↦ rw e (
            ground (
              arith,
              length-entries d.buckets,
              length-entries (set d.buckets i (assign m k v c)),
              length-assign m k v c,
              total-set length d.buckets i (assign m k v c) (bucket-lt m (length d.buckets) k room),
            ))
      ]

  -- `xt_dict_remove` keeps `size` equal to the number of entries.
  pub remove-HasSize : HasSize d → HasSize (remove m p d k).0
  unfolding remove
  remove-HasSize sized =
      let i = bucket m (length d.buckets) k in
      let c = get_or d.buckets i [] in
      elim (Option-cases (find_entry m k c)) [
        | inl e ↦ rw e (ground arith)
        | inr (old, e) ↦ rw e (
            ground (
              arith,
              length-entries d.buckets,
              length-entries (set d.buckets i (unlink m k c)),
              length-unlink m k c old e,
              total-set length d.buckets i (unlink m k c) (bucket-lt m (length d.buckets) k room),
            ))
      ]
