-- ===== src/Dict/Table.antt =====
-- What a dictionary answers after each operation.
use atlanage.Prelude.{
  ℕ, ◌%◌, ◌≡◌, ◌<◌, ◌≤◌, ap, true, List, [], ◌∷◌, Option, none, some, arith, if◌then◌else◌, length,
  get_or, get_or-replicate, get_or-set, set, length-set, replicate, ltb, Option-cases, inl, inr,
  ◌==◌,
}
use atlanage.Word.{Memory, xt_null, is_real_ptr}
use atlanage.Compare.{eq_values}
use atlanage.Compare.Equality.{eq_values-key_of}
use atlanage.Compare.Hash.{HasPlainText, hash_value-key_of}
use atlanage.Dict.{
  Entry, Chain, Dict, new, is_dict, bucket, find, assign, set_key, get, plain, found, remove,
  unlink, find_entry,
}
use atlanage.Dict.Chain.{
  find-assign, find-unlink, occurs, find_entry-find, find-eq, occurs-none, occurs-assign,
  occurs-unlink,
}

abbrev no_entry : Chain
no_entry = []

-- The table as a map: the value in the bucket of a key.
unfoldable pub lookup : Memory → List Chain → ℕ → Option ℕ
lookup m bs k = find m k (get_or bs (bucket m (length bs) k) [])

-- Each key stands once in its bucket.
abbrev pub HasUniqueKeys : Memory → List Chain → Type 0
HasUniqueKeys m bs = (q : ℕ) → occurs m q (get_or bs (bucket m (length bs) q) []) ≤ 1

-- A new dictionary holds no key.
pub new-HasUniqueKeys : (m : Memory) (capacity : ℕ) → HasUniqueKeys m (new capacity).buckets
unfolding new occurs
new-HasUniqueKeys m capacity q =
    let n = if ltb capacity 8 then 8 else capacity in
    rw (get_or-replicate n (bucket m (length (replicate n no_entry)) q) no_entry) (omega arith)

pub bucket-lt : (m : Memory) (n k : ℕ) → 0 < n → bucket m n k < n
unfolding bucket
bucket-lt m n k h = omega arith

-- Equal keys have one bucket.
pub bucket-eq :
    (m : Memory) (n k q : ℕ)
    → HasPlainText m k
    → HasPlainText m q
    → eq_values m k q ≡ true
    → bucket m n k ≡ bucket m n q
unfolding bucket
bucket-eq m n k q pk pq e =
    ap (λ h. h % n) (hash_value-key_of m k q pk pq ((eq_values-key_of m k q).0 e))

pub lookup-set :
    (m : Memory) (bs : List Chain) (i : ℕ) (c : Chain) (q : ℕ)
    → i < length bs
    → lookup m (set bs i c) q ≡ (if i == bucket m (length bs) q then find m q c else lookup m bs q)
unfolding lookup
lookup-set m bs i c q h =
    rw (length-set, get_or-set bs i (bucket m (length bs) q) c [] h) (ground arith)

pub get-lookup :
    (m : Memory) (p : ℕ) (d : Dict) (q : ℕ)
    → is_dict m p ≡ true
    → 0 < length d.buckets
    → get m p d q ≡ plain (found (lookup m d.buckets q))
unfolding get lookup
get-lookup m p d q h n = ground arith

module _ (m : Memory) (p : ℕ) (d : Dict) (k : ℕ) (at : is_dict m p ≡ true)
    (room : 0 < length d.buckets) where
  set_key-width : (v : ℕ) → length (set_key m p d k v).0.buckets ≡ length d.buckets
  unfolding set_key
  set_key-width v =
      let i = bucket m (length d.buckets) k in
      let c = get_or d.buckets i [] in
      ground (
        arith,
        length-set d.buckets i (assign m k v c),
        length-set d.buckets i (record { key = k; value = v } ∷ c),
      )

  lookup-set_key :
      (v q : ℕ)
      → HasPlainText m k
      → HasPlainText m q
      → lookup m (set_key m p d k v).0.buckets q
        ≡ (if eq_values m k q then some v else lookup m d.buckets q)
  unfolding set_key
  lookup-set_key v q pk pq =
      let n = length d.buckets in
      let i = bucket m n k in
      let c = get_or d.buckets i [] in
      elim (Option-cases (find m k c)) [
        | inl e ↦
            rw
              (
                at,
                e,
                lookup-set m d.buckets i (record { key = k; value = v } ∷ c) q
                    (bucket-lt m n k room),
              )
              (unfold find lookup in ground (arith, bucket-eq m n k q pk pq))
        | inr (old, e) ↦
            rw (at, e, lookup-set m d.buckets i (assign m k v c) q (bucket-lt m n k room))
              (unfold lookup in
                ground (arith, bucket-eq m n k q pk pq, find-assign m k q v c old e))
      ]

  -- After `xt_dict_set` at `k`, `xt_dict_get` returns the new value for every key equal to `k`, and
  -- for every other key what it returned before. No text among the two keys holds a zero byte.
  pub get-set_key :
      (v q : ℕ)
      → HasPlainText m k
      → HasPlainText m q
      → get m p (set_key m p d k v).0 q ≡ (if eq_values m k q then plain v else get m p d q)
  get-set_key v q pk pq =
      let n = set_key-width v in
      rw
        (
          get-lookup m p (set_key m p d k v).0 q at (rw n room),
          get-lookup m p d q at room,
          lookup-set_key v q pk pq,
        )
        (unfold found in ground arith)

  remove-width : length (remove m p d k).0.buckets ≡ length d.buckets
  unfolding remove
  remove-width =
      let i = bucket m (length d.buckets) k in
      ground (arith, length-set d.buckets i (unlink m k (get_or d.buckets i [])))

  lookup-remove :
      (q : ℕ)
      → HasPlainText m k
      → HasPlainText m q
      → HasUniqueKeys m d.buckets
      → lookup m (remove m p d k).0.buckets q
        ≡ (if eq_values m k q then none else lookup m d.buckets q)
  unfolding remove
  lookup-remove q pk pq once =
      let n = length d.buckets in
      let i = bucket m n k in
      let c = get_or d.buckets i [] in
      let real : is_real_ptr p ≡ true = ground arith in
      elim (Option-cases (find_entry m k c)) [
        | inl e ↦
            rw (real, e)
              (unfold lookup in
                ground (arith, bucket-eq m n k q pk pq, find_entry-find m k c, find-eq m k q c))
        | inr (old, e) ↦
            rw (real, e, lookup-set m d.buckets i (unlink m k c) q (bucket-lt m n k room))
              (unfold lookup in
                ground (arith, bucket-eq m n k q pk pq, find-unlink m k q c, once q))
      ]

  -- After `xt_dict_remove` at `k` of a dictionary in which no key stands twice, `xt_dict_get` finds
  -- no key equal to `k`, and every other key as before. No text among the keys holds a zero byte.
  pub get-remove :
      (q : ℕ)
      → HasPlainText m k
      → HasPlainText m q
      → HasUniqueKeys m d.buckets
      → get m p (remove m p d k).0 q ≡ (if eq_values m k q then plain xt_null else get m p d q)
  get-remove q pk pq once =
      rw
        (
          get-lookup m p (remove m p d k).0 q at (rw remove-width room),
          get-lookup m p d q at room,
          lookup-remove q pk pq once,
        )
        (unfold found in ground arith)

  -- `xt_dict_set` keeps each key at most once in its bucket.
  pub set_key-HasUniqueKeys :
      (v : ℕ) → HasUniqueKeys m d.buckets → HasUniqueKeys m (set_key m p d k v).0.buckets
  unfolding set_key
  set_key-HasUniqueKeys v once q =
      let n = length d.buckets in
      let i = bucket m n k in
      let j = bucket m n q in
      let c = get_or d.buckets i [] in
      let fresh : Entry = record { key = k; value = v } in
      elim (Option-cases (find m k c)) [
        | inl e ↦
            rw (at, e, length-set, get_or-set d.buckets i j (fresh ∷ c) [] (bucket-lt m n k room))
              (unfold occurs in ground (arith, once q, occurs-none m k q c e))
        | inr (old, e) ↦
            rw
              (
                at,
                e,
                length-set,
                get_or-set d.buckets i j (assign m k v c) [] (bucket-lt m n k room),
              )
              (ground (arith, once q, occurs-assign m k q v c))
      ]

  -- `xt_dict_remove` keeps each key at most once in its bucket.
  pub remove-HasUniqueKeys : HasUniqueKeys m d.buckets → HasUniqueKeys m (remove m p d k).0.buckets
  unfolding remove
  remove-HasUniqueKeys once q =
      let n = length d.buckets in
      let i = bucket m n k in
      let j = bucket m n q in
      let c = get_or d.buckets i [] in
      let real : is_real_ptr p ≡ true = ground arith in
      elim (Option-cases (find_entry m k c)) [
        | inl e ↦ rw (real, e) (once q)
        | inr (old, e) ↦
            rw
              (
                real,
                e,
                length-set,
                get_or-set d.buckets i j (unlink m k c) [] (bucket-lt m n k room),
              )
              (ground (arith, once q, occurs-unlink m k q c))
      ]
