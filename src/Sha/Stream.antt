-- ===== src/Sha/Stream.antt =====
-- `sha_update` against the byte by byte reading of its input.
use atlanage.Prelude.{
  ℕ, zero, suc, ◌+◌, ◌-◌, ◌%◌, ◌^◌, ◌≡◌, ◌<◌, ◌≤◌, refl, sym, ap, ◌∙◌, List, [], ◌∷◌, ◌++◌, arith,
  min, length, take, drop, set, take-append-drop, length-take, length-drop,
}
use atlanage.Sha.{Sha256, copy, flush, update_loop, update}

-- One byte.
unfoldable pub feed : Sha256 → ℕ → Sha256
feed s b = flush (record s { buf = set s.buf (s.len % 64) b; len = (s.len + 1) % 2 ^ 64 })

unfoldable pub feed_all : Sha256 → List ℕ → Sha256
unfolding feed
feed_all s [] = s
feed_all s (b ∷ bs) = feed_all (feed s b) bs

pub feed_all-append :
    (s : Sha256) (xs ys : List ℕ) → feed_all s (xs ++ ys) ≡ feed_all (feed_all s xs) ys
unfolding feed_all
feed_all-append s [] ys = refl
feed_all-append s (x ∷ xs) ys = feed_all-append (feed s x) xs ys

feed-inside :
    (s : Sha256) (b : ℕ)
    → s.len % 64 + 1 < 64
    → feed s b ≡ record s { buf = set s.buf (s.len % 64) b; len = (s.len + 1) % 2 ^ 64 }
unfolding feed flush
feed-inside s b h = ground arith

-- The first byte of a copy, with `feed_all` shut.
copy-step :
    (s : Sha256) (x y : ℕ) (ys : List ℕ)
    → s.len % 64 + 1 < 64
    → let t : Sha256 = record s { buf = set s.buf (s.len % 64) x; len = (s.len + 1) % 2 ^ 64 } in
      flush (record s {
        buf = copy s.buf (s.len % 64) (x ∷ y ∷ ys);
        len = (s.len + suc (length (y ∷ ys))) % 2 ^ 64;
      })
      ≡ flush (record t {
        buf = copy t.buf (t.len % 64) (y ∷ ys);
        len = (t.len + suc (length ys)) % 2 ^ 64;
      })
unfolding copy
copy-step s x y ys h =
    let n = (s.len + 1) % 2 ^ 64 in
    let at : n % 64 ≡ s.len % 64 + 1 = omega arith in
    let sum : (n + suc (length ys)) % 2 ^ 64 ≡ (s.len + suc (suc (length ys))) % 2 ^ 64 =
      omega arith in
    rw (at, sum)

-- A run of bytes up to the end of the buffer is one copy.
pub copy-feed_all :
    (s : Sha256) (x : ℕ) (xs : List ℕ)
    → s.len % 64 + suc (length xs) ≤ 64
    → flush (record s {
      buf = copy s.buf (s.len % 64) (x ∷ xs);
      len = (s.len + suc (length xs)) % 2 ^ 64;
    })
      ≡ feed_all s (x ∷ xs)
copy-feed_all s x [] h = unfold feed_all feed copy in refl
copy-feed_all s x (y ∷ ys) h =
    let t : Sha256 = record s { buf = set s.buf (s.len % 64) x; len = (s.len + 1) % 2 ^ 64 } in
    copy-step s x y ys (omega arith)
    ∙ copy-feed_all t y ys (omega arith)
    ∙ ap (λ u. feed_all u (y ∷ ys)) (sym (feed-inside s x (omega arith)))
    ∙ unfold feed_all in refl

-- A round of `sha_update` takes bytes up to the end of the buffer.
round_lem :
    (fuel : ℕ) (s : Sha256) (x : ℕ) (xs : List ℕ)
    → let k = min (63 - s.len % 64) (length xs) in
      update_loop (suc fuel) s (x ∷ xs) ≡ update_loop fuel (feed_all s (x ∷ take k xs)) (drop k xs)
round_lem fuel s x xs =
    let k = min (63 - s.len % 64) (length xs) in
    let n : min (64 - s.len % 64) (suc (length xs)) ≡ suc k = omega arith in
    let size : length (take k xs) ≡ k = omega (arith, length-take k xs) in
    let one = rw size at (copy-feed_all s x (take k xs) (omega arith)) in
    rw (← one) (unfold update_loop in rw n (ground arith))

update_loop-feed_all :
    (fuel : ℕ) (s : Sha256) (p : List ℕ) → length p ≤ fuel → update_loop fuel s p ≡ feed_all s p
update_loop-feed_all zero s [] h = unfold update_loop feed_all in refl
update_loop-feed_all zero s (x ∷ xs) h = absurd (omega arith)
update_loop-feed_all (suc fuel) s [] h = unfold update_loop feed_all in refl
update_loop-feed_all (suc fuel) s (x ∷ xs) h =
    let k = min (63 - s.len % 64) (length xs) in
    round_lem fuel s x xs
    ∙ update_loop-feed_all fuel (feed_all s (x ∷ take k xs)) (drop k xs)
        (omega (arith, length-drop k xs))
    ∙ sym (feed_all-append s (x ∷ take k xs) (drop k xs))
    ∙ ap (λ ys. feed_all s (x ∷ ys)) (take-append-drop k xs)

-- `sha_update` is the byte by byte reading of its input.
pub update-feed_all : (s : Sha256) (p : List ℕ) → update s p ≡ feed_all s p
unfolding update
update-feed_all s p = update_loop-feed_all (length p) s p (omega arith)

-- Two calls of `sha_update` do what one call on both inputs does, wherever the input is cut and
-- whatever the buffer holds.
pub update-append : (s : Sha256) (p q : List ℕ) → update s (p ++ q) ≡ update (update s p) q
update-append s p q =
    rw (update-feed_all s (p ++ q), update-feed_all s p, update-feed_all (feed_all s p) q)
      (feed_all-append s p q)
