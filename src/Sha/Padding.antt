-- ===== src/Sha/Padding.antt =====
-- `sha_final` against SHA-256: the padded message, block by block.
use atlanage.Prelude.{ℕ, zero, suc, ◌-◌, ◌*◌, ◌%◌, List, ◌∷◌, ◌++◌, length, take, drop, replicate}
use atlanage.Sha.{Words, block, bytes8}

-- The zeros behind the byte 0x80 of a message of `n` bytes.
unfoldable pub zeros : ℕ → ℕ
zeros n = (119 - n % 64) % 64

-- The message with its padding: the byte 0x80, zeros, and its length in bits.
unfoldable pub padded : List ℕ → List ℕ
unfolding zeros bytes8
padded p = p ++ 0x80 ∷ (replicate (zeros (length p)) 0 ++ bytes8 (length p * 8))

-- The compression of a message of `n` blocks.
unfoldable pub compress : ℕ → Words → List ℕ → Words
compress zero v p = v
compress (suc n) v p = compress n (block v (take 64 p)) (drop 64 p)
