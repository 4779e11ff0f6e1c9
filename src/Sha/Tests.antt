-- ===== src/Sha/Tests.antt =====
-- Runs of SHA-256.
use atlanage.Prelude.{◌≡◌, refl, [], ◌∷◌, ◌++◌}
use atlanage.Sha.{init, update, final, block}
use atlanage.Sha.Stream.{update-append}

update-append_example :
    update init ((b'a' ∷ b'b' ∷ []) ++ b'c' ∷ [])
    ≡ update (update init (b'a' ∷ b'b' ∷ [])) (b'c' ∷ [])
update-append_example = update-append init (b'a' ∷ b'b' ∷ []) (b'c' ∷ [])

-- The digest of "abc".
abc :
    final (update init (b'a' ∷ b'b' ∷ b'c' ∷ []))
    ≡ 0xba ∷ 0x78 ∷ 0x16 ∷ 0xbf ∷ 0x8f ∷ 0x01 ∷ 0xcf ∷ 0xea ∷ 0x41 ∷ 0x41 ∷ 0x40 ∷ 0xde ∷ 0x5d
      ∷ 0xae ∷ 0x22 ∷ 0x23 ∷ 0xb0 ∷ 0x03 ∷ 0x61 ∷ 0xa3 ∷ 0x96 ∷ 0x17 ∷ 0x7a ∷ 0x9c ∷ 0xb4 ∷ 0x10
      ∷ 0xff ∷ 0x61 ∷ 0xf2 ∷ 0x00 ∷ 0x15 ∷ 0xad ∷ []
unfolding init update final block
abc = refl
