-- ===== src/Seed/Tests.antt =====
-- A seed of two bytes.
use mathlib.Core.List.{flatten}
use atlanage.Prelude.{ℕ, ◌≡◌, refl, true, List, [], ◌∷◌, map, some, arith}
use atlanage.Sha.{init, update, final}
use atlanage.Seed.{materialize, written, header, decode_lines, hex, after_prefix}
use atlanage.Seed.Hex.{AllBytes, data_line}
use atlanage.Seed.File.{IsPlain, sha_line, materialize-written, materialize-seed}

abbrev chunks : List (List ℕ)
chunks = (1 ∷ 255 ∷ []) ∷ []

abbrev comment : List ℕ
comment = b';' ∷ b' ' ∷ b'x' ∷ 10 ∷ []

abbrev lines : List (List ℕ)
lines = sha_line (flatten chunks) ∷ comment ∷ comment ∷ comment ∷ comment ∷ map data_line chunks

chunks-AllBytes : AllBytes chunks
chunks-AllBytes = ((omega arith, (omega arith, tt)), tt)

comment-IsPlain : IsPlain comment
unfolding after_prefix
comment-IsPlain = refl

seed_lines : materialize (some lines) true true ≡ written (flatten chunks)
seed_lines =
    materialize-seed chunks comment comment comment comment chunks-AllBytes comment-IsPlain
      comment-IsPlain comment-IsPlain comment-IsPlain

materialize-written_example :
    (decode_lines (header 5 lines []).1 ≡ some (flatten chunks))
    × (hex (final (update init (flatten chunks))) ≡ (header 5 lines []).0)
materialize-written_example = materialize-written lines true true (flatten chunks) seed_lines
