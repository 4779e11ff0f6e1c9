-- ===== src/Seed/File.antt =====
-- Seed files.
use atlanage.Prelude.{
  ℕ, ◌*◌, ◌≡◌, ◌<◌, refl, Bool, true, List, [], ◌∷◌, ◌++◌, map, Option, none, some, arith, length,
}
use mathlib.Core.List.{flatten}
use atlanage.Sha.{init, update, final, digest, bytes4, pad, Words, Sha256}
use atlanage.Seed.{
  materialize, finish, written, header, header_line, hex, decode_lines, after_prefix, sha_prefix,
}
use atlanage.Seed.Hex.{
  All, AllBytes, data_line, decode_lines-data_line, same_text-eq, digits_of-hex, skip_spaces-hex,
}

finish-written :
    (expected : List ℕ) (decoded : Option (List ℕ)) (opens writes : Bool) (bytes : List ℕ)
    → finish expected decoded opens writes ≡ written bytes
    → (decoded ≡ some bytes) × (hex (final (update init bytes)) ≡ expected)
unfolding finish
finish-written [] decoded opens writes bytes h = cc
finish-written (c ∷ cs) none opens writes bytes h = cc
finish-written (c ∷ cs) (some bs) opens writes bytes h =
    ground (arith, same_text-eq (hex (final (update init bs))) (c ∷ cs))

finish-ok :
    (bytes expected : List ℕ)
    → 0 < length expected
    → hex (final (update init bytes)) ≡ expected
    → finish expected (some bytes) true true ≡ written bytes
unfolding finish
finish-ok bytes [] n h = absurd (omega arith)
finish-ok bytes (c ∷ cs) n h = rw ((same_text-eq (hex (final (update init bytes))) (c ∷ cs)).1 h)

-- What `materialize` writes is what the data lines hold, and its SHA-256 is the digest that the
-- header names.
pub materialize-written :
    (lines : List (List ℕ)) (opens writes : Bool) (bytes : List ℕ)
    → materialize (some lines) opens writes ≡ written bytes
    → (decode_lines (header 5 lines []).1 ≡ some bytes)
      × (hex (final (update init bytes)) ≡ (header 5 lines []).0)
unfolding materialize
materialize-written lines opens writes bytes h =
    finish-written (header 5 lines []).0 (decode_lines (header 5 lines []).1) opens writes bytes h

digest-bytes : (v : Words) → All (λ b. b < 256) (digest v) × (length (digest v) ≡ 32)
unfolding digest bytes4
digest-bytes v = (omega arith, refl)

-- The digest line of a seed.
abbrev pub sha_line : List ℕ → List ℕ
sha_line bytes = sha_prefix ++ b' ' ∷ hex (final (update init bytes)) ++ 10 ∷ []

-- A line of the header that names no digest.
abbrev pub IsPlain : List ℕ → Type 0
IsPlain line = after_prefix sha_prefix line ≡ none

header-sha_line :
    (bytes expected : List ℕ)
    → header_line (sha_line bytes) expected ≡ hex (final (update init bytes))
unfolding header_line after_prefix final
header-sha_line bytes expected =
    let v = (pad (update init bytes)).hash in
    let (small, size) = digest-bytes v in
    rw (skip_spaces-hex (digest v) (10 ∷ []) (omega (arith, size)))
      (digits_of-hex (digest v) (10 ∷ []) small)

header_line-plain : (line expected : List ℕ) → IsPlain line → header_line line expected ≡ expected
unfolding header_line
header_line-plain line expected p = rw p

length-hex : (bs : List ℕ) → length (hex bs) ≡ 2 * length bs
unfolding hex
length-hex [] = refl
length-hex (b ∷ bs) = omega (arith, length-hex bs)

length-final : (s : Sha256) → length (final s) ≡ 32
unfolding final
length-final s = (digest-bytes (pad s).hash).1

header-seed :
    (bytes : List ℕ) (l₁ l₂ l₃ l₄ : List ℕ) (rest : List (List ℕ))
    → IsPlain l₁
    → IsPlain l₂
    → IsPlain l₃
    → IsPlain l₄
    → header 5 (sha_line bytes ∷ l₁ ∷ l₂ ∷ l₃ ∷ l₄ ∷ rest) []
      ≡ (hex (final (update init bytes)), rest)
unfolding header
header-seed bytes l₁ l₂ l₃ l₄ rest p₁ p₂ p₃ p₄ =
    let e = hex (final (update init bytes)) in
    rw (
      header-sha_line bytes [],
      header_line-plain l₁ e p₁,
      header_line-plain l₂ e p₂,
      header_line-plain l₃ e p₃,
      header_line-plain l₄ e p₄,
    )

-- A seed file whose header names the SHA-256 of the bytes on its first line, with four lines of
-- comment and data lines of whole bytes, is materialized to those bytes.
pub materialize-seed :
    (chunks : List (List ℕ)) (l₁ l₂ l₃ l₄ : List ℕ)
    → AllBytes chunks
    → IsPlain l₁
    → IsPlain l₂
    → IsPlain l₃
    → IsPlain l₄
    → materialize
        (some (sha_line (flatten chunks) ∷ l₁ ∷ l₂ ∷ l₃ ∷ l₄ ∷ map data_line chunks))
        true
        true
      ≡ written (flatten chunks)
materialize-seed chunks l₁ l₂ l₃ l₄ h p₁ p₂ p₃ p₄ =
    let bytes = flatten chunks in
    let e = hex (final (update init bytes)) in
    unfold materialize in
    rw
      (
        header-seed bytes l₁ l₂ l₃ l₄ (map data_line chunks) p₁ p₂ p₃ p₄,
        decode_lines-data_line chunks h,
      )
      (finish-ok bytes e
        (omega (arith, length-hex (final (update init bytes)), length-final (update init bytes)))
        refl)
