-- ===== src/File/Reading.antt =====
-- What was written is read, and files are closed.
use atlanage.Prelude.{
  ℕ, ◌+◌, ◌≡◌, refl, true, List, [], ◌∷◌, Option, none, some, length, Bool-cases, inl, inr, arith,
}
use atlanage.File.{
  FileSystem, same_path, Files, lookup, FileCall, opened, closed, Stream, read_stream, read_open,
  file_read,
}

same_path_refl : (p : List ℕ) → same_path p p ≡ true
same_path_refl [] = refl
same_path_refl (c ∷ p) = ground (arith, same_path_refl p)

-- The file opens, its size is known, there is memory for a text, and `fwrite` and `fread` take all of
-- it.
pub record Works (fs : FileSystem) (path text : List ℕ) : Type 0 where
  pub writes_to : fs.opens_to_write path ≡ true
  pub all_written : fs.writes (length text) ≡ length text
  pub reads_from : fs.opens_to_read path ≡ true
  pub moves : fs.seeks path ≡ true
  pub tells : fs.tells path ≡ true
  pub has_memory : fs.has_memory (length text + 1) ≡ true
  pub all_read : fs.reads (length text) ≡ length text

-- No file is opened, or one is opened and closed.
pub data IsClosed : List FileCall → Type 0 where
  unopened : IsClosed []
  closed_again : IsClosed (opened ∷ closed ∷ [])

read_stream-IsClosed :
    (fs : FileSystem) (path : List ℕ) (f : Stream) → IsClosed (read_stream fs path f).1
read_stream-IsClosed fs path f = elim (Bool-cases (fs.seeks path)) [
  | inr s ↦ rw s closed_again
  | inl s ↦ elim (Bool-cases (fs.tells path)) [
    | inr t ↦ rw (s, t) closed_again
    | inl t ↦ elim (Bool-cases (fs.has_memory (length f.bytes + 1))) [
      | inr m ↦ rw (s, t, m) closed_again
      | inl m ↦ rw (s, t, m) closed_again
    ]
  ]
]

read_open-IsClosed :
    (fs : FileSystem) (path : List ℕ) (found : Option (List ℕ))
    → IsClosed (read_open fs path found).1
read_open-IsClosed fs path none = unopened
read_open-IsClosed fs path (some bytes) = elim (Bool-cases (fs.opens_to_read path)) [
  | inr o ↦ rw o unopened
  | inl o ↦ rw o (read_stream-IsClosed fs path (record { bytes = bytes; position = 0 }))
]

-- Whatever fails, `xt_file_read` closes the file that it opens.
pub file_read-IsClosed :
    (fs : FileSystem) (files : Files) (path : Option (List ℕ))
    → IsClosed (file_read fs files path).1
unfolding file_read
file_read-IsClosed fs files none = unopened
file_read-IsClosed fs files (some path) = read_open-IsClosed fs path (lookup path files)
