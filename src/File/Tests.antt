-- ===== src/File/Tests.antt =====
-- A file "f" on a file system where everything works, and on one that is full.
use atlanage.Prelude.{◌≡◌, refl, true, [], ◌∷◌, some}
use atlanage.Word.{xt_true}
use atlanage.File.{FileSystem, written, opened, closed, file_write, file_exists}

abbrev working : FileSystem
working = record {
  opens_to_read = λ path. true;
  seeks = λ path. true;
  tells = λ path. true;
  has_memory = λ n. true;
  reads = λ n. n;
  opens_to_write = λ path. true;
  writes = λ n. n;
}

it_exists :
    file_exists (file_write working [] (some (b'f' ∷ [])) (b'h' ∷ [])).2 (some (b'f' ∷ []))
    ≡ xt_true
unfolding file_exists file_write
it_exists = refl

-- A write that takes over no byte is reported as done.
abbrev full_disk : FileSystem
full_disk = record working { writes = λ n. 0 }

lost :
    file_write full_disk [] (some (b'f' ∷ [])) (b'h' ∷ b'i' ∷ [])
    ≡ (written, opened ∷ closed ∷ [], (b'f' ∷ [], []) ∷ [])
unfolding file_write
lost = refl
