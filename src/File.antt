-- ===== src/File.antt =====
-- runtime/xt_runtime.c, `xt_file_read`, `xt_file_write` and `xt_file_exists`. What the operating
-- system and the C library do is an argument. A path is the list of the bytes before its zero byte.
mod Reading
mod Tests
use atlanage.Prelude.{
  ℕ, ◌+◌, Bool, true, false, not, ◌&&◌, List, [], ◌∷◌, Option, none, some, ◌==◌, if◌then◌else◌,
  length, take, drop,
}
use atlanage.Word.{from_bool}

-- Whether `fopen` opens a file to read or to write, whether `fseek` moves in it and `ftell` tells where
-- it is, whether `malloc` has so many bytes, and how many of so many bytes `fread` and `fwrite` take.
pub record FileSystem : Type 0 where
  pub opens_to_read : List ℕ → Bool
  pub seeks : List ℕ → Bool
  pub tells : List ℕ → Bool
  pub has_memory : ℕ → Bool
  pub reads : ℕ → ℕ
  pub opens_to_write : List ℕ → Bool
  pub writes : ℕ → ℕ

abbrev pub same_path : List ℕ → List ℕ → Bool
same_path [] [] = true
same_path [] (d ∷ q) = false
same_path (c ∷ p) [] = false
same_path (c ∷ p) (d ∷ q) = (c == d) && same_path p q

-- The files that there are, the newest first.
abbrev pub Files : Type 0
Files = List (List ℕ × List ℕ)

abbrev pub lookup : List ℕ → Files → Option (List ℕ)
lookup path [] = none
lookup path ((p, bytes) ∷ files) = if same_path p path then some bytes else lookup path files

-- A `FILE` that is read: its bytes, and the position in them.
pub record Stream : Type 0 where
  pub bytes : List ℕ
  pub position : ℕ

-- `fseek(f, 0, SEEK_END)`
abbrev pub seek_end : Stream → Stream
seek_end f = record f { position = length f.bytes }

-- `rewind`
abbrev pub rewind : Stream → Stream
rewind f = record f { position = 0 }

-- `fopen` and `fclose`.
pub data FileCall : Type 0 where
  opened closed : FileCall

-- `XTResult` with a text or true, or with the text of an error.
pub data FileResult : Type 0 where
  content : List ℕ → FileResult
  written : FileResult
  failure : List ℕ → FileResult

-- "路径无效", "无法打开文件", "无法获取文件大小", "内存不足", "无法写入文件 (打开失败)"
abbrev pub bad_path : List ℕ
bad_path = 0xe8 ∷ 0xb7 ∷ 0xaf ∷ 0xe5 ∷ 0xbe ∷ 0x84 ∷ 0xe6 ∷ 0x97 ∷ 0xa0 ∷ 0xe6 ∷ 0x95 ∷ 0x88 ∷ []

abbrev pub cannot_open : List ℕ
cannot_open =
    0xe6 ∷ 0x97 ∷ 0xa0 ∷ 0xe6 ∷ 0xb3 ∷ 0x95 ∷ 0xe6 ∷ 0x89 ∷ 0x93 ∷ 0xe5 ∷ 0xbc ∷ 0x80 ∷ 0xe6 ∷ 0x96
    ∷ 0x87 ∷ 0xe4 ∷ 0xbb ∷ 0xb6 ∷ []

abbrev pub no_size : List ℕ
no_size =
    0xe6 ∷ 0x97 ∷ 0xa0 ∷ 0xe6 ∷ 0xb3 ∷ 0x95 ∷ 0xe8 ∷ 0x8e ∷ 0xb7 ∷ 0xe5 ∷ 0x8f ∷ 0x96 ∷ 0xe6 ∷ 0x96
    ∷ 0x87 ∷ 0xe4 ∷ 0xbb ∷ 0xb6 ∷ 0xe5 ∷ 0xa4 ∷ 0xa7 ∷ 0xe5 ∷ 0xb0 ∷ 0x8f ∷ []

abbrev pub no_memory : List ℕ
no_memory = 0xe5 ∷ 0x86 ∷ 0x85 ∷ 0xe5 ∷ 0xad ∷ 0x98 ∷ 0xe4 ∷ 0xb8 ∷ 0x8d ∷ 0xe8 ∷ 0xb6 ∷ 0xb3 ∷ []

abbrev pub cannot_write : List ℕ
cannot_write =
    0xe6 ∷ 0x97 ∷ 0xa0 ∷ 0xe6 ∷ 0xb3 ∷ 0x95 ∷ 0xe5 ∷ 0x86 ∷ 0x99 ∷ 0xe5 ∷ 0x85 ∷ 0xa5 ∷ 0xe6 ∷ 0x96
    ∷ 0x87 ∷ 0xe4 ∷ 0xbb ∷ 0xb6 ∷ 0x20 ∷ 0x28 ∷ 0xe6 ∷ 0x89 ∷ 0x93 ∷ 0xe5 ∷ 0xbc ∷ 0x80 ∷ 0xe5
    ∷ 0xa4 ∷ 0xb1 ∷ 0xe8 ∷ 0xb4 ∷ 0xa5 ∷ 0x29 ∷ []

module _ (fs : FileSystem) where
  -- `fread` of at most so many bytes, from the position on.
  abbrev pub fread : ℕ → Stream → List ℕ
  fread n f = take (fs.reads n) (drop f.position f.bytes)

  -- The part of `xt_file_read` that has a file.
  abbrev pub read_stream : List ℕ → Stream → FileResult × List FileCall
  read_stream path f =
      let at_end = seek_end f in
      let size = at_end.position in
      let start = rewind at_end in
      if not (fs.seeks path)
      then (failure no_size, opened ∷ closed ∷ [])
      else if not (fs.tells path)
      then (failure no_size, opened ∷ closed ∷ [])
      else if not (fs.has_memory (size + 1))
      then (failure no_memory, opened ∷ closed ∷ [])
      else (content (fread size start), opened ∷ closed ∷ [])

  -- The part that has a path: `fopen` starts at the first byte.
  abbrev pub read_open : List ℕ → Option (List ℕ) → FileResult × List FileCall
  read_open path none = (failure cannot_open, [])
  read_open path (some bytes) =
      let f : Stream = record { bytes = bytes; position = 0 } in
      if fs.opens_to_read path then read_stream path f else (failure cannot_open, [])

  -- `xt_file_read`; a path that is no text is `none`.
  unfoldable pub file_read : Files → Option (List ℕ) → FileResult × List FileCall
  file_read files none = (failure bad_path, [])
  file_read files (some path) = read_open path (lookup path files)

  -- `xt_file_write` of the text of a value: opening a file empties it.
  unfoldable pub file_write : Files → Option (List ℕ) → List ℕ → FileResult × List FileCall × Files
  file_write files none text = (failure bad_path, [], files)
  file_write files (some path) text =
      if fs.opens_to_write path
      then (written, opened ∷ closed ∷ [], (path, take (fs.writes (length text)) text) ∷ files)
      else (failure cannot_write, [], files)

-- `xt_file_exists`
abbrev pub is_there : Option (List ℕ) → Bool
is_there none = false
is_there (some bytes) = true

unfoldable pub file_exists : Files → Option (List ℕ) → ℕ
file_exists files none = from_bool false
file_exists files (some path) = from_bool (is_there (lookup path files))
