-- ===== src/Net/Buffer.antt =====
-- The buffer of a response, which grows.
use atlanage.Prelude.{
  ℕ, ◌+◌, ◌*◌, ◌≡◌, ◌≤◌, ◌∙◌, sym, List, [], ◌∷◌, ◌++◌, append-nil, append_assoc, arith, length,
  length-append,
}
use atlanage.Net.Http.{HttpBuf, buf_add, chunk_size, receive}

abbrev pub AreChunks : List (List ℕ) → Type 0
AreChunks [] = Unit
AreChunks (c ∷ cs) = (length c ≤ chunk_size) × AreChunks cs

-- The bytes that come before a call takes none.
abbrev pub taken : List (List ℕ) → List ℕ
taken [] = []
taken ([] ∷ chunks) = []
taken ((c ∷ chunk) ∷ chunks) = (c ∷ chunk) ++ taken chunks

-- The bytes fit in the memory, which is not much larger.
pub record IsBuffer (b : HttpBuf) : Type 0 where
  pub fits : length b.data_bytes ≤ b.cap
  pub small : b.cap ≤ length b.data_bytes * 2 + chunk_size * 2

pub buf_add-IsBuffer :
    (b : HttpBuf) (d : List ℕ) → length d ≤ chunk_size → IsBuffer b → IsBuffer (buf_add b d)
unfolding buf_add
buf_add-IsBuffer b d size h =
    let n = length-append b.data_bytes d in
    record { fits = ground (arith, n, h.fits); small = ground (arith, n, h.fits, h.small) }

pub receive-taken :
    (sock : ℕ) (chunks : List (List ℕ)) (b : HttpBuf)
    → (receive sock chunks b).0.data_bytes ≡ b.data_bytes ++ taken chunks
unfolding receive
receive-taken sock [] b = sym (append-nil b.data_bytes)
receive-taken sock ([] ∷ chunks) b = sym (append-nil b.data_bytes)
receive-taken sock ((c ∷ chunk) ∷ chunks) b =
    receive-taken sock chunks (buf_add b (c ∷ chunk))
    ∙ append_assoc b.data_bytes (c ∷ chunk) (taken chunks)
