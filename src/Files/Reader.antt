-- ===== src/Files/Reader.antt =====
-- file_reader.py: a file is read by chunks from an offset, and whole.
pub mod Chunks
use redes_hamelin.Base.{
  ℕ, zero, suc, ◌-◌, ◌*◌, List, [], ◌∷◌, min, ◌==◌, if◌then◌else◌, length, take, drop, Result, ok,
  err, value_error,
}

pub record FileReader : Type 0 where
  pub content : List ℕ
  pub file_size : ℕ

-- `FileReader(filePath)`, for a file of these bytes.
unfoldable pub open_reader : List ℕ → FileReader
open_reader content = record { content = content; file_size = length content }

-- `f.seek(offset)` and `f.read(size)`
unfoldable pub read_chunk : ℕ → ℕ → FileReader → List ℕ
read_chunk offset size r = take size (drop offset r.content)

-- The bytes `size` by `size`, up to an empty piece: both the loop of `readAllChunks` and the one of
-- `readBatch`. Each round takes at least one byte, so their number is fuel enough.
pub split : ℕ → ℕ → List ℕ → List (List ℕ)
split zero size bytes = []
split (suc fuel) size bytes =
    let rest = split fuel size (drop size bytes) in
    elim (take size bytes) [ [] ↦ [] | b ∷ bs ↦ (b ∷ bs) ∷ rest ]

-- A step of 0 makes `range` raise; `fileSize - offset` below 0 reads nothing, as 0 does, since
-- nothing lies behind such an offset.
unfoldable pub read_batch : ℕ → ℕ → ℕ → FileReader → Result (List (List ℕ))
unfolding split
read_batch offset window size r =
    let data' = take (min (window * size) (r.file_size - offset)) (drop offset r.content) in
    if size == 0 then err value_error else ok (split (length data') size data')

unfoldable pub read_all_chunks : ℕ → FileReader → List (List ℕ)
unfolding split
read_all_chunks size r = split (length r.content) size r.content
