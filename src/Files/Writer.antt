-- ===== src/Files/Writer.antt =====
-- file_writer.py: a file of the announced size, filled with zeros, and writes at an offset.
pub mod Prefix
use redes_hamelin.Base.{
  ℕ, zero, suc, ◌+◌, ◌-◌, ◌≤◌, ◌≡◌, refl, sym, ap, ◌∙◌, List, [], ◌∷◌, ◌++◌, arith, ltb,
  if◌then◌else◌, length, take, drop, replicate, length-append, length-replicate, take-append_length,
  drop-append_length, append_assoc, append-nil, drop-add, drop-replicate, Result, ok, err,
  value_error, os_error, le→ltb,
}

pub record FileWriter : Type 0 where
  pub file_size : ℕ
  pub content : List ℕ

-- `f.seek(offset)` and `f.write(data)`: a gap is filled with zeros, and what lies behind stays.
unfoldable pub write_at : ℕ → List ℕ → List ℕ → List ℕ
write_at offset bytes content =
    take offset (content ++ replicate (offset - length content) 0)
    ++ (bytes ++ drop (offset + length bytes) content)

-- `_allocate` on the emptied file: the seek to `fileSize - 1` raises for an empty file.
allocate : ℕ → Result (List ℕ)
unfolding write_at
allocate zero = err os_error
allocate (suc n) = ok (write_at n (0 ∷ []) [])

-- `FileWriter(filePath, fileSize)`
unfoldable pub open_file : ℕ → Result FileWriter
unfolding allocate
open_file size = elim (allocate size) [
  | ok content ↦ ok (record { file_size = size; content = content })
  | err e ↦ err e
]

unfoldable pub write_chunk : ℕ → List ℕ → FileWriter → Result FileWriter
unfolding write_at
write_chunk offset bytes w =
    if ltb w.file_size (offset + length bytes)
    then err value_error
    else ok (record w { content = write_at offset bytes w.content })

-- The sum of the lengths, and the writes one after another from the offset.
unfoldable pub total_length : List (List ℕ) → ℕ
total_length [] = 0
total_length (c ∷ cs) = length c + total_length cs

unfoldable pub write_all : ℕ → List (List ℕ) → List ℕ → List ℕ
unfolding write_at
write_all offset [] content = content
write_all offset (c ∷ cs) content = write_all (offset + length c) cs (write_at offset c content)

unfoldable pub write_batch : ℕ → List (List ℕ) → FileWriter → Result FileWriter
unfolding total_length write_all
write_batch offset chunks w =
    if ltb w.file_size (offset + total_length chunks)
    then err value_error
    else ok (record w { content = write_all offset chunks w.content })

unfoldable pub concat : List (List ℕ) → List ℕ
concat [] = []
concat (c ∷ cs) = c ++ concat cs
