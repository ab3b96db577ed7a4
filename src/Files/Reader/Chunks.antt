-- ===== src/Files/Reader/Chunks.antt =====
-- file_reader.py: the chunks of a file put together are the file.
use redes_hamelin.Base.{
  ℕ, zero, suc, ◌≤◌, ◌<◌, ◌≡◌, refl, ap, ◌∙◌, List, [], ◌∷◌, ◌++◌, length, take, drop,
  take-append-drop, length-append, arith, All,
}
use redes_hamelin.Files.Writer.{concat}
use redes_hamelin.Files.Reader.{open_reader, split, read_all_chunks}

split-nil : (fuel size : ℕ) → split fuel size [] ≡ []
unfolding split
split-nil zero size = refl
split-nil (suc fuel) zero = refl
split-nil (suc fuel) (suc size) = refl

split-cons :
    (fuel size b : ℕ) (bs : List ℕ)
    → split (suc fuel) (suc size) (b ∷ bs)
      ≡ (b ∷ take size bs) ∷ split fuel (suc size) (drop size bs)
unfolding split
split-cons fuel size b bs = refl

split-zero : (size : ℕ) (bytes : List ℕ) → split zero size bytes ≡ []
unfolding split
split-zero size bytes = refl

length-drop_le : (n : ℕ) (xs : List ℕ) → length (drop n xs) ≤ length xs
length-drop_le n xs =
    omega (arith, length-append (take n xs) (drop n xs), ap length (take-append-drop n xs))

length-take_le : (n : ℕ) (xs : List ℕ) → length (take n xs) ≤ n
length-take_le zero xs = omega arith
length-take_le (suc n) [] = omega arith
length-take_le (suc n) (x ∷ xs) = omega (arith, length-take_le n xs)

concat-split :
    (fuel size : ℕ) (bytes : List ℕ)
    → length bytes ≤ fuel
    → concat (split fuel (suc size) bytes) ≡ bytes
unfolding concat
concat-split fuel size [] h = rw (split-nil fuel (suc size)) refl
concat-split zero size (b ∷ bs) h = absurd (omega arith)
concat-split (suc fuel) size (b ∷ bs) h = rw (split-cons fuel size b bs) (
    ap (λ xs. b ∷ (take size bs ++ xs))
      (concat-split fuel size (drop size bs) (omega (arith, length-drop_le size bs)))
    ∙ ap (λ xs. b ∷ xs) (take-append-drop size bs))

split-All :
    (fuel size : ℕ) (bytes : List ℕ)
    → All (λ c. (0 < length c) × (length c ≤ suc size)) (split fuel (suc size) bytes)
split-All fuel size [] = rw (split-nil fuel (suc size)) tt
split-All zero size (b ∷ bs) = rw (split-zero (suc size) (b ∷ bs)) tt
split-All (suc fuel) size (b ∷ bs) =
    rw (split-cons fuel size b bs)
      ((omega arith, omega (arith, length-take_le size bs)), split-All fuel size (drop size bs))

-- For a chunk size above 0: all chunks of a file put together are the file, and each has at least
-- one byte and at most the chunk size.
pub read_all_chunks_lem :
    (size : ℕ) (content : List ℕ)
    → 0 < size
    → (concat (read_all_chunks size (open_reader content)) ≡ content)
      × All (λ c. (0 < length c) × (length c ≤ size)) (read_all_chunks size (open_reader content))
unfolding read_all_chunks open_reader
read_all_chunks_lem zero content h = absurd (omega arith)
read_all_chunks_lem (suc size) content h = (
  concat-split (length content) size content (omega arith),
  split-All (length content) size content,
)
