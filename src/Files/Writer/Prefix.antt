-- ===== src/Files/Writer/Prefix.antt =====
-- file_writer.py: writes at the end of what is written. While a file is filled from its front, the
-- rest of it stays zero.
use redes_hamelin.Base.{
  ℕ, zero, suc, ◌+◌, ◌-◌, ◌≤◌, ◌≡◌, refl, sym, ap, ◌∙◌, List, [], ◌∷◌, ◌++◌, arith, length, take,
  drop, replicate, length-append, length-replicate, take-append_length, take-append-drop,
  append_assoc, append-nil, take-of_le, drop-add, drop-replicate, ok, le→ltb,
}
use mathlib.Core.Path.{ap₂}
use redes_hamelin.Files.Writer.{
  FileWriter, write_at, write_all, write_batch, open_file, total_length, concat,
}

pub length-concat : (cs : List (List ℕ)) → length (concat cs) ≡ total_length cs
unfolding concat total_length
length-concat [] = refl
length-concat (c ∷ cs) = omega (arith, length-append c (concat cs), length-concat cs)

concat-nil : concat [] ≡ []
unfolding concat
concat-nil = refl

replicate-suc : (n x : ℕ) → replicate n x ++ x ∷ [] ≡ replicate (suc n) x
replicate-suc zero x = refl
replicate-suc (suc n) x = ap (λ xs. x ∷ xs) (replicate-suc n x)

drop-nil : (n : ℕ) → drop {A = ℕ} n [] ≡ []
drop-nil zero = refl
drop-nil (suc n) = refl

-- One zero behind `n` places of an empty file.
write_at-nil : (n : ℕ) → write_at n (0 ∷ []) [] ≡ replicate (suc n) 0
unfolding write_at
write_at-nil n =
    let full : take n (replicate {A = ℕ} n 0) ≡ replicate n 0 =
      take-of_le n (replicate n 0) (omega (arith, length-replicate {A = ℕ} n 0)) in
    let all : n - 0 ≡ n = omega arith in rw (all, full, drop-nil (n + 1)) (replicate-suc n 0)

-- A new file has the announced size, and is all zeros.
pub open_file_lem :
    (size : ℕ) {w : FileWriter}
    → open_file size ≡ ok w
    → (w.file_size ≡ size) × (w.content ≡ replicate size 0)
unfolding open_file
open_file_lem zero e = cc
open_file_lem (suc n) {w} e =
    let z = write_at-nil n in
    let made : record { file_size = suc n; content = write_at n (0 ∷ []) [] } ≡ w = cc in
    (
      sym (ap (λ (x : FileWriter). x.file_size) made),
      sym (ap (λ (x : FileWriter). x.content) made) ∙ z,
    )

-- A write at the end of what is written leaves the zeros behind it.
pub write_at-append :
    (done bytes : List ℕ) (rest : ℕ)
    → write_at (length done) bytes (done ++ replicate (length bytes + rest) 0)
      ≡ done ++ (bytes ++ replicate rest 0)
unfolding write_at
write_at-append done bytes rest =
    let inside : length done - length (done ++ replicate (length bytes + rest) 0) ≡ 0 =
      omega (arith, length-append done (replicate (length bytes + rest) 0)) in
    rw (
      inside,
      append-nil (done ++ replicate (length bytes + rest) 0),
      take-append_length done (replicate (length bytes + rest) 0),
      drop-add done (replicate (length bytes + rest) 0) (length bytes),
      drop-replicate {A = ℕ} (length bytes) rest 0,
    )

-- A batch at the end of what is written, within the space left, goes behind it whole.
pub write_all-append :
    (chunks : List (List ℕ)) (done : List ℕ) (rest : ℕ)
    → write_all (length done) chunks (done ++ replicate (total_length chunks + rest) 0)
      ≡ done ++ (concat chunks ++ replicate rest 0)
unfolding write_all concat total_length
write_all-append [] done rest = let e : 0 + rest ≡ rest = omega arith in rw e
write_all-append (c ∷ cs) done rest =
    let space : length c + total_length cs + rest ≡ length c + (total_length cs + rest) =
      omega arith in
    rw
      (
        space,
        write_at-append done c (total_length cs + rest),
        ← append_assoc done c (replicate (total_length cs + rest) 0),
        ← length-append done c,
        write_all-append cs (done ++ c) rest,
      )
      (simp append_assoc)

pub total_length-nil : total_length [] ≡ 0
unfolding total_length
total_length-nil = refl

pub total_length-append :
    (xs ys : List (List ℕ)) → total_length (xs ++ ys) ≡ total_length xs + total_length ys
unfolding total_length
total_length-append [] ys = omega arith
total_length-append (x ∷ xs) ys = omega (arith, total_length-append xs ys)

concat-append : (xs ys : List (List ℕ)) → concat (xs ++ ys) ≡ concat xs ++ concat ys
unfolding concat
concat-append [] ys = refl
concat-append (x ∷ xs) ys = rw (concat-append xs ys) (sym (append_assoc x (concat xs) (concat ys)))

pub total_length-take-le : (k : ℕ) (xs : List (List ℕ)) → total_length (take k xs) ≤ total_length xs
total_length-take-le k xs =
    omega
      (arith, total_length-append (take k xs) (drop k xs), ap total_length (take-append-drop k xs))

-- What has been written of a file of these chunks, when the first `k` of them are there.
abbrev pub Holds : List (List ℕ) → ℕ → ℕ → FileWriter → Type 0
Holds chunks k count w =
    (w.file_size ≡ total_length chunks)
    × (count ≡ total_length (take k chunks))
    × (w.content
        ≡ concat (take k chunks)
          ++ replicate (total_length chunks - total_length (take k chunks)) 0)

-- A batch of the next chunks does not raise, and extends what is written by them.
pub write_batch-Holds :
    (chunks : List (List ℕ)) (k k' count : ℕ) (cs : List (List ℕ)) (w : FileWriter)
    → take k' chunks ≡ take k chunks ++ cs
    → Holds chunks k count w
    → (w' : FileWriter) × (write_batch count cs w ≡ ok w')
      × Holds chunks k' (count + total_length cs) w'
unfolding write_batch
write_batch-Holds chunks k k' count cs w more (size, at, content) =
    let sum = ap total_length more ∙ total_length-append (take k chunks) cs in
    let fits : count + total_length cs ≤ w.file_size =
      omega (arith, total_length-take-le k' chunks) in
    (
      record w { content = write_all count cs w.content },
      rw (le→ltb _ _ fits),
      (size, omega arith, written),
    )
  where
    place : count ≡ length (concat (take k chunks))
    place = at ∙ sym (length-concat (take k chunks))

    sum' : total_length (take k' chunks) ≡ total_length (take k chunks) + total_length cs
    sum' = ap total_length more ∙ total_length-append (take k chunks) cs

    space :
        total_length chunks - total_length (take k chunks)
        ≡ total_length cs + (total_length chunks - total_length (take k' chunks))
    space = omega (arith, sum', total_length-take-le k' chunks)

    written :
        write_all count cs w.content
        ≡ concat (take k' chunks)
          ++ replicate (total_length chunks - total_length (take k' chunks)) 0
    written =
        ap₂ (λ n c. write_all n cs c) place
          (content ∙ ap (λ n. concat (take k chunks) ++ replicate n 0) space)
        ∙ write_all-append cs (concat (take k chunks))
            (total_length chunks - total_length (take k' chunks))
        ∙ sym (append_assoc (concat (take k chunks)) (concat cs) (replicate _ 0))
        ∙ ap (λ c. c ++ replicate (total_length chunks - total_length (take k' chunks)) 0)
            (sym (concat-append (take k chunks) cs) ∙ ap concat (sym more))

-- A new file holds none of the chunks yet.
pub open_file-Holds :
    (chunks : List (List ℕ)) {w : FileWriter}
    → open_file (total_length chunks) ≡ ok w
    → Holds chunks 0 0 w
open_file-Holds chunks {w} e =
    let (size, zeros) = open_file_lem (total_length chunks) e in
    let none_yet : total_length [] ≡ 0 = total_length-nil in
    (size, omega arith, zeros ∙ rw (concat-nil) (ap (λ n. replicate n 0) (omega arith)))
