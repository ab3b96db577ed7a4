-- ===== src/Segment/Checksum.antt =====
-- segment.py, `calculateChecksum`: the loop against a plain sum of 16-bit words, and what the
-- complement of that sum detects.
use redes_hamelin.Base.{
  ℕ, suc, ◌+◌, ◌-◌, ◌*◌, ◌/◌, ◌%◌, ◌<◌, ◌≡◌, ◌≢◌, sym, ap, ◌∙◌, List, [], ◌∷◌, ◌++◌, arith, ◌==◌,
  if◌then◌else◌, length, length-append, take, drop, Result, ok, ◌>>=◌, >>=-eq-ok,
}
use mathlib.Core.Path.{fun_ext}
use native.Mathlib.Decide.{dec_lt}
use redes_hamelin.Segment.{
  Segment, last_byte, add_words, sum_fields, calculate_checksum, new, from_bytes, unpack_header,
}

-- The bytes as big-endian 16-bit words; an odd byte at the end counts as it is.
abbrev pub word_sum : List ℕ → ℕ
word_sum [] = 0
word_sum (b ∷ []) = b
word_sum (a ∷ b ∷ bs) = a * 256 + b + word_sum bs

abbrev finish : ℕ → List ℕ → ℕ → Result ℕ
finish len payload sum = if len % 2 == 0 then ok sum else last_byte payload >>= λ b. ok (sum + b)

finish_skip :
    (a b c : ℕ) (bs : List ℕ) (sum : ℕ)
    → finish (length (a ∷ b ∷ c ∷ bs)) (a ∷ b ∷ c ∷ bs) sum ≡ finish (length (c ∷ bs)) (c ∷ bs) sum
unfolding last_byte
finish_skip a b c bs sum =
    let parity : suc (suc (length (c ∷ bs))) % 2 ≡ length (c ∷ bs) % 2 = omega arith in rw parity

add_words-eq-word_sum :
    (p : List ℕ) (acc : ℕ)
    → (add_words (length p) p acc >>= finish (length p) p) ≡ ok (acc + word_sum p)
unfolding add_words last_byte
add_words-eq-word_sum [] acc = ground arith
add_words-eq-word_sum (b ∷ []) acc = ground arith
add_words-eq-word_sum (a ∷ b ∷ []) acc = ground arith
add_words-eq-word_sum (a ∷ b ∷ c ∷ bs) acc =
    ap (λ k. add_words (length (c ∷ bs)) (c ∷ bs) (acc + (a * 256 + b)) >>= k)
      (fun_ext λ sum. finish_skip a b c bs sum)
    ∙ add_words-eq-word_sum (c ∷ bs) (acc + (a * 256 + b))
    ∙ ap ok (omega arith)

-- The sum that `calculateChecksum` makes of a payload of the announced length.
abbrev pub plain_sum : ℕ → ℕ → List ℕ → ℕ
plain_sum seq flags payload = seq + length payload * 32 + flags % 64 + word_sum payload

-- On a payload of the announced length the checksum is the complement of the plain sum of the
-- header fields and the words, modulo 2^16.
pub calculate_checksum-eq-plain_sum :
    (seq flags : ℕ) (payload : List ℕ)
    → calculate_checksum seq (length payload) flags payload
      ≡ ok (65535 - plain_sum seq flags payload % 65536)
unfolding calculate_checksum sum_fields
calculate_checksum-eq-plain_sum seq flags payload =
    ap (λ r. r >>= λ sum. ok (65535 - sum % 65536))
      (add_words-eq-word_sum payload (seq + length payload * 32 + flags % 64))

-- A segment whose length field tells the truth can always be constructed.
pub new_lem :
    (seq flags : ℕ) (payload : List ℕ)
    → new seq (length payload) flags payload
      ≡ ok (record {
        sequence_number = seq;
        payload_length = length payload;
        flags = flags;
        payload = payload;
        checksum = 65535 - plain_sum seq flags payload % 65536;
      })
unfolding new
new_lem seq flags payload = rw calculate_checksum-eq-plain_sum

new-checksum :
    (seq len flags : ℕ) (payload : List ℕ) {s : Segment}
    → new seq len flags payload ≡ ok s
    → calculate_checksum s.sequence_number s.payload_length s.flags s.payload ≡ ok s.checksum
unfolding new
new-checksum seq len flags payload {s} h =
    let (c, e, same) = >>=-eq-ok (calculate_checksum seq len flags payload) _ h in ground arith

-- Whatever bytes arrive, the segment that is read from them has the checksum that its own fields
-- give: the comparison of the receiver cannot fail.
pub from_bytes-checksum :
    (bytes : List ℕ) {s : Segment}
    → from_bytes bytes ≡ ok s
    → calculate_checksum s.sequence_number s.payload_length s.flags s.payload ≡ ok s.checksum
unfolding from_bytes new
from_bytes-checksum bytes h =
    let (parts, _, made) = >>=-eq-ok (unpack_header (take 8 bytes)) _ h in
    let (_, seq, len, flags) = parts in new-checksum seq (len / 32) (flags % 64) (drop 8 bytes) made

word_sum_change :
    (xs ys : List ℕ) (a b : ℕ)
    → a < b
    → b < 256
    → (word_sum (xs ++ a ∷ ys) < word_sum (xs ++ b ∷ ys))
      × (word_sum (xs ++ b ∷ ys) < word_sum (xs ++ a ∷ ys) + 65536)
word_sum_change [] [] a b h k = omega arith
word_sum_change [] (y ∷ ys) a b h k = omega arith
word_sum_change (x ∷ []) [] a b h k = omega arith
word_sum_change (x ∷ []) (y ∷ ys) a b h k = omega arith
word_sum_change (x ∷ x' ∷ xs) ys a b h k = omega (arith, word_sum_change xs ys a b h k)

checksum_moves :
    (seq flags : ℕ) (xs ys : List ℕ) (a b : ℕ)
    → a < b
    → b < 256
    → 65535 - plain_sum seq flags (xs ++ a ∷ ys) % 65536
      ≢ 65535 - plain_sum seq flags (xs ++ b ∷ ys) % 65536
checksum_moves seq flags xs ys a b h k e =
    omega
      (arith, word_sum_change xs ys a b h k, length-append xs (a ∷ ys), length-append xs (b ∷ ys))

-- Changing any one byte of the payload changes the checksum, where the length field is the length of
-- the payload.
pub checksum_detects_byte :
    (seq flags : ℕ) (xs ys : List ℕ) (a b : ℕ)
    → a < 256
    → b < 256
    → a ≢ b
    → calculate_checksum seq (length (xs ++ a ∷ ys)) flags (xs ++ a ∷ ys)
      ≢ calculate_checksum seq (length (xs ++ b ∷ ys)) flags (xs ++ b ∷ ys)
checksum_detects_byte seq flags xs ys a b ha hb ne e = elim (dec_lt a b) [
  | yes less ↦ checksum_moves seq flags xs ys a b less hb same
  | no more ↦ checksum_moves seq flags xs ys b a (omega arith) ha (sym same)
]
  where
    same :
        65535 - plain_sum seq flags (xs ++ a ∷ ys) % 65536
        ≡ 65535 - plain_sum seq flags (xs ++ b ∷ ys) % 65536
    same = cc (
      calculate_checksum-eq-plain_sum seq flags (xs ++ a ∷ ys),
      calculate_checksum-eq-plain_sum seq flags (xs ++ b ∷ ys),
    )
