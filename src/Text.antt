-- ===== src/Text.antt =====
-- What the program uses of Python's texts and integers as bytes: `str.encode("utf-8")`,
-- `bytes.decode("utf-8")`, `int.to_bytes(n, "big")` and `int.from_bytes(b, "big")`.
-- A text is the list of its code points.
pub mod Utf8
use redes_hamelin.Base.{
  ℕ, zero, suc, ◌+◌, ◌-◌, ◌*◌, ◌/◌, ◌%◌, ◌^◌, Bool, true, false, ◌&&◌, ◌||◌, not, Option, none,
  some, List, [], ◌∷◌, ◌++◌, ltb, leb, ◌==◌, if◌then◌else◌, Result, ok, err, unicode_error,
  overflow_error, ◌>>=◌, Eq, ◌≡◌, ◌↔◌, refl, arith, ==_iff,
}

abbrev pub Text : Type 0
Text = List ℕ

abbrev pub is_surrogate : ℕ → Bool
is_surrogate c = leb 0xD800 c && leb c 0xDFFF

-- One code point in UTF-8; a surrogate cannot be encoded.
pub encode_char : ℕ → Result (List ℕ)
encode_char c =
    if ltb c 0x80
    then ok (c ∷ [])
    else if ltb c 0x800
    then ok ((0xC0 + c / 64) ∷ (0x80 + c % 64) ∷ [])
    else if is_surrogate c
    then err unicode_error
    else if ltb c 0x10000
    then ok ((0xE0 + c / 4096) ∷ (0x80 + c / 64 % 64) ∷ (0x80 + c % 64) ∷ [])
    else ok
        ((0xF0 + c / 262144) ∷ (0x80 + c / 4096 % 64) ∷ (0x80 + c / 64 % 64) ∷ (0x80 + c % 64) ∷ [])

unfoldable pub encode : Text → Result (List ℕ)
unfolding encode_char
encode [] = ok []
encode (c ∷ cs) = do b ← encode_char c; bs ← encode cs; ok (b ++ bs)

-- What the decoder is in the middle of: the bytes still wanted, the value so far, and the least
-- value that this length may encode.
pub record Partial : Type 0 where
  pub wanted : ℕ
  pub value : ℕ
  pub lowest : ℕ

abbrev pub at_start : Partial
at_start = record { wanted = 0; value = 0; lowest = 0 }

lead : ℕ → Option (Partial × Option ℕ)
lead b =
    if ltb b 0x80
    then some (at_start, some b)
    else if ltb b 0xC2
    then none
    else if ltb b 0xE0
    then some (record { wanted = 1; value = b - 0xC0; lowest = 0x80 }, none)
    else if ltb b 0xF0
    then some (record { wanted = 2; value = b - 0xE0; lowest = 0x800 }, none)
    else if ltb b 0xF5
    then some (record { wanted = 3; value = b - 0xF0; lowest = 0x10000 }, none)
    else none

continuation : ℕ → ℕ → ℕ → ℕ → Option (Partial × Option ℕ)
continuation n value lowest b =
    if ltb b 0x80 || leb 0xC0 b
    then none
    else let c = value * 64 + (b - 0x80) in
      if not (n == 0)
      then some (record { wanted = n; value = c; lowest = lowest }, none)
      else if ltb c lowest || is_surrogate c || leb 0x110000 c
      then none
      else some (at_start, some c)

decode_byte : ℕ → ℕ → ℕ → ℕ → Option (Partial × Option ℕ)
unfolding lead continuation
decode_byte zero value lowest b = lead b
decode_byte (suc n) value lowest b = continuation n value lowest b

abbrev emit : Option ℕ → Result Text → Result Text
emit none r = r
emit (some c) r = r >>= λ cs. ok (c ∷ cs)

pub decode_from : Partial → List ℕ → Result Text
unfolding decode_byte
decode_from p [] = if p.wanted == 0 then ok [] else err unicode_error
decode_from p (b ∷ bs) = elim (decode_byte p.wanted p.value p.lowest b) [
  | none ↦ err unicode_error
  | some (q, out) ↦ emit out (decode_from q bs)
]

pub decode : List ℕ → Result Text
unfolding decode_from
decode = decode_from at_start

-- `n.to_bytes(4, "big")`
unfoldable pub to_bytes4 : ℕ → Result (List ℕ)
to_bytes4 n =
    if ltb n (2 ^ 32)
    then ok (n / 16777216 ∷ n / 65536 % 256 ∷ n / 256 % 256 ∷ n % 256 ∷ [])
    else err overflow_error

big_endian : ℕ → List ℕ → ℕ
big_endian acc [] = acc
big_endian acc (b ∷ bs) = big_endian (acc * 256 + b) bs

-- `int.from_bytes(bytes, "big")`
pub int_from_bytes : List ℕ → ℕ
unfolding big_endian
int_from_bytes = big_endian 0

-- Equality of texts, as keys of a dict.
unfoldable pub text_eq : Text → Text → Bool
text_eq [] [] = true
text_eq (a ∷ as') (b ∷ bs) = a == b && text_eq as' bs
text_eq _ _ = false

pub text_eq_iff : (a b : Text) → (text_eq a b ≡ true) ↔ (a ≡ b)
unfolding text_eq
text_eq_iff [] [] = ground arith
text_eq_iff [] (b ∷ bs) = ground arith
text_eq_iff (a ∷ as') [] = ground arith
text_eq_iff (a ∷ as') (b ∷ bs) = ground (arith, text_eq_iff as' bs)

instance abbrev pub text_Eq : Eq Text
text_Eq = record { beq = text_eq; beq_iff = text_eq_iff }
