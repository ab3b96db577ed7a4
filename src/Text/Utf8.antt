-- ===== src/Text/Utf8.antt =====
-- The round trip of a text through its bytes, and of a file size through its four bytes.
use redes_hamelin.Base.{
  ℕ, ◌+◌, ◌^◌, ◌%◌, ◌/◌, ◌≤◌, ◌<◌, ◌≡◌, refl, subst, ◌∙◌, ap, List, [], ◌∷◌, ◌++◌, arith, lt→ltb,
  false, Result, ok, >>=-eq-ok, some, All,
}
use redes_hamelin.Text.{
  Text, is_surrogate, encode_char, encode, decode_from, decode, at_start, emit, to_bytes4,
  int_from_bytes,
}

abbrev pub four_bytes_of : ℕ → List ℕ
four_bytes_of n = n / 16777216 ∷ n / 65536 % 256 ∷ n / 256 % 256 ∷ n % 256 ∷ []

pub to_bytes4_lem : (n : ℕ) → n < 2 ^ 32 → to_bytes4 n ≡ ok (four_bytes_of n)
unfolding to_bytes4
to_bytes4_lem n h = rw (lt→ltb n (2 ^ 32) h)

-- Four bytes carry every size below 2^32.
pub int_from_bytes-four_bytes_of : (n : ℕ) → n < 2 ^ 32 → int_from_bytes (four_bytes_of n) ≡ n
unfolding int_from_bytes
int_from_bytes-four_bytes_of n h = omega arith

one_byte :
    (c : ℕ) (rest : List ℕ)
    → c < 0x80
    → decode_from at_start (c ∷ rest) ≡ emit (some c) (decode_from at_start rest)
unfolding decode_from
one_byte c rest h = ground arith

two_bytes :
    (c : ℕ) (rest : List ℕ)
    → 0x80 ≤ c
    → c < 0x800
    → decode_from at_start ((0xC0 + c / 64) ∷ (0x80 + c % 64) ∷ rest)
      ≡ emit (some c) (decode_from at_start rest)
unfolding decode_from
two_bytes c rest l h = ground arith

three_bytes :
    (c : ℕ) (rest : List ℕ)
    → 0x800 ≤ c
    → c < 0x10000
    → is_surrogate c ≡ false
    → decode_from at_start ((0xE0 + c / 4096) ∷ (0x80 + c / 64 % 64) ∷ (0x80 + c % 64) ∷ rest)
      ≡ emit (some c) (decode_from at_start rest)
unfolding decode_from
three_bytes c rest l h s = ground arith

four_bytes :
    (c : ℕ) (rest : List ℕ)
    → 0x10000 ≤ c
    → c < 0x110000
    → decode_from at_start (
        (0xF0 + c / 262144)
        ∷ (0x80 + c / 4096 % 64)
        ∷ (0x80 + c / 64 % 64)
        ∷ (0x80 + c % 64)
        ∷ rest)
      ≡ emit (some c) (decode_from at_start rest)
unfolding decode_from
four_bytes c rest l h = ground arith

decode-encode_char :
    (c : ℕ) (b rest : List ℕ)
    → c < 0x110000
    → encode_char c ≡ ok b
    → decode_from at_start (b ++ rest) ≡ emit (some c) (decode_from at_start rest)
unfolding encode_char
decode-encode_char c b rest h e =
    ground (arith, one_byte c rest, two_bytes c rest, three_bytes c rest, four_bytes c rest)

decode-append :
    (c : ℕ) (cs b0 b1 b : List ℕ)
    → c < 0x110000
    → encode_char c ≡ ok b0
    → decode b1 ≡ ok cs
    → ◌≡◌ {A = Result (List ℕ)} (ok (b0 ++ b1)) (ok b)
    → decode b ≡ ok (c ∷ cs)
unfolding decode
decode-append c cs b0 b1 b h e0 e1 joined =
    let same : b0 ++ b1 ≡ b = cc in
    subst (λ x. decode x ≡ ok (c ∷ cs)) same
      (decode-encode_char c b0 b1 h e0 ∙ ap (emit (some c)) e1)

-- Every text that can be encoded is decoded to itself.
pub decode-encode :
    (t : Text) (b : List ℕ) → All (λ c. c < 0x110000) t → encode t ≡ ok b → decode b ≡ ok t
unfolding encode decode
decode-encode [] b h e = let same : [] ≡ b = cc in subst (λ x. decode x ≡ ok []) same refl
decode-encode (c ∷ cs) b h e =
    let (b0, e0, e') = >>=-eq-ok (encode_char c) _ e in
    let (b1, e1, e'') = >>=-eq-ok (encode cs) _ e' in
    decode-append c cs b0 b1 b h.0 e0 (decode-encode cs b1 h.1 e1) e''
