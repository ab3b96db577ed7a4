-- ===== src/Segment/Codec.antt =====
-- segment.py, `toBytes` and `fromBytes`: the round trip, and what the wire format loses.
use redes_hamelin.Base.{ℕ, ◌+◌, ◌*◌, ◌/◌, ◌%◌, ◌<◌, ◌≡◌, refl, ◌∙◌, List, ◌∷◌, arith, lt→ltb, ok}
use mathlib.Core.Path.{ap₂}
use redes_hamelin.Segment.{
  Segment, calculate_checksum, new, pack_short, to_bytes, unpack_header, from_bytes,
}

-- What the constructor has put into a segment's fields.
pub new-eq-ok :
    (seq len flags : ℕ) (payload : List ℕ) {s : Segment}
    → new seq len flags payload ≡ ok s
    → (s.sequence_number ≡ seq)
      × (s.payload_length ≡ len)
      × (s.flags ≡ flags)
      × (s.payload ≡ payload)
      × (calculate_checksum seq len flags payload ≡ ok s.checksum)
unfolding new
new-eq-ok seq len flags payload h = ground arith

checksum_lt :
    (seq len flags : ℕ) (payload : List ℕ) {c : ℕ}
    → calculate_checksum seq len flags payload ≡ ok c
    → c < 65536
unfolding calculate_checksum
checksum_lt seq len flags payload h = ground arith

-- The eight bytes of a header.
abbrev header : Segment → List ℕ → List ℕ
header s rest =
    s.checksum / 256
    ∷ s.checksum % 256
    ∷ s.sequence_number / 256
    ∷ s.sequence_number % 256
    ∷ s.payload_length * 32 / 256
    ∷ s.payload_length * 32 % 256
    ∷ s.flags % 64 / 256
    ∷ s.flags % 64 % 256
    ∷ rest

to_bytes-eq-header :
    (s : Segment)
    → s.checksum < 65536
    → s.sequence_number < 65536
    → s.payload_length < 2048
    → to_bytes s ≡ ok (header s s.payload)
unfolding to_bytes pack_short
to_bytes-eq-header s hc hs hl =
    rw (lt→ltb _ _ hc, lt→ltb _ _ hs, lt→ltb (s.payload_length * 32) 65536 (omega arith))
      (rw (lt→ltb (s.flags % 64) 65536 (omega arith)))

from_bytes-header :
    (s : Segment)
    → s.flags < 64
    → from_bytes (header s s.payload) ≡ new s.sequence_number s.payload_length s.flags s.payload
unfolding from_bytes unpack_header
from_bytes-header s hf =
    let seq_back : s.sequence_number / 256 * 256 + s.sequence_number % 256 ≡ s.sequence_number =
      omega arith in
    let len_back : (s.payload_length * 32 / 256 * 256 + s.payload_length * 32 % 256) / 32
        ≡ s.payload_length =
      omega arith in
    let flags_back : (s.flags % 64 / 256 * 256 + s.flags % 64 % 256) % 64 ≡ s.flags = omega arith in
    rw (seq_back, len_back, flags_back)

-- A constructed segment whose fields fit the header is written, and is read back as it was.
pub from_bytes-to_bytes :
    (seq len flags : ℕ) (payload : List ℕ) {s : Segment}
    → seq < 65536
    → len < 2048
    → flags < 64
    → new seq len flags payload ≡ ok s
    → (bytes : List ℕ) × (to_bytes s ≡ ok bytes) × (from_bytes bytes ≡ ok s)
from_bytes-to_bytes seq len flags payload {s} hs hl hf h =
    let (e0, e1, e2, e3, ec) = new-eq-ok seq len flags payload h in
    (
      header s s.payload,
      to_bytes-eq-header s (checksum_lt seq len flags payload ec) (omega (arith, e0))
          (omega (arith, e1)),
      from_bytes-header s (omega (arith, e2))
          ∙ ap₂ (λ a b. new a b s.flags s.payload) e0 e1
          ∙ ap₂ (λ a b. new seq len a b) e2 e3
          ∙ h,
    )

pub to_bytes_fits :
    (s : Segment) {bytes : List ℕ}
    → to_bytes s ≡ ok bytes
    → (s.sequence_number < 65536) × (s.payload_length < 2048)
unfolding to_bytes pack_short
to_bytes_fits s h = ground arith

-- Two datagrams that differ only in the checksum of the header are read as the same segment.
pub from_bytes_ignores_checksum :
    (a b c d : ℕ) (rest : List ℕ) → from_bytes (a ∷ b ∷ rest) ≡ from_bytes (c ∷ d ∷ rest)
unfolding from_bytes unpack_header
from_bytes_ignores_checksum a b c d (e ∷ f ∷ g ∷ h ∷ i ∷ j ∷ rest) = refl
from_bytes_ignores_checksum a b c d _ = refl
