-- ===== src/Segment.antt =====
-- TP 1 RDTP/src/lib/segment/segment.py: the segment of the protocol, its checksum and its bytes.
-- A byte is a number below 256. `x << 5`, `x >> 5`, `x & 0x3F` and `~x & 0xFFFF` are written
-- `x * 32`, `x / 32`, `x % 64` and `65535 - x % 65536`; the sequence number is an unbounded int.
pub mod Checksum
pub mod Codec
use redes_hamelin.Base.{
  ℕ, zero, suc, ◌+◌, ◌-◌, ◌*◌, ◌/◌, ◌%◌, ◌≡◌, Bool, not, ◌&&◌, List, [], ◌∷◌, ◌++◌, ltb, ◌==◌,
  if◌then◌else◌, take, drop, Result, ok, err, struct_error, index_error, ◌>>=◌, bit_and,
}

abbrev pub size_max_seg : ℕ
size_max_seg = 1400

abbrev pub headers_length : ℕ
headers_length = 8

abbrev pub max_payload_size : ℕ
max_payload_size = size_max_seg - headers_length

abbrev pub syn_mask : ℕ
syn_mask = 0b00100000

abbrev pub ack_mask : ℕ
ack_mask = 0b00010000

abbrev pub err_mask : ℕ
err_mask = 0b00001000

abbrev pub ctyp_mask : ℕ
ctyp_mask = 0b00000100

abbrev pub ptyp_mask : ℕ
ptyp_mask = 0b00000010

abbrev pub fin_mask : ℕ
fin_mask = 0b00000001

pub record Segment : Type 0 where
  pub sequence_number : ℕ
  pub payload_length : ℕ
  pub flags : ℕ
  pub payload : List ℕ
  pub checksum : ℕ

-- `payload[-1]`
unfoldable pub last_byte : List ℕ → Result ℕ
last_byte [] = err index_error
last_byte (b ∷ []) = ok b
last_byte (b ∷ c ∷ bs) = last_byte (c ∷ bs)

-- The loop over `payload[i:i + 2]`, by the bytes that `payload_length` still promises. A slice of
-- fewer than two bytes makes `struct.unpack` raise.
unfoldable pub add_words : ℕ → List ℕ → ℕ → Result ℕ
add_words (suc (suc n)) (a ∷ b ∷ bs) sum = add_words n bs (sum + (a * 256 + b))
add_words (suc (suc n)) _ sum = err struct_error
add_words _ bs sum = ok sum

-- The sum before its complement is taken.
pub sum_fields : ℕ → ℕ → ℕ → List ℕ → Result ℕ
sum_fields seq len flags payload = do
  sum ← add_words len payload (seq + len * 32 + flags % 64)
  if len % 2 == 0 then ok sum else last_byte payload >>= λ b. ok (sum + b)

-- `calculateChecksum`
unfoldable pub calculate_checksum : ℕ → ℕ → ℕ → List ℕ → Result ℕ
unfolding sum_fields
calculate_checksum seq len flags payload = do
  sum ← sum_fields seq len flags payload
  ok (65535 - sum % 65536)

-- `Segment(sequenceNumber, payloadLength, flags, payload)`
unfoldable pub new : ℕ → ℕ → ℕ → List ℕ → Result Segment
new seq len flags payload = do
  checksum ← calculate_checksum seq len flags payload
  ok (record {
    sequence_number = seq;
    payload_length = len;
    flags = flags;
    payload = payload;
    checksum = checksum;
  })

unfoldable pub is_syn : Segment → Bool
is_syn s = not (bit_and s.flags syn_mask == 0)

unfoldable pub is_ack : Segment → Bool
is_ack s = not (bit_and s.flags ack_mask == 0)

unfoldable pub is_err : Segment → Bool
is_err s = not (bit_and s.flags err_mask == 0)

unfoldable pub get_ctyp : Segment → ℕ
get_ctyp s = bit_and s.flags ctyp_mask

unfoldable pub get_ptyp : Segment → ℕ
get_ptyp s = bit_and s.flags ptyp_mask

unfoldable pub is_fin : Segment → Bool
is_fin s = not (bit_and s.flags fin_mask == 0)

-- The `H` of a struct format, big endian: two bytes, and an error beyond 65535.
unfoldable pub pack_short : ℕ → Result (List ℕ)
pack_short x = if ltb x 65536 then ok (x / 256 ∷ x % 256 ∷ []) else err struct_error

-- `toBytes`
unfoldable pub to_bytes : Segment → Result (List ℕ)
to_bytes s = do
  c ← pack_short s.checksum
  n ← pack_short s.sequence_number
  l ← pack_short (s.payload_length * 32)
  f ← pack_short (s.flags % 64)
  ok (c ++ (n ++ (l ++ (f ++ s.payload))))

-- `struct.unpack("!H H H H", data[:8])`, which wants eight bytes.
unfoldable pub unpack_header : List ℕ → Result (ℕ × ℕ × ℕ × ℕ)
unpack_header (c1 ∷ c0 ∷ n1 ∷ n0 ∷ l1 ∷ l0 ∷ f1 ∷ f0 ∷ []) =
    ok (c1 * 256 + c0, n1 * 256 + n0, l1 * 256 + l0, f1 * 256 + f0)
unpack_header _ = err struct_error

-- `fromBytes`: the checksum of the header is read and not used.
unfoldable pub from_bytes : List ℕ → Result Segment
from_bytes bytes = unpack_header (take headers_length bytes) >>= λ (_, seq, len, flags).
    new seq (len / 32) (flags % 64) (drop headers_length bytes)
