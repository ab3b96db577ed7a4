-- ===== src/Tests/Wire.antt =====
-- A segment with three bytes of payload, and the SYN of an upload.
use redes_hamelin.Base.{ℕ, ◌-◌, ◌%◌, ◌<◌, ◌≡◌, ◌≢◌, refl, List, [], ◌∷◌, arith, ok, All}
use redes_hamelin.Text.{Text, encode, to_bytes4}
use redes_hamelin.Segment.{
  Segment, new, calculate_checksum, add_words, last_byte, to_bytes, from_bytes, unpack_header,
}
use redes_hamelin.Segment.Checksum.{
  plain_sum, calculate_checksum-eq-plain_sum, from_bytes-checksum, checksum_detects_byte,
}
use redes_hamelin.Segment.Codec.{from_bytes-to_bytes}
use redes_hamelin.Service.{upload, selective_repeat, service, get_masks}
use redes_hamelin.Service.Client.{make_synpack_for_upload}
use redes_hamelin.Service.Server.{get_file_details_from_syn_segment}
use redes_hamelin.Service.Handshake.{upload_details}

-- 65535 - (5 + 3 * 32 + 16 + (7 * 256 + 8) + 9)
abbrev pub small : Segment
small = record {
  sequence_number = 5;
  payload_length = 3;
  flags = 16;
  payload = 7 ∷ 8 ∷ 9 ∷ [];
  checksum = 63609;
}

pub small_made : new 5 3 16 (7 ∷ 8 ∷ 9 ∷ []) ≡ ok small
unfolding new calculate_checksum add_words last_byte
small_made = refl

abbrev small_bytes : List ℕ
small_bytes = 248 ∷ 121 ∷ 0 ∷ 5 ∷ 0 ∷ 96 ∷ 0 ∷ 16 ∷ 7 ∷ 8 ∷ 9 ∷ []

small_read : from_bytes small_bytes ≡ ok small
unfolding from_bytes unpack_header new calculate_checksum add_words last_byte
small_read = refl

from_bytes-to_bytes_example :
    (bytes : List ℕ) × (to_bytes small ≡ ok bytes) × (from_bytes bytes ≡ ok small)
from_bytes-to_bytes_example =
    from_bytes-to_bytes 5 3 16 (7 ∷ 8 ∷ 9 ∷ []) (omega arith) (omega arith) (omega arith) small_made

abbrev large : Segment
large = record small { sequence_number = 65536 }

from_bytes-checksum_example : calculate_checksum 5 3 16 (7 ∷ 8 ∷ 9 ∷ []) ≡ ok 63609
from_bytes-checksum_example = from_bytes-checksum small_bytes small_read

calculate_checksum-eq-plain_sum_example :
    calculate_checksum 5 3 16 (7 ∷ 8 ∷ 9 ∷ [])
    ≡ ok (65535 - plain_sum 5 16 (7 ∷ 8 ∷ 9 ∷ []) % 65536)
calculate_checksum-eq-plain_sum_example = calculate_checksum-eq-plain_sum 5 16 (7 ∷ 8 ∷ 9 ∷ [])

checksum_detects_byte_example :
    calculate_checksum 5 3 16 (7 ∷ 8 ∷ 9 ∷ []) ≢ calculate_checksum 5 3 16 (7 ∷ 6 ∷ 9 ∷ [])
checksum_detects_byte_example =
    checksum_detects_byte 5 16 (7 ∷ []) (9 ∷ []) 8 6 (omega arith) (omega arith) (omega arith)

-- "ab.txt", 3 bytes long
abbrev file_name : Text
file_name = 97 ∷ 98 ∷ 46 ∷ 116 ∷ 120 ∷ 116 ∷ []

abbrev syn : Segment
syn = record {
  sequence_number = 0;
  payload_length = 10;
  flags = 34;
  payload = 0 ∷ 0 ∷ 0 ∷ 3 ∷ 97 ∷ 98 ∷ 46 ∷ 116 ∷ 120 ∷ 116 ∷ [];
  checksum = 63056;
}

name_small : All (λ c. c < 0x110000) file_name
name_small =
    (omega arith, (omega arith, (omega arith, (omega arith, (omega arith, (omega arith, tt))))))

syn_made : make_synpack_for_upload (service upload selective_repeat) file_name 3 ≡ ok syn
unfolding make_synpack_for_upload encode to_bytes4 service get_masks new calculate_checksum
    add_words
syn_made = refl

upload_details_example : get_file_details_from_syn_segment syn ≡ ok (file_name, 3)
upload_details_example =
    upload_details (service upload selective_repeat) file_name 3 name_small (omega arith) syn_made
