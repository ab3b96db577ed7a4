-- ===== src/Service/Makes.antt =====
-- What the makers promise: the flags of each kind of segment read back as that kind, and the types
-- of client and protocol travel in them.
use redes_hamelin.Base.{
  ℕ, ◌+◌, ◌-◌, ◌%◌, ◌<◌, ◌≡◌, refl, Bool, true, false, List, [], length, arith, ok, bit_or,
}
use redes_hamelin.Segment.{Segment, is_syn, is_ack, is_err, is_fin}
use redes_hamelin.Segment.Checksum.{new_lem, plain_sum}
use redes_hamelin.Service.{
  ClientType, upload, download, ProtocolType, stop_and_wait, selective_repeat, Service, service,
  get_masks, make_segment, make_ack_segment, make_fin_segment,
}

-- The segment that `makeSegment` builds for a chunk: no exception is possible.
abbrev pub data_segment : Service → ℕ → List ℕ → Segment
data_segment s seq payload = record {
  sequence_number = seq;
  payload_length = length payload;
  flags = bit_or 0 (get_masks s);
  payload = payload;
  checksum = 65535 - plain_sum seq (bit_or 0 (get_masks s)) payload % 65536;
}

pub make_segment-eq-data_segment :
    (s : Service) (seq : ℕ) (payload : List ℕ)
    → make_segment s seq 0 payload ≡ ok (data_segment s seq payload)
unfolding make_segment
make_segment-eq-data_segment s seq payload = new_lem seq (bit_or 0 (get_masks s)) payload

abbrev pub ack_segment : Service → ℕ → Segment
ack_segment s seq = record {
  sequence_number = seq;
  payload_length = 0;
  flags = bit_or 0b010000 (get_masks s);
  payload = [];
  checksum = 65535 - plain_sum seq (bit_or 0b010000 (get_masks s)) [] % 65536;
}

pub make_ack_segment-eq-ack_segment :
    (s : Service) (seq : ℕ) → make_ack_segment s seq ≡ ok (ack_segment s seq)
unfolding make_ack_segment
make_ack_segment-eq-ack_segment s seq = new_lem seq (bit_or 0b010000 (get_masks s)) []

abbrev pub fin_segment : Service → ℕ → Segment
fin_segment s seq = record {
  sequence_number = seq + 1;
  payload_length = 0;
  flags = bit_or 0b000001 (get_masks s);
  payload = [];
  checksum = 65535 - plain_sum (seq + 1) (bit_or 0b000001 (get_masks s)) [] % 65536;
}

pub make_fin_segment-eq-fin_segment :
    (s : Service) (seq : ℕ) → make_fin_segment s seq ≡ ok (fin_segment s seq)
unfolding make_fin_segment
make_fin_segment-eq-fin_segment s seq = new_lem (seq + 1) (bit_or 0b000001 (get_masks s)) []

-- The kind of a segment, as the four tests of `Segment` show it.
abbrev pub kind : Segment → Bool × Bool × Bool × Bool
kind seg = (is_syn seg, is_ack seg, is_err seg, is_fin seg)

pub data_kind :
    (c : ClientType) (p : ProtocolType) (seq : ℕ) (payload : List ℕ)
    → kind (data_segment (service c p) seq payload) ≡ (false, false, false, false)
unfolding is_syn is_ack is_err is_fin service get_masks
data_kind upload stop_and_wait seq payload = refl
data_kind upload selective_repeat seq payload = refl
data_kind download stop_and_wait seq payload = refl
data_kind download selective_repeat seq payload = refl

pub ack_kind :
    (c : ClientType) (p : ProtocolType) (seq : ℕ)
    → kind (ack_segment (service c p) seq) ≡ (false, true, false, false)
unfolding is_syn is_ack is_err is_fin service get_masks
ack_kind upload stop_and_wait seq = refl
ack_kind upload selective_repeat seq = refl
ack_kind download stop_and_wait seq = refl
ack_kind download selective_repeat seq = refl

pub data_flags : (c : ClientType) (p : ProtocolType) → bit_or 0 (get_masks (service c p)) < 64
unfolding service get_masks
data_flags upload stop_and_wait = omega arith
data_flags upload selective_repeat = omega arith
data_flags download stop_and_wait = omega arith
data_flags download selective_repeat = omega arith

pub ack_flags : (c : ClientType) (p : ProtocolType) → bit_or 0b010000 (get_masks (service c p)) < 64
unfolding service get_masks
ack_flags upload stop_and_wait = omega arith
ack_flags upload selective_repeat = omega arith
ack_flags download stop_and_wait = omega arith
ack_flags download selective_repeat = omega arith
