-- ===== src/Service.antt =====
-- TP 1 RDTP/src/lib/segment/segment_service.py, client_segment_service.py and
-- server_segment_service.py: the makers of segments, and protocol/enums.py.
-- The two subclasses add no state, so the three classes share one record.
pub mod Client
pub mod Server
pub mod Makes
pub mod Kinds
pub mod Handshake
use redes_hamelin.Base.{
  ℕ, ◌+◌, ◌≡◌, Bool, List, [], ◌∷◌, ◌++◌, length, drop, take, ◌==◌, if◌then◌else◌, Result, ok,
  ◌>>=◌, bit_and, bit_or, Option, none, some,
}
use redes_hamelin.Text.{Text, encode, decode, to_bytes4, int_from_bytes}
use redes_hamelin.Segment.{
  Segment, new, get_ctyp, get_ptyp, syn_mask, ack_mask, err_mask, ctyp_mask, ptyp_mask, fin_mask,
}

pub data ClientType : Type 0 where
  upload download : ClientType

pub data ProtocolType : Type 0 where
  stop_and_wait selective_repeat : ProtocolType

pub record Service : Type 0 where
  pub ctyp : ℕ
  pub ptyp : ℕ

-- `SegmentService(clientType, protocolType)`, by `setCtypMask` and `setPtypMask`.
set_ctyp_mask : ClientType → ℕ
set_ctyp_mask download = ctyp_mask
set_ctyp_mask upload = 0

set_ptyp_mask : ProtocolType → ℕ
set_ptyp_mask selective_repeat = ptyp_mask
set_ptyp_mask stop_and_wait = 0

unfoldable pub service : ClientType → ProtocolType → Service
unfolding set_ctyp_mask set_ptyp_mask
service c p = record { ctyp = set_ctyp_mask c; ptyp = set_ptyp_mask p }

unfoldable pub get_masks : Service → ℕ
get_masks s = bit_or s.ctyp s.ptyp

-- `getTypes`
unfoldable pub get_types : Segment → ClientType × ProtocolType
get_types seg = (
  if get_ctyp seg == 0 then upload else download,
  if get_ptyp seg == 0 then stop_and_wait else selective_repeat,
)

unfoldable pub get_error_message : Segment → Result Text
get_error_message seg = decode seg.payload

unfoldable pub get_file_name_from_payload : Segment → Result Text
get_file_name_from_payload seg = decode (drop 4 seg.payload)

unfoldable pub get_file_size_from_payload : Segment → ℕ
get_file_size_from_payload seg = int_from_bytes (take 4 seg.payload)

-- `(n & 0xFF).to_bytes(1, "big")`
name_size : Text → ℕ
name_size name = bit_and (length name) 0xFF

pub make_upload_synpack : Service → Text → ℕ → Result Segment
unfolding name_size
make_upload_synpack s name size = do
  size_bytes ← to_bytes4 size
  name_bytes ← encode name
  new 0 (5 + length name) (bit_or syn_mask (get_masks s))
      (name_size name ∷ (name_bytes ++ size_bytes))

pub make_download_synpack : Service → Text → Result Segment
unfolding name_size
make_download_synpack s name = do
  name_bytes ← encode name
  new 0 (1 + length name) (bit_or syn_mask (get_masks s)) (name_size name ∷ name_bytes)

pub make_syn_segment : Service → ℕ → Text → ℕ → Result Segment
make_syn_segment s seq name size = do
  size_bytes ← to_bytes4 size
  name_bytes ← encode name
  new seq (4 + length name) (bit_or syn_mask (get_masks s)) (size_bytes ++ name_bytes)

unfoldable pub make_ack_segment : Service → ℕ → Result Segment
make_ack_segment s seq = new seq 0 (bit_or ack_mask (get_masks s)) []

pub make_syn_ack_payload_segment : Service → ℕ → Text → ℕ → Result Segment
make_syn_ack_payload_segment s seq name size = do
  size_bytes ← to_bytes4 size
  name_bytes ← encode name
  new seq (4 + length name) (bit_or (bit_or syn_mask ack_mask) (get_masks s))
      (size_bytes ++ name_bytes)

unfoldable pub make_ack_fin_segment : Service → Segment → Result Segment
make_ack_fin_segment s seg =
    new seg.sequence_number 0 (bit_or (bit_or ack_mask fin_mask) (get_masks s)) []

-- `makeSynAckSegment`, with its `fileSize = None`.
unfoldable pub make_syn_ack_segment : Service → Segment → Option ℕ → Result Segment
make_syn_ack_segment s seg none =
    new (seg.sequence_number + 1) 0 (bit_or (bit_or syn_mask ack_mask) (get_masks s)) []
make_syn_ack_segment s seg (some size) = do
  size_bytes ← to_bytes4 size
  new (seg.sequence_number + 1) 4 (bit_or (bit_or syn_mask ack_mask) (get_masks s)) size_bytes

-- The length field is 0, whatever the description is.
unfoldable pub make_error_segment : Service → Segment → Text → Result Segment
make_error_segment s seg description = do
  payload ← encode description
  new seg.sequence_number 0 (bit_or err_mask (get_masks s)) payload

unfoldable pub make_fin_segment : Service → ℕ → Result Segment
make_fin_segment s seq = new (seq + 1) 0 (bit_or fin_mask (get_masks s)) []

unfoldable pub make_segment : Service → ℕ → ℕ → List ℕ → Result Segment
make_segment s seq flags payload = new seq (length payload) (bit_or flags (get_masks s)) payload
