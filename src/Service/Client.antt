-- ===== src/Service/Client.antt =====
-- client_segment_service.py: the segments that only the client makes and reads.
use redes_hamelin.Base.{ℕ, ◌+◌, [], ◌++◌, length, Result, ◌>>=◌, bit_or}
use redes_hamelin.Text.{Text, encode, to_bytes4, int_from_bytes}
use redes_hamelin.Segment.{Segment, new, syn_mask, ack_mask}
use redes_hamelin.Service.{Service, get_masks}

unfoldable pub make_synpack_for_upload : Service → Text → ℕ → Result Segment
make_synpack_for_upload s name size = do
  name_bytes ← encode name
  size_bytes ← to_bytes4 size
  new 0 (4 + length name_bytes) (bit_or syn_mask (get_masks s)) (size_bytes ++ name_bytes)

unfoldable pub make_synpack_for_download : Service → Text → Result Segment
make_synpack_for_download s name = do
  name_bytes ← encode name
  size_bytes ← to_bytes4 0
  new 0 (4 + length name_bytes) (bit_or syn_mask (get_masks s)) (size_bytes ++ name_bytes)

unfoldable pub make_syn_ack_for_payload_size : Service → Result Segment
make_syn_ack_for_payload_size s = new 0 0 (bit_or (bit_or syn_mask ack_mask) (get_masks s)) []

unfoldable pub get_file_size_from_syn_segment_for_download : Segment → ℕ
get_file_size_from_syn_segment_for_download seg = int_from_bytes seg.payload
