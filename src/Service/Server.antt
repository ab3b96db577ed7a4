-- ===== src/Service/Server.antt =====
-- server_segment_service.py: the segments that only the server makes and reads.
use redes_hamelin.Base.{ℕ, take, drop, [], Result, ok, ◌>>=◌, bit_or}
use redes_hamelin.Text.{Text, decode, to_bytes4, int_from_bytes}
use redes_hamelin.Segment.{Segment, new, syn_mask, ack_mask}
use redes_hamelin.Service.{Service, get_masks}

unfoldable pub make_syn_ack_payload_segment_for_upload : Service → ℕ → Result Segment
make_syn_ack_payload_segment_for_upload s size = do
  size_bytes ← to_bytes4 size
  new 0 4 (bit_or (bit_or syn_mask ack_mask) (get_masks s)) size_bytes

unfoldable pub get_file_details_from_syn_segment : Segment → Result (Text × ℕ)
get_file_details_from_syn_segment seg = do
  name ← decode (drop 4 seg.payload)
  ok (name, int_from_bytes (take 4 seg.payload))

unfoldable pub make_ack_segment_for_download : Service → Result Segment
make_ack_segment_for_download s = new 0 0 (bit_or ack_mask (get_masks s)) []
