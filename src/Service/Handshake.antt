-- ===== src/Service/Handshake.antt =====
-- The SYN of an upload, from the client's maker to the server's reader.
use redes_hamelin.Base.{ℕ, ◌^◌, ◌<◌, ◌≡◌, List, All, ok, >>=-eq-ok, length, ◌+◌, ◌++◌, bit_or}
use redes_hamelin.Text.{Text, encode}
use redes_hamelin.Text.Utf8.{
  decode-encode, four_bytes_of, to_bytes4_lem, int_from_bytes-four_bytes_of,
}
use redes_hamelin.Segment.{Segment, new, syn_mask}
use redes_hamelin.Segment.Codec.{new-eq-ok}
use redes_hamelin.Service.{Service, get_masks}
use redes_hamelin.Service.Client.{make_synpack_for_upload}
use redes_hamelin.Service.Server.{get_file_details_from_syn_segment}

details_of :
    (s : Service) (name : Text) (size : ℕ) (bytes : List ℕ) {seg : Segment}
    → All (λ c. c < 0x110000) name
    → size < 2 ^ 32
    → encode name ≡ ok bytes
    → new 0 (4 + length bytes) (bit_or syn_mask (get_masks s)) (four_bytes_of size ++ bytes)
      ≡ ok seg
    → get_file_details_from_syn_segment seg ≡ ok (name, size)
unfolding get_file_details_from_syn_segment
details_of s name size bytes hn hs e made =
    let (_, _, _, payload, _) =
      new-eq-ok 0 (4 + length bytes) _ (four_bytes_of size ++ bytes) made in
    rw (payload, decode-encode name bytes hn e, int_from_bytes-four_bytes_of size hs)

-- If the client can build the SYN of an upload, the server reads the name and the size from it.
pub upload_details :
    (s : Service) (name : Text) (size : ℕ) {seg : Segment}
    → All (λ c. c < 0x110000) name
    → size < 2 ^ 32
    → make_synpack_for_upload s name size ≡ ok seg
    → get_file_details_from_syn_segment seg ≡ ok (name, size)
unfolding make_synpack_for_upload
upload_details s name size {seg} hn hs e =
    let (bytes, e0, e') = >>=-eq-ok (encode name) _ e in
    details_of s name size bytes hn hs e0 (rw (to_bytes4_lem size hs) at e')
