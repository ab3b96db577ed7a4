-- ===== src/Transfer/Wire.antt =====
-- Data segments and acknowledgements over the wire: what arrives is what was sent.
use redes_hamelin.Base.{ℕ, ◌<◌, ◌≡◌, refl, subst, List, [], length, ok, bit_or, arith}
use redes_hamelin.Segment.{Segment, new, to_bytes, from_bytes, ack_mask}
use redes_hamelin.Segment.Checksum.{new_lem}
use redes_hamelin.Segment.Codec.{from_bytes-to_bytes, to_bytes_fits}
use redes_hamelin.Service.{ClientType, ProtocolType, service, get_masks}
use redes_hamelin.Service.Makes.{data_segment, ack_segment, data_kind, data_flags, ack_flags}
use redes_hamelin.Event.{Address}
use redes_hamelin.Flow.Sender.Window.{OnWire}
use redes_hamelin.Flow.Receiver.Buffer.{IsAckOf}
use redes_hamelin.Flow.Receiver.Arrivals.{IsData}

-- A segment that a maker built is read back whole from any datagram that it could be written to.
read_back :
    (seq flags : ℕ) (payload bytes : List ℕ) {s : Segment}
    → flags < 64
    → new seq (length payload) flags payload ≡ ok s
    → s.sequence_number ≡ seq
    → s.payload_length ≡ length payload
    → to_bytes s ≡ ok bytes
    → from_bytes bytes ≡ ok s
read_back seq flags payload bytes {s} small made e0 e1 written =
    let fits = to_bytes_fits s written in
    let (bytes', written', back) =
      from_bytes-to_bytes seq (length payload) flags payload (omega (arith, fits.0))
        (omega (arith, fits.1)) small made in
    let same : bytes' ≡ bytes = cc in subst (λ b. from_bytes b ≡ ok s) same back

module _ (chunks : List (List ℕ)) (c : ClientType) (p : ProtocolType) (start : ℕ) where
  -- A datagram of the sender carries a chunk under its own number, and no other flag than the types.
  pub from_bytes-IsData :
      (d : List ℕ × Address) {seg : Segment}
      → OnWire chunks (service c p) start d
      → from_bytes d.0 ≡ ok seg
      → IsData chunks (service c p) start seg
  from_bytes-IsData d {seg} (n, s, (payload, from, chunk, made), written) read =
      let sent_so = subst (λ (x : Segment). to_bytes x ≡ ok d.0) made written in
      let back =
        read_back n (bit_or 0 (get_masks (service c p))) payload d.0 (data_flags c p)
          (new_lem n (bit_or 0 (get_masks (service c p))) payload) refl refl sent_so in
      let same : data_segment (service c p) n payload ≡ seg = cc in
      subst (IsData chunks (service c p) start) same (data_kind c p n payload, from, chunk)

  -- A datagram of the receiver, once read, has the number that it acknowledges.
  pub ack_arrives :
      (Got : ℕ → Type 0) (d : List ℕ × Address) {seg : Segment}
      → IsAckOf chunks (service c p) start Got d
      → from_bytes d.0 ≡ ok seg
      → Got seg.sequence_number
  ack_arrives Got d {seg} (n, got, written) read =
      let back =
        read_back n (bit_or ack_mask (get_masks (service c p))) [] d.0 (ack_flags c p)
          (new_lem n (bit_or ack_mask (get_masks (service c p))) []) refl refl written in
      let same : ack_segment (service c p) n ≡ seg = cc in
      subst (λ (x : Segment). Got x.sequence_number) same got
