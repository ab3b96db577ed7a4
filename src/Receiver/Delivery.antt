-- ===== src/Receiver/Delivery.antt =====
-- sender.py and receiver.py: a segment from one end to the queue of the other.
use redes_hamelin.Base.{ℕ, ◌+◌, ◌≤◌, ◌<◌, ◌≡◌, ap, List, some, take-of_le, length, arith, ok}
use redes_hamelin.Segment.{Segment, new, to_bytes, pack_short}
use redes_hamelin.Segment.Codec.{from_bytes-to_bytes, new-eq-ok}
use redes_hamelin.Event.{Address, segment}
use redes_hamelin.Context.{Context, put}
use redes_hamelin.Receiver.{recv_from, running, listen_one}
use redes_hamelin.Receiver.Datagrams.{queued}
use redes_hamelin.Segment.Checksum.{from_bytes-checksum}

pub length-to_bytes :
    (s : Segment) {bytes : List ℕ} → to_bytes s ≡ ok bytes → length bytes ≡ 8 + length s.payload
unfolding to_bytes pack_short
length-to_bytes s h = ground arith

-- A constructed segment that fits the header and a datagram can be written, and the Receiver of the
-- other end reads it back and puts it, as it was, on its queue.
pub delivered :
    (seq len flags : ℕ) (payload : List ℕ) {s : Segment}
    → seq < 65536
    → len < 2048
    → length payload ≤ 1392
    → flags < 64
    → new seq len flags payload ≡ ok s
    → (bytes : List ℕ) × (to_bytes s ≡ ok bytes)
      × (recv_from bytes ≡ ok s)
      × ((addr : Address) (c : Context)
          → listen_one bytes addr c ≡ running (put (segment s (some addr)) c))
unfolding recv_from
delivered seq len flags payload {s} hs hl hp hf h =
    let (bytes, written, read) = from_bytes-to_bytes seq len flags payload hs hl hf h in
    let (_, _, _, e, _) = new-eq-ok seq len flags payload h in
    let short : length bytes ≤ 1400 = omega (arith, length-to_bytes s written, ap length e) in
    let got : recv_from bytes ≡ ok s = rw (take-of_le 1400 bytes short) read in
    (bytes, written, got, λ addr c. queued bytes addr c got (from_bytes-checksum bytes read))
