-- ===== src/Receiver/Datagrams.antt =====
-- receiver.py: what becomes of a datagram.
use redes_hamelin.Base.{
  ℕ, ◌<◌, ◌≡◌, refl, List, [], ◌∷◌, some, take, take-of_le, length, arith, ok, err, PyError,
  struct_error, Result-cases, ◌⊎◌, inl, inr,
}
use redes_hamelin.Segment.{Segment, from_bytes, unpack_header, calculate_checksum, size_max_seg}
use redes_hamelin.Segment.Checksum.{from_bytes-checksum}
use redes_hamelin.Event.{Address, segment}
use redes_hamelin.Context.{Context, put}
use redes_hamelin.Receiver.{recv_from, running, ended, listen_one, listen}

pub queued :
    (data' : List ℕ) (addr : Address) (c : Context) {seg : Segment}
    → recv_from data' ≡ ok seg
    → calculate_checksum seg.sequence_number seg.payload_length seg.flags seg.payload
      ≡ ok seg.checksum
    → listen_one data' addr c ≡ running (put (segment seg (some addr)) c)
unfolding listen_one
queued data' addr c {seg} e sum = ground arith

-- Every datagram either is read as a segment and put on the queue, whatever checksum it carries, or
-- cannot be read and ends the thread; none is dropped.
pub listen_one_lem :
    (data' : List ℕ) (addr : Address) (c : Context)
    → ((seg : Segment) × (recv_from data' ≡ ok seg)
        × (listen_one data' addr c ≡ running (put (segment seg (some addr)) c)))
      ⊎ ((e : PyError) × (recv_from data' ≡ err e) × (listen_one data' addr c ≡ ended c))
unfolding recv_from listen_one
listen_one_lem data' addr c = elim (Result-cases (recv_from data')) [
  | inl (seg, e) ↦
      inl (seg, e, queued data' addr c e (from_bytes-checksum (take size_max_seg data') e))
  | inr (x, e) ↦ inr (x, e, rw (e, listen_one) refl)
]

unpack_short : (xs : List ℕ) → length xs < 8 → unpack_header xs ≡ err struct_error
unfolding unpack_header
unpack_short [] h = refl
unpack_short (_ ∷ []) h = refl
unpack_short (_ ∷ _ ∷ []) h = refl
unpack_short (_ ∷ _ ∷ _ ∷ []) h = refl
unpack_short (_ ∷ _ ∷ _ ∷ _ ∷ []) h = refl
unpack_short (_ ∷ _ ∷ _ ∷ _ ∷ _ ∷ []) h = refl
unpack_short (_ ∷ _ ∷ _ ∷ _ ∷ _ ∷ _ ∷ []) h = refl
unpack_short (_ ∷ _ ∷ _ ∷ _ ∷ _ ∷ _ ∷ _ ∷ []) h = refl
unpack_short (_ ∷ _ ∷ _ ∷ _ ∷ _ ∷ _ ∷ _ ∷ _ ∷ xs) h = absurd (omega arith)

recv_short : (data' : List ℕ) → length data' < 8 → recv_from data' ≡ err struct_error
unfolding recv_from from_bytes
recv_short data' h =
    let whole : take 1400 data' ≡ data' = take-of_le 1400 data' (omega arith) in
    let header : take 8 data' ≡ data' = take-of_le 8 data' (omega arith) in
    rw (whole, header, unpack_short data' h) refl

listen-ended : (rest : List (List ℕ × Address)) (c : Context) → listen rest (ended c) ≡ ended c
unfolding listen
listen-ended [] c = refl
listen-ended (d ∷ rest) c = refl

-- A datagram of fewer than eight bytes ends the thread, and nothing that comes after it is put on
-- the queue.
pub short_ends :
    (data' : List ℕ) (addr : Address) (rest : List (List ℕ × Address)) (c : Context)
    → length data' < 8
    → listen ((data', addr) ∷ rest) (running c) ≡ ended c
unfolding listen listen_one
short_ends data' addr rest c h = rw (recv_short data' h, listen_one) (listen-ended rest c)
