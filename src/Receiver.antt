-- ===== src/Receiver.antt =====
-- protocol/receiver.py and `recvFrom` of protocol/socket.py: the thread that puts what arrives on
-- the queue. A timeout of the socket changes nothing and is left out; an error of it ends the
-- thread, as `stop` does.
pub mod Datagrams
pub mod Delivery
use redes_hamelin.Base.{ℕ, List, [], ◌∷◌, some, take, ◌==◌, if◌then◌else◌, Result, ok, err}
use redes_hamelin.Segment.{Segment, size_max_seg, from_bytes, calculate_checksum}
use redes_hamelin.Event.{Address, segment}
use redes_hamelin.Context.{Context, put}

-- `recvFrom(Segment.SIZE_MAX_SEG)`: what is longer is cut.
pub recv_from : List ℕ → Result Segment
recv_from data' = from_bytes (take size_max_seg data')

-- Where the loop is: at the socket, or left by an exception.
pub data Listening : Type 0 where
  running : Context → Listening
  ended : Context → Listening

-- A round of the loop. `calculateChecksum` of the segment that was read may raise too.
pub listen_one : List ℕ → Address → Context → Listening
unfolding recv_from
listen_one data' addr c = elim (recv_from data') [
  | err e ↦ ended c
  | ok seg ↦
      elim (calculate_checksum seg.sequence_number seg.payload_length seg.flags seg.payload) [
        | err e ↦ ended c
        | ok sum ↦
            if sum == seg.checksum then running (put (segment seg (some addr)) c) else running c
      ]
]

pub listen : List (List ℕ × Address) → Listening → Listening
unfolding listen_one
listen ((data', addr) ∷ rest) (running c) = listen rest (listen_one data' addr c)
listen _ l = l
