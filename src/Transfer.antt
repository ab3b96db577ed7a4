-- ===== src/Transfer.antt =====
-- A whole transfer: the `sendFile` loop and the `downloadFile` loop of two FlowStates over a network
-- that may lose, repeat, delay and reorder datagrams. Every datagram of at most 1400 bytes that was
-- ever handed to a socket may be delivered at any time, any number of times or never; the Receiver
-- thread puts what `Segment.fromBytes` reads from it on the queue. `recvFrom` would cut a longer one:
-- the file reader's chunks make none, and none is delivered here. A timeout that the timer holds may
-- fire at any time, and one that was cancelled may still come late. Either side may get an AbortEvent.
-- The datagrams of the handshake are not part of it.
pub mod Wire
pub mod Parts
pub mod Safety
pub mod Outcome
pub mod Files
pub mod Open
pub mod Replying
pub mod Armed
pub mod Liveness
use redes_hamelin.Base.{ℕ, ◌≡◌, Option, List, [], Has, ok}
use redes_hamelin.Segment.{Segment, from_bytes}
use redes_hamelin.Event.{Address, Event, segment, segment_timeout, abort}
use redes_hamelin.Context.{Context}
use redes_hamelin.Files.Writer.{FileWriter}
use redes_hamelin.Flow.{Flow}
use redes_hamelin.Flow.Sender.{Progress, waiting, left, raised, resume}
use redes_hamelin.Base.{none, length, ◌≤◌, nat_Eq}
use redes_hamelin.Base.Dict.{lookup}
use redes_hamelin.Segment.{size_max_seg}
use redes_hamelin.Flow.Sender.Timeouts.{IsArmed, fired}
use redes_hamelin.Flow.Receiver.{Download, receiving, stopped, broken, receive}

pub record Net : Type 0 where
  pub sender : Progress
  pub receiver : Download

abbrev pub sender_flow : Progress → Flow
sender_flow (waiting f) = f
sender_flow (left error f) = f
sender_flow (raised e f) = f

abbrev pub receiver_flow : Download → Flow
receiver_flow (receiving f w) = f
receiver_flow (stopped f w) = f
receiver_flow (broken e f w) = f

abbrev pub receiver_file : Download → FileWriter
receiver_file (receiving f w) = w
receiver_file (stopped f w) = w
receiver_file (broken e f w) = w

-- The events that a side may get in state `f`, given the datagrams that the other side has sent. A
-- timeout counts as held by the timer until it is taken from the queue: one whose packet has been
-- acknowledged between comes late.
pub data Delivery (f : Flow) (sent : List (List ℕ × Address)) : Event → Type 0 where
  datagram :
      {d : List ℕ × Address} {seg : Segment} (addr : Option Address)
      → Has d sent
      → length d.0 ≤ size_max_seg
      → from_bytes d.0 ≡ ok seg
      → Delivery f sent (segment seg addr)
  timer : (n : ℕ) → IsArmed n f.ctx → Delivery f sent (segment_timeout n)
  late : (n : ℕ) → lookup n f.packets_in_flight ≡ none → Delivery f sent (segment_timeout n)
  stop : Delivery f sent abort

-- A timeout that comes has been taken out of the sender's timer. `downloadFile` takes no notice of
-- timeouts, so the receiver's timer is left as it is.
pub data Step (chunks : List (List ℕ)) (s t : Net) : Type 0 where
  sender_steps :
      (f : Flow) (e : Event)
      → s.sender ≡ waiting f
      → Delivery f (receiver_flow s.receiver).ctx.sent e
      → t ≡ record s { sender = resume chunks e (fired e f) }
      → Step chunks s t
  receiver_steps :
      (f : Flow) (w : FileWriter) (e : Event)
      → s.receiver ≡ receiving f w
      → Delivery f (sender_flow s.sender).ctx.sent e
      → t ≡ record s { receiver = receive e f w }
      → Step chunks s t

pub data Reach (chunks : List (List ℕ)) (s : Net) : Net → Type 0 where
  here : Reach chunks s s
  next : {t u : Net} → Reach chunks s t → Step chunks t u → Reach chunks s u
