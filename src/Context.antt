-- ===== src/Context.antt =====
-- TP 1 RDTP/src/lib/state/state_context.py, protocol/protocol.py, protocol/sender.py,
-- protocol/socket.py and the parent class of state/protocol_state.py: what a state of the protocol
-- reads and changes outside itself. `sent` is every datagram handed to the socket, newest first;
-- `queue` holds the events that a state puts itself, oldest first.
pub mod Sending
use redes_hamelin.Base.{
  ℕ, ◌+◌, Bool, ◌||◌, Option, none, List, [], ◌∷◌, ◌++◌, Result, ok, err, ◌>>=◌, true, false,
}
use redes_hamelin.Segment.{Segment, to_bytes, from_bytes, is_fin, is_err}
use redes_hamelin.Service.{Service, make_ack_segment, make_fin_segment, ProtocolType}
use redes_hamelin.Event.{Address, FileDetails, Event, segment, get_name}
use redes_hamelin.Timer.{Timer, rto}
use redes_hamelin.Timer

-- The object that `Protocol.state` holds; the state of a FlowState is modelled in Flow.
pub data Phase : Type 0 where
  sync : Phase
  flow : FileDetails → ℕ → ℕ → Phase
  fin : Phase
  halt : Phase

pub record Context : Type 0 where
  pub peer_address : Address
  pub disconnector_address : Address
  pub protocol_type : ProtocolType
  pub service : Service
  pub timer : Timer
  pub now : ℕ
  pub sent : List (List ℕ × Address)
  pub queue : List Event
  pub phase : Phase

-- `Protocol.isHalt`, through `ProtocolState.isHalt` and `HaltState.isHalt`.
unfoldable pub is_halt : Phase → Bool
is_halt halt = true
is_halt _ = false

-- `Socket.sendTo` under the `try` of `Sender.sendTo`: a segment that cannot be written is dropped.
unfoldable pub send_to : Segment → Address → Context → Context
send_to seg addr c = elim (to_bytes seg) [
  | ok bytes ↦ record c { sent = (bytes, addr) ∷ c.sent }
  | err e ↦ c
]

unfoldable pub put : Event → Context → Context
put e c = record c { queue = c.queue ++ e ∷ [] }

unfoldable pub change_state : Phase → Context → Context
change_state p c = record c { phase = p }

unfoldable pub set_peer_address : Address → Context → Context
set_peer_address a c = record c { peer_address = a }

-- `scheduleTimeout` and `cancelTimeout`
unfoldable pub schedule_timeout : Event → Context → Context
schedule_timeout e c = record c { timer = Timer.schedule c.now rto e c.timer }

unfoldable pub cancel_timeout : Event → Context → Context
cancel_timeout e c = record c { timer = Timer.cancel (get_name e) c.timer }

-- `isTermination`
abbrev pub is_termination : Segment → Bool
is_termination seg = is_fin seg || is_err seg

-- `sendFin`: the FIN goes onto the state's own queue, with no address.
unfoldable pub send_fin : ℕ → Context → Result Context
unfolding put change_state
send_fin seq c = do
  seg ← make_fin_segment c.service seq
  ok (change_state fin (put (segment seg none) c))

-- `sendAck`
unfoldable pub send_ack : ℕ → Context → Result Context
unfolding send_to
send_ack seq c = do ack ← make_ack_segment c.service seq; ok (send_to ack c.peer_address c)
