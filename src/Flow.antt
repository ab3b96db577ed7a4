-- ===== src/Flow.antt =====
-- TP 1 RDTP/src/lib/state/flow_state.py and flow_state_factoy.py: the state in which a file is sent
-- or received, by stop and wait (window 1) or selective repeat (window 20).
-- `baseNumber` and `nextSequenceNumber` start at `initialSequenceNumber` and only grow, so the
-- differences that the code takes of them are never negative. A PacketInFlight holds a segment
-- and that segment's number, which is its key too: the dict holds the segment.
-- `peerAddress` and `segmentService` are read from the context once; neither changes there while a
-- FlowState is the state, so the context's are used. `chunkCounter` is never read.
pub mod Sender
pub mod Receiver
pub mod Loops
use redes_hamelin.Base.{ℕ, Bool, false, Option, none, [], nat_Eq}
use redes_hamelin.Base.Dict.{Dict}
use redes_hamelin.Segment.{Segment}
use redes_hamelin.Service.{ProtocolType, stop_and_wait, selective_repeat}
use redes_hamelin.Event.{FileDetails}
use redes_hamelin.Context.{Context}

pub record Flow : Type 0 where
  pub ctx : Context
  pub file_details : FileDetails
  pub initial_sequence_number : ℕ
  pub base_number : ℕ
  pub next_sequence_number : ℕ
  pub packets_in_flight : Dict ℕ Segment
  pub recv_base_number : ℕ
  pub receive_buffer : Dict ℕ Segment
  pub downloaded_bytes : ℕ
  pub fin_received : Bool
  pub fin_sequence_number : Option ℕ
  pub finished : Bool
  pub window_size : ℕ
  pub receive_window_size : ℕ
  pub aborted : Bool

-- `FlowState(ctx, fileDetails, baseNumber, windowSize, receiveWindowSize)`
unfoldable pub flow_state : Context → FileDetails → ℕ → ℕ → ℕ → Flow
flow_state ctx details base window receive_window = record {
  ctx = ctx;
  file_details = details;
  initial_sequence_number = base;
  base_number = base;
  next_sequence_number = base;
  packets_in_flight = [];
  recv_base_number = base;
  receive_buffer = [];
  downloaded_bytes = 0;
  fin_received = false;
  fin_sequence_number = none;
  finished = false;
  window_size = window;
  receive_window_size = receive_window;
  aborted = false;
}

-- The window of each kind of protocol.
abbrev pub window_of : ProtocolType → ℕ
window_of stop_and_wait = 1
window_of selective_repeat = 20

-- `FlowStateFactory.create`
unfoldable pub create : Context → FileDetails → ℕ → Flow
unfolding flow_state
create ctx details base =
    flow_state ctx details base (window_of ctx.protocol_type) (window_of ctx.protocol_type)
