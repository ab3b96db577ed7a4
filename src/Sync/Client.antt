-- ===== src/Sync/Client.antt =====
-- sync_state_client.py. The queue of a client in this state holds only what the Receiver and the
-- timer put there, so that an event with a segment has an address.
use redes_hamelin.Base.{
  ℕ, ◌+◌, Bool, true, false, ◌&&◌, not, ltb, List, ◌∷◌, some, ◌==◌, if◌then◌else◌, Result, ok, err,
  ◌>>=◌, PyError,
}
use redes_hamelin.Text.{Text}
use redes_hamelin.Segment.{Segment, is_ack, is_syn, is_fin, is_err}
use redes_hamelin.Service.{get_error_message, get_file_name_from_payload}
use redes_hamelin.Service.Client.{
  make_synpack_for_upload, make_synpack_for_download, make_syn_ack_for_payload_size,
  get_file_size_from_syn_segment_for_download,
}
use redes_hamelin.Event.{Address, segment, segment_timeout}
use redes_hamelin.Context.{
  Context, halt, send_to, put, change_state, set_peer_address, schedule_timeout, cancel_timeout,
  is_termination, send_fin,
}
use redes_hamelin.Files.Manager.{FileManager, open_for_reading, release_for_reader}
use redes_hamelin.Sync.{to_flow_state, log_error}

-- What `ctx.get()` gives.
pub data Arrival : Type 0 where
  arrived : Segment → Address → Arrival
  timed_out : ℕ → Arrival
  aborted : Arrival

pub record SyncClient : Type 0 where
  pub ctx : Context
  pub file_name : Text
  pub acceptor_address : Address
  pub expecting_data : Bool

-- `SyncStateClient(ctx, fileName)`
unfoldable pub sync_client : Context → Text → SyncClient
sync_client c name = record {
  ctx = c;
  file_name = name;
  acceptor_address = c.peer_address;
  expecting_data = false;
}

abbrev with_ctx : Context → SyncClient → SyncClient
with_ctx c s = record s { ctx = c }

-- `sendFile` is at `get` with its SYN and the file's size, or has returned or raised.
pub data Uploading : Type 0 where
  asking : Segment → ℕ → SyncClient → Uploading
  asked : SyncClient → Uploading
  failed : PyError → SyncClient → Uploading

-- `sendTo` and `scheduleTimeout` before each `get`.
unfoldable pub send_syn : Segment → SyncClient → SyncClient
send_syn syn s =
    with_ctx (schedule_timeout (segment_timeout 0) (send_to syn s.acceptor_address s.ctx)) s

unfoldable pub change_to_flow_state : ℕ → ℕ → SyncClient → SyncClient
change_to_flow_state size base s = with_ctx (to_flow_state (s.file_name, size) base s.ctx) s

-- The tests of `handleSegmentForSendFile`, once the peer's address is set.
unfoldable pub answer_to_syn : Segment → ℕ → SyncClient → Uploading
unfolding change_to_flow_state
answer_to_syn seg size s =
    if is_ack seg && seg.sequence_number == 0
    then asked (change_to_flow_state size 1 s)
    else if is_fin seg
    then elim (send_fin 1 s.ctx) [ ok c ↦ asked (with_ctx c s) | err e ↦ failed e s ]
    else if is_err seg
    then elim (get_error_message seg) [
      | ok text ↦ asked (with_ctx (change_state halt s.ctx) s)
      | err e ↦ failed e s
    ]
    else asked s

unfoldable pub handle_segment_for_send_file : Segment → Address → ℕ → SyncClient → Uploading
unfolding answer_to_syn
handle_segment_for_send_file seg addr size s =
    answer_to_syn seg size (with_ctx (set_peer_address addr s.ctx) s)

-- From `get` to the next `get` of `sendFile`: an AbortEvent is passed over.
unfoldable pub uploading_step : Arrival → Segment → ℕ → SyncClient → Uploading
unfolding send_syn handle_segment_for_send_file
uploading_step (arrived seg addr) syn size s = handle_segment_for_send_file seg addr size s
uploading_step (timed_out n) syn size s = asking syn size (send_syn syn s)
uploading_step aborted syn size s = asking syn size (send_syn syn s)

unfoldable pub uploading : List Arrival → Uploading → Uploading
unfolding uploading_step
uploading (a ∷ as') (asking syn size s) = uploading as' (uploading_step a syn size s)
uploading _ u = u

-- The SYN is decoded for the log before it is sent.
unfoldable pub make_syn : ℕ → SyncClient → Result Segment
make_syn size s = do
  syn ← make_synpack_for_upload s.ctx.service s.file_name size
  name ← get_file_name_from_payload syn
  ok syn

unfoldable pub ask_for_upload : ℕ → SyncClient → Uploading
unfolding make_syn send_syn
ask_for_upload size s = elim (make_syn size s) [
  | ok syn ↦ asking syn size (send_syn syn s)
  | err e ↦ failed e s
]

-- `sendFile` up to its first `get`, with the file manager that it leaves.
unfoldable pub send_file : (Text → Text) → FileManager → SyncClient → Uploading × FileManager
unfolding ask_for_upload
send_file path_of m s =
    let (opened, m') = open_for_reading path_of s.file_name m in
    elim opened [
      | err e ↦ (failed e s, m')
      | ok r ↦ (ask_for_upload r.file_size s, release_for_reader s.file_name m')
    ]

-- `downloadFile` is at `get` with the size that it knows, 0 before it knows one: it is read only
-- where data are expected, which is after the size has come.
pub data Downloading : Type 0 where
  requesting : Segment → ℕ → SyncClient → Downloading
  requested : SyncClient → Downloading
  broken : PyError → SyncClient → Downloading

-- The head of the loop.
unfoldable pub request : Segment → ℕ → SyncClient → Downloading
unfolding send_syn
request syn size s = requesting syn size (if s.expecting_data then s else send_syn syn s)

-- The answer to the SYN brings the size and is acknowledged.
unfoldable pub take_size : Address → SyncClient → SyncClient
take_size addr s = record s { expecting_data = true; ctx = set_peer_address addr s.ctx }

unfoldable pub acknowledge_size : SyncClient → Result SyncClient
acknowledge_size s = do
  ack ← make_syn_ack_for_payload_size s.ctx.service
  ok (with_ctx (send_to ack s.ctx.peer_address s.ctx) s)

-- The first data go back on the queue, for the FlowState.
unfoldable pub take_data : Segment → Segment → ℕ → SyncClient → Downloading
unfolding change_to_flow_state request
take_data seg syn size s =
    if s.expecting_data && (not (is_syn seg) && ltb 0 seg.payload_length)
    then requested (
        change_to_flow_state size 1
          (with_ctx (put (segment seg (some s.ctx.peer_address)) s.ctx) s))
    else request syn size s

unfoldable pub handle_segment_for_download :
    Segment → Address → Segment → ℕ → SyncClient → Downloading
unfolding take_size acknowledge_size take_data
handle_segment_for_download seg addr syn size s =
    if is_ack seg && (is_syn seg && seg.sequence_number == 0)
    then elim (acknowledge_size (take_size addr s)) [
      | ok s' ↦ take_data seg syn (get_file_size_from_syn_segment_for_download seg) s'
      | err e ↦ broken e (take_size addr s)
    ]
    else take_data seg syn size s

unfoldable pub receive_segment : Segment → Address → Segment → ℕ → SyncClient → Downloading
unfolding handle_segment_for_download
receive_segment seg addr syn size s =
    if is_termination seg
    then elim (send_fin (seg.sequence_number + 1) s.ctx) [
      | ok c ↦ requested (with_ctx c s)
      | err e ↦ broken e s
    ]
    else handle_segment_for_download seg addr syn size
        (with_ctx (cancel_timeout (segment_timeout 0) s.ctx) s)

unfoldable pub downloading_step : Arrival → Segment → ℕ → SyncClient → Downloading
unfolding receive_segment request
downloading_step (arrived seg addr) syn size s = elim (log_error seg) [
  | ok t ↦ receive_segment seg addr syn size s
  | err e ↦ broken e s
]
downloading_step (timed_out n) syn size s = request syn size s
downloading_step aborted syn size s = request syn size s

unfoldable pub downloading : List Arrival → Downloading → Downloading
unfolding downloading_step
downloading (a ∷ as') (requesting syn size s) = downloading as' (downloading_step a syn size s)
downloading _ d = d

-- `downloadFile` up to its first `get`.
unfoldable pub download_file : SyncClient → Downloading
unfolding request
download_file s = elim (make_synpack_for_download s.ctx.service s.file_name) [
  | ok syn ↦ request syn 0 s
  | err e ↦ broken e s
]
