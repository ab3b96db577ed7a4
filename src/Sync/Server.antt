-- ===== src/Sync/Server.antt =====
-- sync_state_server.py.
pub mod Confirming
use redes_hamelin.Base.{
  ℕ, ◌+◌, ◌&&◌, ltb, Option, none, some, List, ◌∷◌, ◌==◌, if◌then◌else◌, Result, ok, err, ◌>>=◌,
  PyError, length,
}
use redes_hamelin.Text.{Text, decode}
use redes_hamelin.Segment.{Segment, is_ack, is_syn}
use redes_hamelin.Service.Server.{
  make_syn_ack_payload_segment_for_upload, get_file_details_from_syn_segment,
  make_ack_segment_for_download,
}
use redes_hamelin.Event.{Address, address_eq, FileDetails, Event, segment, segment_timeout, abort}
use redes_hamelin.Context.{
  Context, send_to, put, schedule_timeout, cancel_timeout, is_termination, send_fin,
}
use redes_hamelin.Files.Manager.{FileManager, open_for_reading, release_for_reader}
use redes_hamelin.Sync.{to_flow_state, log_error}

pub record SyncServer : Type 0 where
  pub ctx : Context
  pub peer_address : Address
  pub file_details : FileDetails

-- `SyncStateServer(ctx, fileDetails)`
unfoldable pub sync_server : Context → FileDetails → SyncServer
sync_server c details = record { ctx = c; peer_address = c.peer_address; file_details = details }

abbrev with_ctx : Context → SyncServer → SyncServer
with_ctx c s = record s { ctx = c }

-- `sendFile` is at the `get` of `getFileDetailsForSendFile`, at the one of
-- `transmitSynAckPayloadSegment` with its segment, or has returned or raised.
pub data Serving : Type 0 where
  expecting_syn : SyncServer → Serving
  confirming : Segment → SyncServer → Serving
  served : SyncServer → Serving
  failed : PyError → SyncServer → Serving

-- The head of the loop of `transmitSynAckPayloadSegment`.
unfoldable pub transmit : Segment → SyncServer → Serving
transmit reply s = confirming reply (
    with_ctx
      (send_to reply s.peer_address
        (schedule_timeout (segment_timeout reply.sequence_number) s.ctx))
      s)

-- The size of the file goes to the client.
unfoldable pub reply_size : ℕ → SyncServer → Serving
unfolding transmit
reply_size size s = elim (make_syn_ack_payload_segment_for_upload s.ctx.service size) [
  | ok reply ↦ transmit reply s
  | err e ↦ failed e s
]

-- The end of `getFileDetailsForSendFile`: the payload is decoded, and the file asked for its size.
unfoldable pub look_up_size :
    (Text → Text) → Segment → FileManager → SyncServer → Serving × FileManager
unfolding reply_size
look_up_size path_of seg m s = elim (decode seg.payload) [
  | err e ↦ (failed e s, m)
  | ok name ↦
      let (opened, m') = open_for_reading path_of s.file_details.0 m in
      elim opened [
        | err e ↦ (failed e s, m')
        | ok r ↦ (reply_size r.file_size s, release_for_reader s.file_details.0 m')
      ]
]

unfoldable pub end_serving : Result Context → SyncServer → Serving
end_serving (ok c) s = served (with_ctx c s)
end_serving (err e) s = failed e s

-- A segment at the first `get`.
unfoldable pub syn_arrived :
    (Text → Text) → Segment → FileManager → SyncServer → Serving × FileManager
unfolding end_serving look_up_size
syn_arrived path_of seg m s =
    if is_termination seg
    then (end_serving (send_fin (seg.sequence_number + 1) s.ctx) s, m)
    else if is_syn seg
    then look_up_size path_of seg m s
    else (expecting_syn s, m)

-- Back at the head of the loop after a FIN: the loop does not end there.
unfoldable pub go_on_after_fin : Segment → Result Context → SyncServer → Serving
unfolding transmit
go_on_after_fin reply (ok c) s = transmit reply (with_ctx c s)
go_on_after_fin reply (err e) s = failed e s

-- A segment at the second `get`. The SYN-ACK of the client ends the loop, and `sendFile` then
-- changes the state.
unfoldable pub confirmation_arrived : Segment → Segment → SyncServer → Serving
unfolding go_on_after_fin transmit
confirmation_arrived seg reply s =
    if is_termination seg
    then go_on_after_fin reply (send_fin 1 s.ctx) s
    else if is_ack seg && (is_syn seg && seg.sequence_number == 0)
    then served (
        with_ctx
          (to_flow_state s.file_details 1
            (cancel_timeout (segment_timeout reply.sequence_number) s.ctx))
          s)
    else transmit reply s

unfoldable pub send_file_step :
    (Text → Text) → Event → Serving → FileManager → Serving × FileManager
unfolding syn_arrived confirmation_arrived transmit
send_file_step path_of (segment seg addr) (expecting_syn s) m = elim (log_error seg) [
  | ok t ↦ syn_arrived path_of seg m s
  | err e ↦ (failed e s, m)
]
send_file_step path_of (segment_timeout n) (expecting_syn s) m = (expecting_syn s, m)
send_file_step path_of abort (expecting_syn s) m = (expecting_syn s, m)
send_file_step path_of (segment seg addr) (confirming reply s) m = elim (log_error seg) [
  | ok t ↦ (confirmation_arrived seg reply s, m)
  | err e ↦ (failed e s, m)
]
send_file_step path_of (segment_timeout n) (confirming reply s) m = (transmit reply s, m)
send_file_step path_of abort (confirming reply s) m = (transmit reply s, m)
send_file_step path_of e (served s) m = (served s, m)
send_file_step path_of e (failed x s) m = (failed x s, m)

-- `downloadFile` is at `get`, or has returned or raised.
pub data Accepting : Type 0 where
  expecting : SyncServer → Accepting
  started : SyncServer → Accepting
  broken : PyError → SyncServer → Accepting

-- `getSegmentForDownloadFile`: only a segment from the peer counts.
unfoldable pub get_segment_for_download_file : Event → SyncServer → Option Segment
get_segment_for_download_file (segment seg (some addr)) s =
    if address_eq addr s.peer_address then some seg else none
get_segment_for_download_file (segment seg none) s = none
get_segment_for_download_file (segment_timeout n) s = none
get_segment_for_download_file abort s = none

-- The details, where the file has no name yet.
unfoldable pub learn_details : Segment → SyncServer → Result SyncServer
learn_details seg s =
    if length s.file_details.0 == 0
    then (do
      details ← get_file_details_from_syn_segment seg
      ok (record s { file_details = details }))
    else ok s

unfoldable pub acknowledge_syn : SyncServer → Accepting
acknowledge_syn s = elim (make_ack_segment_for_download s.ctx.service) [
  | ok ack ↦ expecting (with_ctx (send_to ack s.peer_address s.ctx) s)
  | err e ↦ broken e s
]

unfoldable pub handle_syn_segment_for_download_file : Segment → SyncServer → Accepting
unfolding learn_details acknowledge_syn
handle_syn_segment_for_download_file seg s = elim (learn_details seg s) [
  | ok s' ↦ acknowledge_syn s'
  | err e ↦ broken e s
]

unfoldable pub handle_payload_for_download_file : Segment → SyncServer → SyncServer
handle_payload_for_download_file seg s =
    with_ctx (put (segment seg (some s.peer_address)) (to_flow_state s.file_details 1 s.ctx)) s

unfoldable pub end_accepting : Result Context → SyncServer → Accepting
end_accepting (ok c) s = started (with_ctx c s)
end_accepting (err e) s = broken e s

-- The tests of the loop; an error segment has ended it before the last one.
unfoldable pub by_flags : Segment → SyncServer → Accepting
unfolding end_accepting handle_syn_segment_for_download_file handle_payload_for_download_file
by_flags seg s =
    if is_termination seg
    then end_accepting (send_fin seg.sequence_number s.ctx) s
    else if is_syn seg
    then handle_syn_segment_for_download_file seg s
    else if ltb 0 seg.payload_length
    then started (handle_payload_for_download_file seg s)
    else expecting s

unfoldable pub download_file_step : Event → SyncServer → Accepting
unfolding get_segment_for_download_file by_flags
download_file_step event s = elim (get_segment_for_download_file event s) [
  | none ↦ expecting s
  | some seg ↦ elim (log_error seg) [ ok t ↦ by_flags seg s | err e ↦ broken e s ]
]

unfoldable pub download_file : List Event → Accepting → Accepting
unfolding download_file_step
download_file (e ∷ es) (expecting s) = download_file es (download_file_step e s)
download_file _ a = a
