-- ===== src/Sync.antt =====
-- TP 1 RDTP/src/lib/state/sync_state_client.py and sync_state_server.py: the handshake before a
-- file. Their loops block in `ctx.get()`; a step leads from an event to the next `get`. The change
-- to a FlowState notes the file, the base number and the window of the state that Flow creates.
pub mod Client
pub mod Server
use redes_hamelin.Base.{ℕ, Result, ok, err, ◌>>=◌, if◌then◌else◌}
use redes_hamelin.Segment.{Segment, is_err}
use redes_hamelin.Service.{get_error_message}
use redes_hamelin.Event.{FileDetails}
use redes_hamelin.Context.{Context, flow, change_state}
use redes_hamelin.Flow.{window_of}

-- `changeState(FSFactory.create(ctx, fileDetails, baseNumber))`
unfoldable pub to_flow_state : FileDetails → ℕ → Context → Context
to_flow_state details base c = change_state (flow details base (window_of c.protocol_type)) c

-- The text of an error is decoded for the log, which may raise.
unfoldable pub log_error : Segment → Result (Unit {0})
log_error seg = if is_err seg then (do text ← get_error_message seg; ok tt) else ok tt
