-- ===== src/Flow/Receiver.antt =====
-- flow_state.py, `downloadFile`: segments are acknowledged, buffered and written in order.
-- An exception leaves what was done before it, so the state comes back with it.
pub mod Drain
pub mod Buffer
pub mod Arrivals
pub mod Answering
use redes_hamelin.Base.{
  ℕ, zero, suc, ◌+◌, Bool, true, not, ◌&&◌, Option, none, some, List, [], ◌∷◌, ltb, leb,
  if◌then◌else◌, length, nat_Eq, Result, ok, err, PyError, ◌>>=◌,
}
use redes_hamelin.Base.Dict.{Dict, lookup, contains, insert, erase}
use redes_hamelin.Segment.{Segment, is_ack, is_err}
use redes_hamelin.Service.{get_error_message}
use redes_hamelin.Event.{Event, segment, segment_timeout, abort}
use redes_hamelin.Context.{Context, send_ack, is_termination, send_fin}
use redes_hamelin.Files.Writer.{FileWriter, write_batch, total_length}
use redes_hamelin.Flow.{Flow}
use redes_hamelin.Flow.Sender.{abort_flow}

unfoldable pub is_in_receive_window : ℕ → Flow → Bool
is_in_receive_window n f =
    leb f.recv_base_number n && ltb n (f.recv_base_number + f.receive_window_size)

pub data Received : Type 0 where
  kept : Flow → FileWriter → Received
  failed : PyError → Flow → FileWriter → Received

-- The loop of `writeContiguousPackets`: each round takes a segment out of the buffer, so the size
-- of the buffer is fuel enough.
unfoldable pub drain : ℕ → Flow → List (List ℕ) × Flow
drain zero f = ([], f)
drain (suc fuel) f = elim (lookup f.recv_base_number f.receive_buffer) [
  | none ↦ ([], f)
  | some seg ↦
      let (chunks, g) = drain fuel (record f {
        recv_base_number = f.recv_base_number + 1;
        receive_buffer = erase f.recv_base_number f.receive_buffer;
      }) in
      (seg.payload ∷ chunks, g)
]

unfoldable pub write_chunks : List (List ℕ) → Flow → FileWriter → Received
write_chunks [] f w = kept f w
write_chunks (c ∷ cs) f w = elim (write_batch f.downloaded_bytes (c ∷ cs) w) [
  | ok w' ↦ kept (record f { downloaded_bytes = f.downloaded_bytes + total_length (c ∷ cs) }) w'
  | err e ↦ failed e f w
]

unfoldable pub write_contiguous_packets : Flow → FileWriter → Received
unfolding drain write_chunks
write_contiguous_packets f w =
    let (chunks, g) = drain (length f.receive_buffer) f in write_chunks chunks g w

-- `self.sendAck(n)`
unfoldable pub acknowledge : ℕ → Flow → Result Flow
acknowledge n f = send_ack n f.ctx >>= λ c. ok (record f { ctx = c })

pub re_ack : ℕ → Flow → FileWriter → Received
unfolding acknowledge
re_ack n f w = elim (acknowledge n f) [ ok g ↦ kept g w | err e ↦ failed e f w ]

-- A new segment of the window: buffered, acknowledged, and written with what follows it.
pub store_segment : Segment → Flow → FileWriter → Received
unfolding acknowledge
store_segment seg f w =
    let g = record f { receive_buffer = insert seg.sequence_number seg f.receive_buffer } in
    elim (acknowledge seg.sequence_number g) [
      | ok h ↦ write_contiguous_packets h w
      | err e ↦ failed e g w
    ]

on_data : Segment → Flow → FileWriter → Received
unfolding re_ack store_segment
on_data seg f w =
    if ltb seg.sequence_number f.recv_base_number
    then re_ack seg.sequence_number f w
    else if not (is_in_receive_window seg.sequence_number f)
    then kept f w
    else if contains seg.sequence_number f.receive_buffer
    then re_ack seg.sequence_number f w
    else store_segment seg f w

on_termination : Segment → Flow → FileWriter → Received
on_termination seg f w =
    kept (record f { fin_received = true; fin_sequence_number = some seg.sequence_number }) w

unfoldable pub handle_segment_received : Segment → Flow → FileWriter → Received
unfolding on_data on_termination
handle_segment_received seg f w =
    if is_ack seg
    then kept f w
    else if is_err seg
    then elim (get_error_message seg) [ ok m ↦ on_termination seg f w | err e ↦ failed e f w ]
    else if is_termination seg
    then on_termination seg f w
    else on_data seg f w

-- Where the loop of `downloadFile` is.
pub data Download : Type 0 where
  receiving : Flow → FileWriter → Download
  stopped : Flow → FileWriter → Download
  broken : PyError → Flow → FileWriter → Download

-- The test of `finReceived`, and the head of the loop.
unfoldable pub check_finished : Received → Download
check_finished (failed e f w) = broken e f w
check_finished (kept f w) =
    if f.fin_received && leb f.file_details.1 f.downloaded_bytes
    then stopped (record f { finished = true }) w
    else receiving f w

unfoldable pub receive : Event → Flow → FileWriter → Download
unfolding check_finished
receive (segment seg addr) f w = check_finished (handle_segment_received seg f w)
receive (segment_timeout n) f w = receiving f w
receive abort f w = stopped (abort_flow f) w

pub receive_loop : List Event → Download → Download
unfolding receive
receive_loop (e ∷ es) (receiving f w) = receive_loop es (receive e f w)
receive_loop _ d = d

-- The `finally` block, after the writer is closed: `sendFin(finSequenceNumber or 0)`.
or_zero : Option ℕ → ℕ
or_zero none = 0
or_zero (some n) = n

unfoldable pub finish_download : Flow → Result Flow
unfolding or_zero
finish_download f =
    if f.aborted
    then ok f
    else send_fin (or_zero f.fin_sequence_number) f.ctx >>= λ c. ok (record f { ctx = c })
