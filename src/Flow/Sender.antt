-- ===== src/Flow/Sender.antt =====
-- flow_state.py, `sendFile`: the window of packets in flight, acknowledgements and timeouts.
-- `ctx.get()` blocks: the loop is cut there, into what runs up to the next `get` (`advance`) and
-- what an event sets off (`resume`).
pub mod Acks
pub mod Window
pub mod Packets
pub mod Sending
pub mod Rounds
pub mod Advancing
pub mod Timeouts
use redes_hamelin.Base.{
  ℕ, zero, suc, ◌+◌, ◌-◌, Bool, true, false, not, ◌&&◌, ◌||◌, Option, none, some, List, [], ◌∷◌,
  ltb, if◌then◌else◌, length, get_elem?, nat_Eq, Result, ok, err, index_error, PyError, ◌>>=◌,
  or_raise,
}
use redes_hamelin.Base.Dict.{Dict, lookup, contains, insert, erase}
use redes_hamelin.Segment.{Segment, is_syn, is_ack, is_err}
use redes_hamelin.Service.{make_segment, get_error_message}
use redes_hamelin.Event.{Event, segment, segment_timeout, abort}
use redes_hamelin.Context.{
  Context, halt, send_to, schedule_timeout, cancel_timeout, change_state, is_termination, send_fin,
}
use redes_hamelin.Flow.{Flow}

-- `makeWindow`: one packet for each free place in the window while chunks are left. The fuel is the
-- size of the window, which the packets cannot outnumber.
unfoldable pub make_packets : ℕ → List (List ℕ) → ℕ → Flow → Result (List Segment × Flow)
make_packets zero chunks made f = ok ([], f)
make_packets (suc fuel) chunks made f =
    let index = f.next_sequence_number - f.initial_sequence_number in
    let build =
      (or_raise (get_elem? chunks index) index_error >>= λ payload.
      make_segment f.ctx.service f.next_sequence_number 0 payload >>= λ seg.
      make_packets fuel chunks (made + 1)
        (record f { next_sequence_number = f.next_sequence_number + 1 })
      >>= λ (rest, f'). ok (seg ∷ rest, f')) in
    if ltb index (length chunks) && ltb (length f.packets_in_flight + made) f.window_size
    then build
    else ok ([], f)

unfoldable pub make_window : List (List ℕ) → Flow → Result (List Segment × Flow)
unfolding make_packets
make_window chunks f = make_packets f.window_size chunks 0 f

-- `sendWindow`
unfoldable pub send_window : List Segment → Flow → Flow
send_window [] f = f
send_window (seg ∷ segs) f = send_window segs (record f {
  ctx =
      schedule_timeout (segment_timeout seg.sequence_number) (send_to seg f.ctx.peer_address f.ctx);
  packets_in_flight = insert seg.sequence_number seg f.packets_in_flight;
})

-- The loop at the end of `handleAck`, by the numbers between the base and the next one.
pub slide : ℕ → Flow → Flow
slide zero f = f
slide (suc fuel) f =
    let moved = slide fuel (record f { base_number = f.base_number + 1 }) in
    if not (contains f.base_number f.packets_in_flight) && ltb f.base_number f.next_sequence_number
    then moved
    else f

unfoldable pub handle_ack : Segment → Flow → Flow
unfolding slide
handle_ack seg f =
    if contains seg.sequence_number f.packets_in_flight
    then slide (f.next_sequence_number - f.base_number) (record f {
      ctx = cancel_timeout (segment_timeout seg.sequence_number) f.ctx;
      packets_in_flight = erase seg.sequence_number f.packets_in_flight;
    })
    else f

resend : ℕ → Option Segment → Flow → Flow
resend n none f = f
resend n (some seg) f = record f {
  ctx =
      schedule_timeout (segment_timeout seg.sequence_number) (send_to seg f.ctx.peer_address f.ctx);
}

pub handle_timeout : ℕ → Flow → Flow
unfolding resend
handle_timeout n f = resend n (lookup n f.packets_in_flight) f

-- `abort`
unfoldable pub abort_flow : Flow → Flow
abort_flow f = record f { ctx = change_state halt f.ctx; finished = true; aborted = true }

-- Where the loop is: waiting for an event, left with or without `error`, or left by an exception.
pub data Progress : Type 0 where
  waiting : Flow → Progress
  left : Bool → Flow → Progress
  raised : PyError → Flow → Progress

-- From the head of the loop to `ctx.get()`.
unfoldable pub advance : List (List ℕ) → Flow → Progress
advance chunks f =
    if ltb (f.base_number - f.initial_sequence_number) (length chunks)
    then elim (make_window chunks f) [
      | ok (packets, g) ↦ waiting (send_window packets g)
      | err e ↦ raised e f
    ]
    else left false f

-- The text of an error is decoded for the log, which may raise.
pub on_segment : List (List ℕ) → Segment → Flow → Progress
unfolding advance
on_segment chunks seg f =
    if is_err seg
    then elim (get_error_message seg) [ ok message ↦ left true f | err e ↦ raised e f ]
    else if is_termination seg
    then left false f
    else if not (is_ack seg) || is_syn seg
    then advance chunks f
    else advance chunks (handle_ack seg f)

unfoldable pub resume : List (List ℕ) → Event → Flow → Progress
unfolding on_segment advance
resume chunks (segment seg addr) f = on_segment chunks seg f
resume chunks (segment_timeout n) f = advance chunks (handle_timeout n f)
resume chunks abort f = left false (abort_flow f)

-- The loop over the events that the queue hands out.
pub send_loop : List (List ℕ) → List Event → Progress → Progress
unfolding resume
send_loop chunks (e ∷ es) (waiting f) = send_loop chunks es (resume chunks e f)
send_loop chunks _ p = p

cancel_all : Dict ℕ Segment → Context → Context
cancel_all [] c = c
cancel_all ((n, seg) ∷ d) c = cancel_all d (cancel_timeout (segment_timeout n) c)

-- What follows the loop: the timeouts of what is still in flight, and the FIN.
unfoldable pub after_loop : Bool → Flow → Result Flow
unfolding cancel_all
after_loop error f =
    let c = (if error then f.ctx else cancel_all f.packets_in_flight f.ctx) in
    if f.aborted
    then ok (record f { ctx = c })
    else send_fin f.next_sequence_number c >>= λ c'. ok (record f { ctx = c' })
