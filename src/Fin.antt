-- ===== src/Fin.antt =====
-- TP 1 RDTP/src/lib/state/fin_state.py: the state that ends a protocol with the disconnector. The
-- loop blocks in `ctx.get()`; `step` leads from an event to the next `get`. `sendFile` and
-- `downloadFile` both are this loop.
pub mod Halting
pub mod Resending
use redes_hamelin.Base.{
  ℕ, Bool, true, false, Option, none, some, List, [], ◌∷◌, ◌==◌, if◌then◌else◌, Result, ok, err,
  PyError,
}
use redes_hamelin.Segment.{Segment, is_err}
use redes_hamelin.Service.{get_error_message, make_fin_segment}
use redes_hamelin.Event.{Address, address_eq, Event, segment, segment_timeout, abort}
use redes_hamelin.Context.{
  Context, halt, send_to, change_state, schedule_timeout, cancel_timeout, is_termination,
}

-- Where the loop is: at `get` with the FIN that it knows, left, or left by an exception.
pub data Progress : Type 0 where
  waiting : Option Segment → Context → Progress
  finished : Context → Progress
  raised : PyError → Context → Progress

-- The first termination that came is kept.
abbrev known : Option Segment → Segment → Segment
known none seg = seg
known (some fin) seg = fin

-- The FIN goes out again whenever the timer puts this same event back.
send_fin_on : Event → Segment → Context → Progress
send_fin_on event fin c = elim (make_fin_segment c.service fin.sequence_number) [
  | ok seg ↦ waiting (some fin) (schedule_timeout event (send_to seg c.disconnector_address c))
  | err e ↦ raised e c
]

unfoldable pub from_address : Segment → Option Address → Segment → Context → Progress
unfolding send_fin_on
from_address seg none fin c = send_fin_on (segment seg none) fin c
from_address seg (some addr) fin c =
    if address_eq addr c.disconnector_address
    then finished (change_state halt (cancel_timeout (segment seg (some addr)) c))
    else waiting (some fin) c

-- The text of an error is decoded for the log, which may raise.
unfoldable pub on_termination : Segment → Option Address → Segment → Context → Progress
unfolding from_address
on_termination seg addr fin c =
    if is_err fin
    then elim (get_error_message fin) [ ok text ↦ from_address seg addr fin c | err e ↦ raised e c ]
    else from_address seg addr fin c

on_timeout : ℕ → Option Segment → Context → Progress
on_timeout n none c = waiting none c
on_timeout n (some fin) c =
    if n == fin.sequence_number
    then waiting (some fin)
        (schedule_timeout (segment_timeout n) (send_to fin c.disconnector_address c))
    else waiting (some fin) c

unfoldable pub step : Event → Option Segment → Context → Progress
unfolding on_termination on_timeout
step abort fin c = finished (change_state halt c)
step (segment_timeout n) fin c = on_timeout n fin c
step (segment seg addr) fin c =
    if is_termination seg then on_termination seg addr (known fin seg) c else waiting fin c

-- `handleFin`, over the events that the queue hands out.
pub handle_fin : List Event → Progress → Progress
unfolding step
handle_fin (e ∷ es) (waiting fin c) = handle_fin es (step e fin c)
handle_fin _ p = p
