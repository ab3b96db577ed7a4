-- ===== src/Server/Disconnector.antt =====
-- disconnector_protocol.py and the loop of server/disconnector.py, which both swallow every
-- exception.
use redes_hamelin.Base.{ℕ, ◌||◌, List, ◌∷◌, if◌then◌else◌, ok, err, ◌>>=◌}
use redes_hamelin.Segment.{Segment, to_bytes, is_fin, is_err}
use redes_hamelin.Service.{service, get_types, get_error_message, make_ack_fin_segment}
use redes_hamelin.Event.{Address, abort}
use redes_hamelin.Receiver.{recv_from}
use redes_hamelin.Server.{Server, put_to}

-- `abortProtocol`
unfoldable pub abort_protocol : Address → Server → Server
abort_protocol addr srv = record srv { protocols = put_to addr abort srv.protocols }

unfoldable pub send_farewell : Segment → Address → Server → Server
send_farewell seg addr srv =
    let (ctype, ptype) = get_types seg in
    elim (make_ack_fin_segment (service ctype ptype) seg >>= to_bytes) [
      | ok bytes ↦ record srv { farewells = (bytes, addr) ∷ srv.farewells }
      | err e ↦ srv
    ]

unfoldable pub answer_fin : Segment → Address → Server → Server
unfolding abort_protocol send_farewell
answer_fin seg addr srv =
    if is_fin seg || is_err seg then send_farewell seg addr (abort_protocol addr srv) else srv

-- The text of an error is decoded for the log; where that raises, nothing is answered.
unfoldable pub disconnect_segment : Segment → Address → Server → Server
unfolding answer_fin
disconnect_segment seg addr srv =
    if is_err seg
    then elim (get_error_message seg) [ ok text ↦ answer_fin seg addr srv | err e ↦ srv ]
    else answer_fin seg addr srv

unfoldable pub disconnect : List ℕ → Address → Server → Server
unfolding disconnect_segment
disconnect bytes addr srv = elim (recv_from bytes) [
  | ok seg ↦ disconnect_segment seg addr srv
  | err e ↦ srv
]
