-- ===== src/Server/Farewell.antt =====
-- disconnector_protocol.py and fin_state.py: the end of a transfer, from the client's FIN to the
-- client's halt.
use redes_hamelin.Base.{ℕ, ◌+◌, ◌<◌, ◌≡◌, ◌∙◌, false, some, List, [], ◌∷◌, arith, ok, ◌>>=◌}
use redes_hamelin.Base.Dict.{lookup}
use redes_hamelin.Segment.{Segment, to_bytes, is_err}
use redes_hamelin.Segment.Checksum.{new_lem}
use redes_hamelin.Service.{
  ClientType, ProtocolType, service, make_fin_segment, make_ack_fin_segment,
}
use redes_hamelin.Service.Kinds.{segment_of, flags_of, fin-Reads, ack_fin-Reads}
use redes_hamelin.Event.{Address, address_Eq, address_eq_iff, segment, abort}
use redes_hamelin.Context.{Context, put, halt, change_state, cancel_timeout}
use redes_hamelin.Receiver.{recv_from, running, listen_one}
use redes_hamelin.Receiver.Delivery.{delivered}
use redes_hamelin.Fin.{finished, step, on_termination, from_address}
use redes_hamelin.Server.{Server}
use redes_hamelin.Server.Protocols.{lookup-put_to}
use redes_hamelin.Server.Disconnector.{
  disconnect, disconnect_segment, answer_fin, send_farewell, abort_protocol,
}

abbrev fin_of : ClientType → ProtocolType → ℕ → Segment
fin_of t p n = segment_of (n + 1) (flags_of 0b000001 t p) []

abbrev ack_of : ClientType → ProtocolType → ℕ → Segment
ack_of t p n = segment_of (n + 1) (flags_of 0b010001 t p) []

answer_fin-fin_of :
    (t : ClientType) (p : ProtocolType) (n : ℕ) (addr : Address) (srv : Server)
    → disconnect_segment (fin_of t p n) addr srv
      ≡ send_farewell (fin_of t p n) addr (abort_protocol addr srv)
unfolding disconnect_segment answer_fin
answer_fin-fin_of t p n addr srv = let (k, _, _) = fin-Reads t p (n + 1) [] in ground (arith, k)

send_farewell-fin_of :
    (t : ClientType) (p : ProtocolType) (n : ℕ) (addr : Address) (srv : Server) (bytes : List ℕ)
    → to_bytes (ack_of t p n) ≡ ok bytes
    → send_farewell (fin_of t p n) addr srv
      ≡ record srv { farewells = (bytes, addr) ∷ srv.farewells }
unfolding send_farewell make_ack_fin_segment
send_farewell-fin_of t p n addr srv bytes e =
    let (_, types, _) = fin-Reads t p (n + 1) [] in
    rw (types, send_farewell, make_ack_fin_segment, new_lem (n + 1) (flags_of 0b010001 t p) [], e)

-- A FIN from the disconnector's address ends the state, where the FIN that it knows is no error.
ends :
    (t : ClientType) (p : ProtocolType) (n : ℕ) (fin : Segment) (c : Context)
    → is_err fin ≡ false
    → let e = segment (ack_of t p n) (some c.disconnector_address) in
      step e (some fin) c ≡ finished (change_state halt (cancel_timeout e c))
unfolding step on_termination from_address
ends t p n fin c h =
    let (k, _, _) = ack_fin-Reads t p (n + 1) [] in
    ground (arith, k, address_eq_iff c.disconnector_address c.disconnector_address, h)

aborted :
    (addr : Address) (srv : Server) {b : Context}
    → lookup addr srv.protocols ≡ some b
    → lookup addr (abort_protocol addr srv).protocols ≡ some (put abort b)
unfolding abort_protocol
aborted addr srv h =
    lookup-put_to addr addr abort srv.protocols ∙ ground (arith, address_eq_iff addr addr, h)

disconnect_lem :
    (t : ClientType) (p : ProtocolType) (n : ℕ) (addr : Address) (srv : Server)
    (bytes answer : List ℕ)
    → recv_from bytes ≡ ok (fin_of t p n)
    → to_bytes (ack_of t p n) ≡ ok answer
    → disconnect bytes addr srv
      ≡ (let s = abort_protocol addr srv in record s { farewells = (answer, addr) ∷ s.farewells })
unfolding disconnect
disconnect_lem t p n addr srv bytes answer read written =
    rw (read, disconnect)
      (answer_fin-fin_of t p n addr srv
        ∙ send_farewell-fin_of t p n addr (abort_protocol addr srv) answer written)

-- The FIN that a client makes with a number below 65535 can be written. Once the disconnector gets
-- it, an AbortEvent is the last on the queue of the client's protocol, and an answer goes to the
-- client; once the client's Receiver gets the answer, the client's FinState ends in the halt state,
-- where the FIN that it knows is no error.
pub close_completes :
    (t : ClientType) (p : ProtocolType) (n : ℕ) (addr : Address) (srv : Server) (b : Context)
    → n + 1 < 65536
    → lookup addr srv.protocols ≡ some b
    → (bytes answer : List ℕ) × (ack : Segment) × ((make_fin_segment (service t p) n >>= to_bytes)
        ≡ ok bytes)
      × (lookup addr (disconnect bytes addr srv).protocols ≡ some (put abort b))
      × ((disconnect bytes addr srv).farewells ≡ (answer, addr) ∷ srv.farewells)
      × ((c : Context) (fin : Segment)
          → is_err fin ≡ false
          → let e = segment ack (some c.disconnector_address) in
            (listen_one answer c.disconnector_address c ≡ running (put e c))
            × (step e (some fin) c ≡ finished (change_state halt (cancel_timeout e c))))
unfolding make_fin_segment abort_protocol
close_completes t p n addr srv b small there =
    let made = new_lem (n + 1) (flags_of 0b000001 t p) [] in
    let made' = new_lem (n + 1) (flags_of 0b010001 t p) [] in
    let (_, _, fits) = fin-Reads t p (n + 1) [] in
    let (_, _, fits') = ack_fin-Reads t p (n + 1) [] in
    let (bytes, written, read, _) =
      delivered (n + 1) 0 (flags_of 0b000001 t p) [] small (omega arith) (omega arith) fits made in
    let (answer, written', _, heard) =
      delivered (n + 1) 0 (flags_of 0b010001 t p) [] small (omega arith) (omega arith) fits'
        made' in
    let after = disconnect_lem t p n addr srv bytes answer read written' in
    (
      bytes,
      answer,
      ack_of t p n,
      rw (made, make_fin_segment) written,
      rw after (aborted addr srv there),
      rw after,
      λ c fin h. (heard c.disconnector_address c, ends t p n fin c h),
    )
