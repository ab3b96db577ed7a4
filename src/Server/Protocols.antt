-- ===== src/Server/Protocols.antt =====
-- The map of protocols: what the calls of the acceptor and of the disconnector do to the protocols
-- that run.
use redes_hamelin.Base.{
  ℕ, ◌≡◌, ◌∙◌, ◌⊎◌, inl, inr, false, none, some, List, [], ◌∷◌, if◌then◌else◌, ◌>>=◌, PyError,
  arith, Option-cases, Bool-cases, Result-cases,
}
use redes_hamelin.Base.Dict.{Dict, lookup, lookup-insert}
use redes_hamelin.Text.{Text}
use redes_hamelin.Segment.{Segment, to_bytes}
use redes_hamelin.Service.{
  ClientType, ProtocolType, Service, service, get_types, get_file_name_from_payload,
  make_syn_ack_segment, make_error_segment,
}
use redes_hamelin.Event.{
  Address, address_Eq, address_eq, address_eq_iff, Event, segment, FileDetails,
}
use redes_hamelin.Context.{Context, is_halt, put}
use redes_hamelin.Receiver.{recv_from}
use redes_hamelin.Server.{Server, reap, put_to}
use redes_hamelin.Server.Acceptor.{
  send_error_and_close, is_live, register, size_of_request, refusal, check_request, start_protocol,
  check_protocol_data, accept_segment, accept_typed, accept,
}

-- A protocol that runs stays in the map, and gets a segment on its queue or nothing.
abbrev pub Kept : Address → Context → Dict Address Context → Type 0
Kept k c d =
    (lookup k d ≡ some c) ⊎ ((seg : Segment) × (lookup k d ≡ some (put (segment seg (some k)) c)))

lookup-reap :
    (k : Address) (d : Dict Address Context) {c : Context}
    → lookup k d ≡ some c
    → is_halt c.phase ≡ false
    → lookup k (reap d) ≡ some c
unfolding lookup reap
lookup-reap k [] h live = h
lookup-reap k ((j, b) ∷ d) {c} h live = ground (arith, lookup-reap k d {c = c}, h, live)

pub reap-live :
    (k : Address) (d : Dict Address Context) {c : Context}
    → lookup k (reap d) ≡ some c
    → is_halt c.phase ≡ false
unfolding lookup reap
reap-live k [] h = cc
reap-live k ((j, b) ∷ d) {c} h = ground (arith, reap-live k d {c = c}, h)

pub lookup-put_to :
    (k addr : Address) (e : Event) (d : Dict Address Context)
    → lookup k (put_to addr e d)
      ≡ elim (lookup k d) [ none ↦ none | some c ↦ some (if address_eq addr k then put e c else c) ]
unfolding put_to
lookup-put_to k addr e d = elim (Option-cases (lookup addr d)) [
  | inl h ↦ ground (arith, address_eq_iff addr k, h)
  | inr (c, h) ↦ ground (arith, address_eq_iff addr k, h, lookup-insert addr k (put e c) d)
]

refused-Kept :
    (k : Address) (addr : Address) (seg : Segment) (s : Service) (why : Text) (srv : Server)
    {b : Context}
    → lookup k srv.protocols ≡ some b
    → Kept k b (send_error_and_close addr seg s why srv).1.protocols
unfolding send_error_and_close
refused-Kept k addr seg s why srv h =
    elim (Result-cases (make_error_segment s seg why >>= to_bytes)) [
      | inl (bytes, e) ↦ rw (e, send_error_and_close) (inl h)
      | inr (x, e) ↦ rw (e, send_error_and_close) (inl h)
    ]

told-Kept :
    (k addr : Address) (seg : Segment) (d : Dict Address Context) {b : Context}
    → lookup k d ≡ some b
    → Kept k b (put_to addr (segment seg (some addr)) d)
told-Kept k addr seg d {b} h = elim (Bool-cases (address_eq addr k)) [
  | inl same ↦ inr (seg, lookup-put_to k addr _ d ∙ ground (arith, address_eq_iff addr k, same, h))
  | inr other ↦ inl (lookup-put_to k addr _ d ∙ ground (arith, other, h))
]

register-Kept :
    (k : Address) (ctype : ClientType) (addr : Address) (c : Context) (details : FileDetails)
    (srv : Server) {b : Context}
    → is_live addr srv.protocols ≡ false
    → lookup k srv.protocols ≡ some b
    → is_halt b.phase ≡ false
    → Kept k b (register ctype addr c details srv).1.protocols
unfolding is_live register
register-Kept k ctype addr c details srv {b} dead h live = inl (
    ground (
      arith,
      lookup-reap k srv.protocols {c = b},
      lookup-insert addr k c (reap srv.protocols),
      address_eq_iff addr k,
      dead,
      h,
      live,
    ))

module _ (path_of : Text → Text) (describe : PyError → Text) (now : ℕ) where
  check_request-Kept :
      (k : Address) (ctype : ClientType) (addr : Address) (seg : Segment) (s : Service)
      (name : Text) (size : ℕ) (c : Context) (srv : Server) {b : Context}
      → is_live addr srv.protocols ≡ false
      → lookup k srv.protocols ≡ some b
      → is_halt b.phase ≡ false
      → Kept k b (check_request path_of describe now ctype addr seg s name size c srv).1.protocols
  unfolding check_request
  check_request-Kept k ctype addr seg s name size c srv {b} dead h live =
      elim (Option-cases (refusal path_of describe now ctype name size srv.file_manager)) [
        | inl e ↦ rw (e, check_request) (register-Kept k ctype addr c (name, size) srv dead h live)
        | inr (why, e) ↦ rw (e, check_request) (refused-Kept k addr seg s why srv h)
      ]

  start_protocol-Kept :
      (k : Address) (ctype : ClientType) (addr : Address) (seg : Segment) (s : Service)
      (name : Text) (c : Context) (srv : Server) {b : Context}
      → is_live addr srv.protocols ≡ false
      → lookup k srv.protocols ≡ some b
      → is_halt b.phase ≡ false
      → Kept k b (start_protocol path_of describe now ctype addr seg s name c srv).1.protocols
  unfolding start_protocol
  start_protocol-Kept k ctype addr seg s name c srv {b} dead h live =
      let (size, m) = size_of_request path_of describe now ctype name seg srv.file_manager in
      let srv' : Server = record srv { file_manager = m } in
      elim (Result-cases size) [
        | inl (n, e) ↦
            rw (e, start_protocol) (check_request-Kept k ctype addr seg s name n c srv' dead h live)
        | inr (x, e) ↦ rw (e, start_protocol) (refused-Kept k addr seg s (describe x) srv' h)
      ]

  check_protocol_data-Kept :
      (k : Address) (ctype : ClientType) (ptype : ProtocolType) (addr : Address) (seg : Segment)
      (name : Text) (synack : Segment) (srv : Server) {b : Context}
      → lookup k srv.protocols ≡ some b
      → is_halt b.phase ≡ false
      → Kept k b
          (check_protocol_data path_of describe now ctype ptype addr seg name synack
            srv).1.protocols
  unfolding check_protocol_data
  check_protocol_data-Kept k ctype ptype addr seg name synack srv {b} h live =
      elim (Bool-cases (is_live addr srv.protocols)) [
        | inl e ↦ rw (e, check_protocol_data) (told-Kept k addr synack srv.protocols h)
        | inr e ↦
            rw (e, check_protocol_data)
              (start_protocol-Kept k ctype addr seg (service ctype ptype) name _ srv e h live)
      ]

  accept_segment-Kept :
      (k : Address) (seg : Segment) (addr : Address) (srv : Server) {b : Context}
      → lookup k srv.protocols ≡ some b
      → is_halt b.phase ≡ false
      → Kept k b (accept_segment path_of describe now seg addr srv).1.protocols
  unfolding accept_segment accept_typed
  accept_segment-Kept k seg addr srv h live =
      let (ctype, ptype) = get_types seg in
      elim (Result-cases (get_file_name_from_payload seg)) [
        | inr (x, e) ↦ rw (e, accept_segment) (inl h)
        | inl (name, e) ↦
            elim (Result-cases (make_syn_ack_segment (service ctype ptype) seg none)) [
              | inr (x, e') ↦ rw (e, e', accept_segment, accept_typed) (inl h)
              | inl (synack, e') ↦
                  rw (e, e', accept_segment, accept_typed)
                    (check_protocol_data-Kept k ctype ptype addr seg name synack srv h live)
            ]
      ]

  -- Whatever datagram comes from whatever address, `accept` leaves every protocol that runs in the
  -- map, as it was or with one segment more on its queue, which is then from its own address.
  pub accept-Kept :
      (k : Address) (bytes : List ℕ) (addr : Address) (srv : Server) {b : Context}
      → lookup k srv.protocols ≡ some b
      → is_halt b.phase ≡ false
      → Kept k b (accept path_of describe now bytes addr srv).1.protocols
  unfolding accept
  accept-Kept k bytes addr srv h live = elim (Result-cases (recv_from bytes)) [
    | inl (seg, e) ↦ rw (e, accept) (accept_segment-Kept k seg addr srv h live)
    | inr (x, e) ↦ rw (e, accept) (inl h)
  ]
