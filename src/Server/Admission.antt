-- ===== src/Server/Admission.antt =====
-- acceptor_protocol.py: what holds of a request that `accept` admits.
use redes_hamelin.Base.{
  ℕ, ◌≡◌, ◌≤◌, refl, subst, ◌∙◌, true, false, none, some, List, ◌>>=◌, PyError, arith, Option-cases,
  Bool-cases, Result-cases, inl, inr,
}
use redes_hamelin.Base.Dict.{Dict, lookup, insert, lookup-insert, lookup_inserted}
use redes_hamelin.Text.{Text}
use redes_hamelin.Segment.{Segment, to_bytes}
use redes_hamelin.Service.{
  ClientType, upload, download, ProtocolType, Service, service, get_types,
  get_file_name_from_payload, make_syn_ack_segment, make_error_segment,
}
use redes_hamelin.Event.{Address, address_Eq, address_eq_iff}
use redes_hamelin.Context.{Context, sync, is_halt}
use redes_hamelin.Receiver.{recv_from}
use redes_hamelin.Files.Manager.{FileManager, exists}
use redes_hamelin.Sync.Server.{SyncServer, sync_server}
use redes_hamelin.Server.{Server, reap}
use redes_hamelin.Server.Protocols.{reap-live}
use redes_hamelin.Server.Acceptor.{
  Outcome, accepted, raised, refused, duplicate, max_bytes, send_error_and_close, is_live,
  new_context, register, size_of_request, refusal, check_request, start_protocol,
  check_protocol_data, accept_segment, accept_typed, accept,
}

-- A new protocol runs, and so does what is left after `reap`.
new_all_run :
    (addr : Address) (new : Context) (d : Dict Address Context)
    → is_halt new.phase ≡ false
    → (k : Address) (c : Context) → lookup k (insert addr new (reap d)) ≡ some c
    → is_halt c.phase ≡ false
new_all_run addr new d live k c e = elim (lookup_inserted addr k new (reap d) e) [
  | inl (same, made) ↦ subst (λ (x : Context). is_halt x.phase ≡ false) made live
  | inr old ↦ reap-live k d old
]

module _ (path_of : Text → Text) (describe : PyError → Text) (now : ℕ) where
  allowed_size :
      (name : Text) (size : ℕ) (m : FileManager)
      → refusal path_of describe now upload name size m ≡ none
      → size ≤ max_bytes
  unfolding refusal
  allowed_size name size m h = ground arith

  file_there :
      (name : Text) (size : ℕ) (m : FileManager)
      → refusal path_of describe now download name size m ≡ none
      → exists path_of name m ≡ true
  unfolding refusal
  file_there name size m h = ground arith

module _ (path_of : Text → Text) (describe : PyError → Text) (now : ℕ) where
  -- The protocol is in the map in its first state, no protocol there is over, a file that comes is
  -- not larger than 20 MB, and a file that goes is there.
  pub record Admitted (addr : Address) (ctype : ClientType) (s : SyncServer) (srv : Server)
      : Type 0 where
    pub registered : lookup addr srv.protocols ≡ some s.ctx
    pub first_state : s.ctx.phase ≡ sync
    pub peer : s.peer_address ≡ addr
    pub all_run :
        (k : Address) (c : Context) → lookup k srv.protocols ≡ some c → is_halt c.phase ≡ false
    pub bounded : ctype ≡ upload → s.file_details.1 ≤ max_bytes
    pub there : ctype ≡ download → exists path_of s.file_details.0 srv.file_manager ≡ true

  abbrev pub IfAdmitted : Address → Outcome → Server → Type 0
  IfAdmitted addr (accepted ctype s) srv = Admitted addr ctype s srv
  IfAdmitted addr refused srv = Unit {0}
  IfAdmitted addr duplicate srv = Unit {0}
  IfAdmitted addr (raised e) srv = Unit {0}

  refused-IfAdmitted :
      (addr : Address) (seg : Segment) (s : Service) (why : Text) (srv : Server)
      → let r = send_error_and_close addr seg s why srv in IfAdmitted addr r.0 r.1
  unfolding send_error_and_close
  refused-IfAdmitted addr seg s why srv =
      elim (Result-cases (make_error_segment s seg why >>= to_bytes)) [
        | inl (bytes, e) ↦ rw (e, send_error_and_close) tt
        | inr (x, e) ↦ rw (e, send_error_and_close) tt
      ]

  register-Admitted :
      (ctype : ClientType) (addr : Address) (synack : Segment) (ptype : ProtocolType) (s : Service)
      (name : Text) (size : ℕ) (srv : Server)
      → refusal path_of describe now ctype name size srv.file_manager ≡ none
      → let r = register ctype addr (new_context synack addr ptype s now) (name, size) srv in
        IfAdmitted addr r.0 r.1
  unfolding register new_context sync_server is_halt
  register-Admitted ctype addr synack ptype s name size srv h = record {
    registered =
        lookup-insert addr addr _ (reap srv.protocols) ∙ ground (arith, address_eq_iff addr addr);
    first_state = refl;
    peer = refl;
    all_run =
        λ k c e. new_all_run addr (new_context synack addr ptype s now) srv.protocols refl k c e;
    bounded = λ e.
        allowed_size path_of describe now name size srv.file_manager
          (subst (λ t. refusal path_of describe now t name size srv.file_manager ≡ none) e h);
    there = λ e.
        file_there path_of describe now name size srv.file_manager
          (subst (λ t. refusal path_of describe now t name size srv.file_manager ≡ none) e h);
  }

  check_request-IfAdmitted :
      (ctype : ClientType) (addr : Address) (seg synack : Segment) (ptype : ProtocolType)
      (s : Service) (name : Text) (size : ℕ) (srv : Server)
      → let r =
          check_request path_of describe now ctype addr seg s name size
            (new_context synack addr ptype s now)
            srv in
        IfAdmitted addr r.0 r.1
  unfolding check_request
  check_request-IfAdmitted ctype addr seg synack ptype s name size srv =
      elim (Option-cases (refusal path_of describe now ctype name size srv.file_manager)) [
        | inl e ↦
            rw (e, check_request) (register-Admitted ctype addr synack ptype s name size srv e)
        | inr (why, e) ↦ rw (e, check_request) (refused-IfAdmitted addr seg s why srv)
      ]

  start_protocol-IfAdmitted :
      (ctype : ClientType) (addr : Address) (seg synack : Segment) (ptype : ProtocolType)
      (s : Service) (name : Text) (srv : Server)
      → let r =
          start_protocol path_of describe now ctype addr seg s name
            (new_context synack addr ptype s now)
            srv in
        IfAdmitted addr r.0 r.1
  unfolding start_protocol
  start_protocol-IfAdmitted ctype addr seg synack ptype s name srv =
      let (size, m) = size_of_request path_of describe now ctype name seg srv.file_manager in
      let srv' : Server = record srv { file_manager = m } in
      elim (Result-cases size) [
        | inl (n, e) ↦
            rw (e, start_protocol)
              (check_request-IfAdmitted ctype addr seg synack ptype s name n srv')
        | inr (x, e) ↦ rw (e, start_protocol) (refused-IfAdmitted addr seg s (describe x) srv')
      ]

  accept_segment-IfAdmitted :
      (seg : Segment) (addr : Address) (srv : Server)
      → let r = accept_segment path_of describe now seg addr srv in IfAdmitted addr r.0 r.1
  unfolding accept_segment accept_typed check_protocol_data
  accept_segment-IfAdmitted seg addr srv =
      let (ctype, ptype) = get_types seg in
      elim (Result-cases (get_file_name_from_payload seg)) [
        | inr (x, e) ↦ rw (e, accept_segment) tt
        | inl (name, e) ↦
            elim (Result-cases (make_syn_ack_segment (service ctype ptype) seg none)) [
              | inr (x, e') ↦ rw (e, e', accept_segment, accept_typed) tt
              | inl (synack, e') ↦ elim (Bool-cases (is_live addr srv.protocols)) [
                | inl b ↦ rw (e, e', b, accept_segment, accept_typed, check_protocol_data) tt
                | inr b ↦
                    rw (e, e', b, accept_segment, accept_typed, check_protocol_data)
                      (start_protocol-IfAdmitted ctype addr seg synack ptype (service ctype ptype)
                        name srv)
              ]
            ]
      ]

  accept-IfAdmitted :
      (bytes : List ℕ) (addr : Address) (srv : Server)
      → let r = accept path_of describe now bytes addr srv in IfAdmitted addr r.0 r.1
  unfolding accept
  accept-IfAdmitted bytes addr srv = elim (Result-cases (recv_from bytes)) [
    | inl (seg, e) ↦ rw (e, accept) (accept_segment-IfAdmitted seg addr srv)
    | inr (x, e) ↦ rw (e, accept) tt
  ]

  -- If `accept` admits a request, then its protocol is in the map in its first state, the peer is the
  -- sender, no protocol in the map is over, an upload is not larger than 20 MB, and the file of a
  -- download exists.
  pub accept-Admitted :
      (bytes : List ℕ) (addr : Address) (srv srv' : Server) (ctype : ClientType) (s : SyncServer)
      → accept path_of describe now bytes addr srv ≡ (accepted ctype s, srv')
      → Admitted addr ctype s srv'
  accept-Admitted bytes addr srv srv' ctype s e =
      subst (λ (r : Outcome × Server). IfAdmitted addr r.0 r.1) e (accept-IfAdmitted bytes addr srv)
