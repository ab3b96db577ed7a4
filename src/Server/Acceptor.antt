-- ===== src/Server/Acceptor.antt =====
-- acceptor_protocol.py, the loop of server/acceptor.py, and connector_protocol.py, which starts the
-- other end. What `str` makes of an exception, and the clock, are parameters.
use redes_hamelin.Base.{
  ℕ, ◌+◌, Bool, false, not, ltb, Option, none, some, List, [], ◌∷◌, ◌++◌, if◌then◌else◌, Result, ok,
  err, ◌>>=◌, PyError,
}
use redes_hamelin.Base.Dict.{Dict, lookup, insert}
use redes_hamelin.Text.{Text}
use redes_hamelin.Segment.{Segment, to_bytes}
use redes_hamelin.Service.{
  ClientType, upload, download, ProtocolType, Service, service, get_types,
  get_file_name_from_payload, get_file_size_from_payload, make_syn_ack_segment, make_error_segment,
}
use redes_hamelin.Event.{Address, address_Eq, segment, FileDetails}
use redes_hamelin.Timer.{start}
use redes_hamelin.Context.{Context, sync, is_halt}
use redes_hamelin.Receiver.{recv_from}
use redes_hamelin.Files.Manager.{FileManager, open_for_reading, release_for_reader, exists}
use redes_hamelin.Sync.Client.{SyncClient, sync_client}
use redes_hamelin.Sync.Server.{SyncServer, sync_server}
use redes_hamelin.Server.{
  Server, reap, put_to, ClientHandler, upload_handler, download_handler, new_handler, add_client,
  reap_clients,
}

abbrev pub max_bytes : ℕ
max_bytes = 20971520

-- `connect`: the disconnector of a server listens on the port after the acceptor's.
unfoldable pub connect : Address → ClientType → ProtocolType → Text → ℕ → SyncClient
connect (host, port) ctype ptype name now =
    sync_client
      (record {
        peer_address = (host, port);
        disconnector_address = (host, port + 1);
        protocol_type = ptype;
        service = service ctype ptype;
        timer = start;
        now = now;
        sent = [];
        queue = [];
        phase = sync;
      })
      name

-- What a call of `accept` ends with: the state of a new protocol with its type of client, None, an
-- exception, or the bare Exception of `checkProtocolData`.
pub data Outcome : Type 0 where
  accepted : ClientType → SyncServer → Outcome
  refused duplicate : Outcome
  raised : PyError → Outcome

-- `f"File {fileName} does not exist"` and `f"File {fileName} is too large"`
abbrev does_not_exist : Text → Text
does_not_exist name =
    (70 ∷ 105 ∷ 108 ∷ 101 ∷ 32 ∷ [])
    ++ (name
        ++ (32 ∷ 100 ∷ 111 ∷ 101 ∷ 115 ∷ 32 ∷ 110 ∷ 111 ∷ 116 ∷ 32 ∷ 101 ∷ 120 ∷ 105 ∷ 115 ∷ 116
            ∷ []))

abbrev is_too_large : Text → Text
is_too_large name =
    (70 ∷ 105 ∷ 108 ∷ 101 ∷ 32 ∷ [])
    ++ (name ++ (32 ∷ 105 ∷ 115 ∷ 32 ∷ 116 ∷ 111 ∷ 111 ∷ 32 ∷ 108 ∷ 97 ∷ 114 ∷ 103 ∷ 101 ∷ []))

-- `_sendErrorAndClose`: nothing catches an error of the socket here.
unfoldable pub send_error_and_close : Address → Segment → Service → Text → Server → Outcome × Server
send_error_and_close addr seg s description srv =
    elim (make_error_segment s seg description >>= to_bytes) [
      | ok bytes ↦ (refused, record srv { refusals = (bytes, addr) ∷ srv.refusals })
      | err e ↦ (raised e, srv)
    ]

-- `isHalt` of the protocol of this address.
unfoldable pub is_live : Address → Dict Address Context → Bool
is_live addr d = elim (lookup addr d) [ none ↦ false | some c ↦ not (is_halt c.phase) ]

-- The context of a new protocol: both its addresses are the peer's.
unfoldable pub new_context : Segment → Address → ProtocolType → Service → ℕ → Context
new_context synack addr ptype s now = record {
  peer_address = addr;
  disconnector_address = addr;
  protocol_type = ptype;
  service = s;
  timer = start;
  now = now;
  sent = [];
  queue = segment synack (some addr) ∷ [];
  phase = sync;
}

-- The end of `accept`.
unfoldable pub register : ClientType → Address → Context → FileDetails → Server → Outcome × Server
register ctype addr c details srv = (
  accepted ctype (sync_server c details),
  record srv { protocols = insert addr c (reap srv.protocols) },
)

module _ (path_of : Text → Text) (describe : PyError → Text) (now : ℕ) where
  -- `getFileSize`
  unfoldable pub size_of_request :
      ClientType → Text → Segment → FileManager → Result ℕ × FileManager
  size_of_request upload name seg m = (ok (get_file_size_from_payload seg), m)
  size_of_request download name seg m =
      let (opened, m') = open_for_reading path_of name m in
      elim opened [ ok r ↦ (ok r.file_size, release_for_reader name m') | err e ↦ (err e, m') ]

  -- The two refusals by name and by size.
  unfoldable pub refusal : ClientType → Text → ℕ → FileManager → Option Text
  refusal download name size m = if exists path_of name m then none else some (does_not_exist name)
  refusal upload name size m = if ltb max_bytes size then some (is_too_large name) else none

  unfoldable pub check_request :
      ClientType → Address → Segment → Service → Text → ℕ → Context → Server → Outcome × Server
  unfolding refusal send_error_and_close register
  check_request ctype addr seg s name size c srv = elim (refusal ctype name size srv.file_manager) [
    | some why ↦ send_error_and_close addr seg s why srv
    | none ↦ register ctype addr c (name, size) srv
  ]

  unfoldable pub start_protocol :
      ClientType → Address → Segment → Service → Text → Context → Server → Outcome × Server
  unfolding size_of_request send_error_and_close check_request
  start_protocol ctype addr seg s name c srv =
      let (size, m) = size_of_request ctype name seg srv.file_manager in
      let srv' : Server = record srv { file_manager = m } in
      elim size [
        | err e ↦ send_error_and_close addr seg s (describe e) srv'
        | ok n ↦ check_request ctype addr seg s name n c srv'
      ]

  -- `checkProtocolData`: a protocol that runs gets the SYN-ACK again, and nothing more is done.
  unfoldable pub check_protocol_data :
      ClientType → ProtocolType → Address → Segment → Text → Segment → Server → Outcome × Server
  unfolding is_live new_context start_protocol
  check_protocol_data ctype ptype addr seg name synack srv =
      if is_live addr srv.protocols
      then (
        duplicate,
        record srv { protocols = put_to addr (segment synack (some addr)) srv.protocols },
      )
      else start_protocol ctype addr seg (service ctype ptype) name
          (new_context synack addr ptype (service ctype ptype) now) srv

  -- `accept`, once the name and the types are known.
  unfoldable pub accept_typed :
      ClientType × ProtocolType → Text → Segment → Address → Server → Outcome × Server
  unfolding check_protocol_data
  accept_typed (ctype, ptype) name seg addr srv =
      elim (make_syn_ack_segment (service ctype ptype) seg none) [
        | err e ↦ (raised e, srv)
        | ok synack ↦ check_protocol_data ctype ptype addr seg name synack srv
      ]

  -- `accept`, once the datagram is read: the name is decoded for the log first.
  unfoldable pub accept_segment : Segment → Address → Server → Outcome × Server
  unfolding accept_typed
  accept_segment seg addr srv = elim (get_file_name_from_payload seg) [
    | err e ↦ (raised e, srv)
    | ok name ↦ accept_typed (get_types seg) name seg addr srv
  ]

  unfoldable pub accept : List ℕ → Address → Server → Outcome × Server
  unfolding accept_segment
  accept bytes addr srv = elim (recv_from bytes) [
    | ok seg ↦ accept_segment seg addr srv
    | err e ↦ (raised e, srv)
  ]

  -- A round of `Acceptor.run`: a client that downloads is served by an UploadHandler. The clients that
  -- have ended are dropped whatever happened.
  unfoldable pub serve : Address → Outcome → List ClientHandler → List ClientHandler
  serve addr (accepted download s) clients = add_client (new_handler (upload_handler addr)) clients
  serve addr (accepted upload s) clients = add_client (new_handler (download_handler addr)) clients
  serve addr refused clients = clients
  serve addr duplicate clients = clients
  serve addr (raised e) clients = clients

  unfoldable pub run_acceptor : List ℕ → Address → Server → Server
  unfolding accept serve
  run_acceptor bytes addr srv =
      let (outcome, srv') = accept bytes addr srv in
      record srv' { clients = reap_clients (serve addr outcome srv'.clients) }
