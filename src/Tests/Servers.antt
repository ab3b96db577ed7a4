-- ===== src/Tests/Servers.antt =====
-- A client at port 7000 uploads the file "a", of three bytes, to a server, and ends.
use redes_hamelin.Base.{
  ℕ, ◌≡◌, inl, refl, true, false, some, none, List, [], ◌∷◌, arith, ok, err, ◌>>=◌, PyError,
  value_error,
}
use redes_hamelin.Base.Dict.{Dict, lookup}
use redes_hamelin.Base.Dict
use redes_hamelin.Text.{Text, text_Eq, text_eq, encode}
use redes_hamelin.Segment.{Segment, is_syn, is_ack, is_err, is_fin, to_bytes}
use redes_hamelin.Service.{upload, stop_and_wait, service, make_fin_segment}
use redes_hamelin.Service.Makes.{kind}
use redes_hamelin.Event.{address_Eq, segment, abort}
use redes_hamelin.Context.{Context, halt, is_halt, put, change_state, cancel_timeout}
use redes_hamelin.Receiver.{running, listen_one, recv_from}
use redes_hamelin.Files.Manager.{
  FileManager, create, basename, has_slash, release, open_for_writing, start_writer,
}
use redes_hamelin.Files.Manager.Lock.{Consistent, holders}
use redes_hamelin.Files.Manager.Calls.{
  Call, opens_for_reading, opens_for_writing, releases_for_reader, after_all, all_actions, LockRun,
  calls_follow_lock,
}
use redes_hamelin.Files.Manager.Names.{slashed_release}
use redes_hamelin.Sync.Client.{SyncClient, sync_client}
use redes_hamelin.Sync.Server.{SyncServer}
use redes_hamelin.Sync.Server.{confirming, send_file_step}
use redes_hamelin.Sync.Server.Confirming.{rounds, fin_never_ends}
use redes_hamelin.Context.{fin}
use redes_hamelin.Server.{Server}
use redes_hamelin.Server.Acceptor.{connect, is_live, accept}
use redes_hamelin.Server.Protocols.{Kept, accept-Kept}
use redes_hamelin.Server.Admission.{Admitted, accept-Admitted}
use redes_hamelin.Server.Disconnector.{disconnect}
use redes_hamelin.Server.Farewell.{close_completes}
use redes_hamelin.Server.Handshake.{Handshake, upload_handshake}
use redes_hamelin.Fin.{step, waiting, finished}
use redes_hamelin.Timer.{rto}
use redes_hamelin.Timer
use redes_hamelin.Files.Writer.{FileWriter, open_file, write_at}
use redes_hamelin.Fin.Resending.{own_fin_goes_out}
use redes_hamelin.Tests.Datagrams.{context}

abbrev pub path_of : Text → Text
path_of name = 100 ∷ 47 ∷ name

abbrev pub describe : PyError → Text
describe e = 33 ∷ []

abbrev pub manager : FileManager
manager = create ((100 ∷ 47 ∷ 98 ∷ [], 1 ∷ 2 ∷ []) ∷ [])

abbrev client : SyncClient
client = connect ([], 9000) upload stop_and_wait (97 ∷ []) 0

abbrev pub new_server : Server
new_server = record {
  protocols = [];
  file_manager = manager;
  clients = [];
  refusals = [];
  farewells = [];
}

pub no_protocol : is_live ([], 7000) new_server.protocols ≡ false
unfolding is_live lookup
no_protocol = refl

encoded : encode (97 ∷ []) ≡ ok (97 ∷ [])
unfolding encode
encoded = refl

shaken : Handshake path_of describe 5 stop_and_wait 3 ([], 7000) client new_server
unfolding connect sync_client
shaken =
    upload_handshake path_of describe 5 stop_and_wait 3 (97 ∷ []) ([], 7000) client new_server refl
      refl (omega arith) (omega arith) encoded (omega arith) (omega arith) no_protocol

upload_handshake_example : Handshake path_of describe 5 stop_and_wait 3 ([], 7000) client new_server
unfolding connect sync_client
upload_handshake_example =
    upload_handshake path_of describe 5 stop_and_wait 3 (97 ∷ []) ([], 7000) client new_server refl
      refl (omega arith) (omega arith) encoded (omega arith) (omega arith) no_protocol

accept-Admitted_example : Admitted path_of describe 5 ([], 7000) upload shaken.protocol shaken.srv'
accept-Admitted_example =
    accept-Admitted path_of describe 5 shaken.syn_bytes ([], 7000) new_server shaken.srv' upload
      shaken.protocol shaken.admits

-- The same server, with a protocol of the client that runs.
abbrev busy : Server
busy = record new_server { protocols = (([], 7000), context) ∷ [] }

there : lookup ([], 7000) busy.protocols ≡ some context
unfolding lookup text_eq
there = refl

live : is_halt context.phase ≡ false
unfolding is_halt
live = refl

accept-Kept_example :
    Kept ([], 7000) context (accept path_of describe 5 shaken.syn_bytes ([], 7000) busy).1.protocols
accept-Kept_example =
    accept-Kept path_of describe 5 ([], 7000) shaken.syn_bytes ([], 7000) busy there live

close_completes_example :
    (bytes answer : List ℕ) × (ack : Segment) × ((make_fin_segment (service upload stop_and_wait) 4
        >>= to_bytes)
      ≡ ok bytes)
    × (lookup ([], 7000) (disconnect bytes ([], 7000) busy).protocols ≡ some (put abort context))
    × ((disconnect bytes ([], 7000) busy).farewells ≡ (answer, ([], 7000)) ∷ busy.farewells)
    × ((c : Context) (seg : Segment)
        → is_err seg ≡ false
        → let e = segment ack (some c.disconnector_address) in
          (listen_one answer c.disconnector_address c ≡ running (put e c))
          × (step e (some seg) c ≡ finished (change_state halt (cancel_timeout e c))))
close_completes_example =
    close_completes upload stop_and_wait 4 ([], 7000) busy context (omega arith) there

abbrev a_fin : Segment
a_fin = record { sequence_number = 5; payload_length = 0; flags = 1; payload = []; checksum = 0 }

a_fin-kind : kind a_fin ≡ (false, false, false, true)
unfolding is_syn is_ack is_err is_fin
a_fin-kind = refl

own_fin_goes_out_example :
    (bytes : List ℕ) × (seg : Segment) × (recv_from bytes ≡ ok seg)
    × (kind seg ≡ (false, false, false, true))
    × (step (segment a_fin none) none context
        ≡ waiting (some a_fin) (record context {
          sent = (bytes, context.disconnector_address) ∷ context.sent;
          timer = Timer.schedule context.now rto (segment a_fin none) context.timer;
        }))
own_fin_goes_out_example =
    own_fin_goes_out upload stop_and_wait a_fin none context (inl refl) a_fin-kind refl
      (omega arith)

abbrev serving : SyncServer
serving = record { ctx = context; peer_address = ([], 7000); file_details = (98 ∷ [], 2) }

fin_never_ends_example :
    let after =
      send_file_step path_of (segment a_fin (some ([], 7000))) (confirming a_fin serving) manager in
    (s' : SyncServer) × (own : Segment) × (rounds path_of 3 after.0 after.1
      ≡ (confirming a_fin s', manager))
    × (s'.ctx.phase ≡ fin)
    × (s'.ctx.queue ≡ segment own none ∷ [])
    × (kind own ≡ (false, false, false, true))
fin_never_ends_example =
    fin_never_ends path_of upload stop_and_wait a_fin a_fin (some ([], 7000)) serving manager 3 refl
      refl a_fin-kind

abbrev requests : List Call
requests =
    opens_for_reading (98 ∷ []) ∷ opens_for_writing (98 ∷ []) 4 ∷ releases_for_reader (98 ∷ []) ∷ []

calls_follow_lock_example :
    Consistent (after_all path_of requests manager)
    × LockRun
        (holders manager)
        (all_actions path_of requests manager)
        (holders (after_all path_of requests manager))
calls_follow_lock_example =
    calls_follow_lock path_of ((100 ∷ 47 ∷ 98 ∷ [], 1 ∷ 2 ∷ []) ∷ []) requests

-- The name "c/d".
abbrev slashed : Text
slashed = 99 ∷ 47 ∷ 100 ∷ []

abbrev writer : FileWriter
writer = record { file_size = 2; content = 0 ∷ 0 ∷ [] }

abbrev writing : FileManager
writing = record manager {
  files = Dict.insert (100 ∷ 47 ∷ 100 ∷ []) writer.content manager.files;
  active_files = Dict.insert (100 ∷ []) writer [];
}

written : open_for_writing path_of slashed 2 manager ≡ (ok writer, writing)
unfolding open_for_writing basename has_slash create lookup start_writer open_file write_at
    Dict.insert
written = refl

slashes : has_slash slashed ≡ true
unfolding has_slash
slashes = refl

unread : lookup slashed manager.reading_files ≡ none
unfolding lookup create
unread = refl

slashed_release_example :
    (m'' : FileManager) × (release slashed writing ≡ ok m'')
    × (open_for_writing path_of slashed 7 m'' ≡ (err value_error, m''))
slashed_release_example =
    slashed_release path_of slashed 2 7 manager writing writer slashes unread written
