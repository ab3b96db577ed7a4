-- ===== src/Server/Downloading.antt =====
-- The steps of the handshake of a download, each on its own (sync_state_client.py,
-- acceptor_protocol.py, sync_state_server.py).
use redes_hamelin.Base.{
  ℕ, ◌+◌, ◌<◌, ◌^◌, ◌≡◌, ◌∙◌, refl, ap, true, false, Option, none, some, List, [], ◌∷◌, ◌++◌, arith,
  ok, length, All, PyError,
}
use redes_hamelin.Base.Dict.{insert}
use redes_hamelin.Text.{Text, encode, decode}
use redes_hamelin.Text.Utf8.{
  decode-encode, four_bytes_of, to_bytes4_lem, int_from_bytes-four_bytes_of,
}
use redes_hamelin.Segment.{Segment, new}
use redes_hamelin.Segment.Checksum.{new_lem}
use redes_hamelin.Service.{
  download, ProtocolType, service, get_types, get_file_name_from_payload, make_syn_ack_segment,
}
use redes_hamelin.Service.Client.{
  make_synpack_for_download, make_syn_ack_for_payload_size,
  get_file_size_from_syn_segment_for_download,
}
use redes_hamelin.Service.Server.{make_syn_ack_payload_segment_for_upload}
use redes_hamelin.Service.Makes.{kind}
use redes_hamelin.Service.Kinds.{segment_of, flags_of, syn-Reads, syn_ack-Reads}
use redes_hamelin.Event.{Address, address_Eq, segment, segment_timeout}
use redes_hamelin.Context.{
  Context, send_to, put, flow, cancel_timeout, set_peer_address, change_state,
}
use redes_hamelin.Flow.{window_of}
use redes_hamelin.Files.Reader.{open_reader}
use redes_hamelin.Files.Manager.{FileManager, exists, open_for_reading, release_for_reader}
use redes_hamelin.Files.Manager.Probe.{IsIdle, opens, closes, probed-IsIdle}
use redes_hamelin.Sync.{to_flow_state, log_error}
use redes_hamelin.Sync.Client.{
  SyncClient, requesting, requested, arrived, send_syn, request, download_file, downloading_step,
  receive_segment, handle_segment_for_download, acknowledge_size, take_size, take_data,
  change_to_flow_state,
}
use redes_hamelin.Sync.Server.{
  SyncServer, sync_server, expecting_syn, confirming, served, send_file_step, syn_arrived,
  look_up_size, reply_size, transmit, confirmation_arrived,
}
use redes_hamelin.Server.{Server, reap}
use redes_hamelin.Server.Acceptor.{
  accepted, accept_segment, accept_typed, is_live, new_context, check_protocol_data, start_protocol,
  size_of_request, check_request, refusal, register,
}

abbrev pub syn_of : ProtocolType → List ℕ → Segment
syn_of p name_bytes = segment_of 0 (flags_of 0b100000 download p) (four_bytes_of 0 ++ name_bytes)

-- A SYN-ACK: what the acceptor leaves, the server's with the size, and the client's.
abbrev pub syn_ack_of : ProtocolType → ℕ → List ℕ → Segment
syn_ack_of p seq payload = segment_of seq (flags_of 0b110000 download p) payload

make_synpack_for_download-syn_of :
    (p : ProtocolType) (name : Text) (name_bytes : List ℕ)
    → encode name ≡ ok name_bytes
    → make_synpack_for_download (service download p) name ≡ ok (syn_of p name_bytes)
unfolding make_synpack_for_download
make_synpack_for_download-syn_of p name name_bytes e =
    let payload = four_bytes_of 0 ++ name_bytes in
    let len : 4 + length name_bytes ≡ length payload = omega arith in
    rw (e, to_bytes4_lem 0 (omega arith), make_synpack_for_download)
      (ap (λ n. new 0 n (flags_of 0b100000 download p) payload) len
        ∙ new_lem 0 (flags_of 0b100000 download p) payload)

decode-empty : decode [] ≡ ok []
unfolding encode
decode-empty = decode-encode [] [] tt refl

-- The client is at its first `get`.
pub asks :
    (p : ProtocolType) (name_bytes : List ℕ) (s : SyncClient)
    → s.ctx.service ≡ service download p
    → s.expecting_data ≡ false
    → encode s.file_name ≡ ok name_bytes
    → download_file s ≡ requesting (syn_of p name_bytes) 0 (send_syn (syn_of p name_bytes) s)
unfolding download_file request
asks p name_bytes s same new e =
    let made : make_synpack_for_download s.ctx.service s.file_name ≡ ok (syn_of p name_bytes) =
      ap (λ v. make_synpack_for_download v s.file_name) same
      ∙ make_synpack_for_download-syn_of p s.file_name name_bytes e in
    ground (arith, made, new)

module _ (path_of : Text → Text) (describe : PyError → Text) (now : ℕ) where
  abbrev pub context_of : ProtocolType → Address → Context
  context_of p addr = new_context (syn_ack_of p 1 []) addr p (service download p) now

  exists-IsIdle :
      (name : Text) (content : List ℕ) (m : FileManager)
      → IsIdle path_of name content m
      → exists path_of name m ≡ true
  unfolding exists
  exists-IsIdle name content m h = ground (arith, h.there)

  probes :
      (name : Text) (content : List ℕ) (seg : Segment) (m : FileManager)
      → IsIdle path_of name content m
      → (m' : FileManager) × IsIdle path_of name content m'
        × (size_of_request path_of describe now download name seg m ≡ (ok (length content), m'))
  unfolding size_of_request open_reader
  probes name content seg m h = (
    _,
    probed-IsIdle path_of name content m h,
    ground (arith, opens path_of name content m h, closes path_of name content m h),
  )

  -- A SYN of a download of an idle file, from an address that has no protocol that runs.
  admits_typed :
      (p : ProtocolType) (name : Text) (content name_bytes : List ℕ) (addr : Address) (srv : Server)
      → IsIdle path_of name content srv.file_manager
      → is_live addr srv.protocols ≡ false
      → (m' : FileManager) × IsIdle path_of name content m'
        × (accept_typed path_of describe now (download, p) name (syn_of p name_bytes) addr srv ≡ (
          accepted download (sync_server (context_of p addr) (name, length content)),
          record srv {
            protocols = insert addr (context_of p addr) (reap srv.protocols);
            file_manager = m';
          },
        ))
  unfolding accept_typed check_protocol_data start_protocol check_request refusal register
      make_syn_ack_segment
  admits_typed p name content name_bytes addr srv h free =
      let (m', idle, e) = probes name content (syn_of p name_bytes) srv.file_manager h in
      let made : make_syn_ack_segment (service download p) (syn_of p name_bytes) none
          ≡ ok (syn_ack_of p 1 []) =
        new_lem 1 (flags_of 0b110000 download p) [] in
      (m', idle, ground (arith, made, free, e, exists-IsIdle name content m' idle))

  pub admits :
      (p : ProtocolType) (name : Text) (content name_bytes : List ℕ) (addr : Address) (srv : Server)
      → All (λ c. c < 0x110000) name
      → encode name ≡ ok name_bytes
      → IsIdle path_of name content srv.file_manager
      → is_live addr srv.protocols ≡ false
      → (m' : FileManager) × IsIdle path_of name content m'
        × (accept_segment path_of describe now (syn_of p name_bytes) addr srv ≡ (
          accepted download (sync_server (context_of p addr) (name, length content)),
          record srv {
            protocols = insert addr (context_of p addr) (reap srv.protocols);
            file_manager = m';
          },
        ))
  unfolding accept_segment get_file_name_from_payload
  admits p name content name_bytes addr srv valid e h free =
      let types : get_types (syn_of p name_bytes) ≡ (download, p) =
        (syn-Reads download p 0 (four_bytes_of 0 ++ name_bytes)).1 in
      let (m', idle, done) = admits_typed p name content name_bytes addr srv h free in
      (
        m',
        idle,
        rw (decode-encode name name_bytes valid e, accept_segment)
            (ap (λ t. accept_typed path_of describe now t name (syn_of p name_bytes) addr srv) types
              ∙ done),
      )

  -- The server that reads the SYN-ACK which the acceptor left answers with the size.
  pub replies :
      (p : ProtocolType) (name : Text) (content : List ℕ) (s : SyncServer) (addr : Option Address)
      (m : FileManager)
      → s.ctx.service ≡ service download p
      → s.file_details.0 ≡ name
      → length content < 2 ^ 32
      → IsIdle path_of name content m
      → (m' : FileManager) × (send_file_step path_of
            (segment (syn_ack_of p 1 []) addr)
            (expecting_syn s)
            m
          ≡ (transmit (syn_ack_of p 0 (four_bytes_of (length content))) s, m'))
  unfolding send_file_step log_error syn_arrived look_up_size reply_size
      make_syn_ack_payload_segment_for_upload open_reader
  replies p name content s addr m same named small h =
      let size = length content in
      let (k, _, _) = syn_ack-Reads download p 1 [] in
      let made : make_syn_ack_payload_segment_for_upload s.ctx.service size
          ≡ ok (syn_ack_of p 0 (four_bytes_of size)) =
        ap (λ v. make_syn_ack_payload_segment_for_upload v size) same
        ∙ rw (to_bytes4_lem size small, make_syn_ack_payload_segment_for_upload)
            (new_lem 0 (flags_of 0b110000 download p) (four_bytes_of size)) in
      let opened = ap (λ n. open_for_reading path_of n m) named ∙ opens path_of name content m h in
      (
        release_for_reader s.file_details.0 (open_for_reading path_of s.file_details.0 m).1,
        ground (arith, k, made, opened, decode-empty),
      )

  -- The client's SYN-ACK ends the server's loop.
  pub confirms :
      (p : ProtocolType) (reply : Segment) (s : SyncServer) (addr : Option Address)
      (m : FileManager)
      → (t : SyncServer) × (send_file_step path_of
            (segment (syn_ack_of p 0 []) addr)
            (confirming reply s)
            m
          ≡ (served t, m))
        × (t.ctx.phase ≡ flow s.file_details 1 (window_of s.ctx.protocol_type))
  unfolding send_file_step log_error confirmation_arrived to_flow_state cancel_timeout change_state
  confirms p reply s addr m =
      let (k, _, _) = syn_ack-Reads download p 0 [] in
      (
        record s {
          ctx =
              to_flow_state s.file_details 1
                (cancel_timeout (segment_timeout reply.sequence_number) s.ctx);
        },
        ground (arith, k),
        refl,
      )

-- The client that gets the size acknowledges it, and waits for the data.
unfoldable pub learned : ProtocolType → Address → SyncClient → SyncClient
learned p from s = record s {
  expecting_data = true;
  ctx =
      send_to (syn_ack_of p 0 []) from
        (set_peer_address from (cancel_timeout (segment_timeout 0) s.ctx));
}

pub learns :
    (p : ProtocolType) (size : ℕ) (syn : Segment) (from : Address) (s : SyncClient)
    → s.ctx.service ≡ service download p
    → size < 2 ^ 32
    → downloading_step (arrived (syn_ack_of p 0 (four_bytes_of size)) from) syn 0 s
      ≡ requesting syn size (learned p from s)
unfolding downloading_step log_error receive_segment handle_segment_for_download acknowledge_size
    take_size take_data request learned set_peer_address cancel_timeout
    make_syn_ack_for_payload_size get_file_size_from_syn_segment_for_download
learns p size syn from s same small =
    let (k, _, _) = syn_ack-Reads download p 0 (four_bytes_of size) in
    let made = new_lem 0 (flags_of 0b110000 download p) [] in
    ground (arith, k, made, same, int_from_bytes-four_bytes_of size small)

-- The client that expects data goes on to receive the file with the first of them.
pub client_receives :
    (size : ℕ) (syn seg : Segment) (from : Address) (s : SyncClient)
    → s.expecting_data ≡ true
    → kind seg ≡ (false, false, false, false)
    → 0 < seg.payload_length
    → (t : SyncClient) × (downloading_step (arrived seg from) syn size s ≡ requested t)
      × (t.ctx.phase ≡ flow (s.file_name, size) 1 (window_of s.ctx.protocol_type))
      × (t.ctx.queue ≡ s.ctx.queue ++ segment seg (some s.ctx.peer_address) ∷ [])
unfolding downloading_step log_error receive_segment handle_segment_for_download take_data
    change_to_flow_state to_flow_state change_state put cancel_timeout
client_receives size syn seg from s ready k long = (
  change_to_flow_state size 1 (record s {
    ctx = put (segment seg (some s.ctx.peer_address)) (cancel_timeout (segment_timeout 0) s.ctx);
  }),
  ground (arith, k, ready, long),
  refl,
  refl,
)
