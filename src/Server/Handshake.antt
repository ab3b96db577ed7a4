-- ===== src/Server/Handshake.antt =====
-- sync_state_client.py, acceptor_protocol.py and sync_state_server.py together: the handshake of an
-- upload.
use redes_hamelin.Base.{
  ℕ, ◌≤◌, ◌<◌, ◌≡◌, ◌∙◌, refl, ap, Bool, false, some, List, [], ◌∷◌, ◌++◌, arith, ok, length, All,
  PyError,
}
use redes_hamelin.Text.{Text, encode}
use redes_hamelin.Text.Utf8.{four_bytes_of}
use redes_hamelin.Segment.{Segment}
use redes_hamelin.Segment.Checksum.{new_lem}
use redes_hamelin.Service.{upload, ProtocolType, service}
use redes_hamelin.Service.Makes.{kind}
use redes_hamelin.Service.Kinds.{flags_of, syn-Reads, ack-Reads}
use redes_hamelin.Event.{Address, address_Eq, segment}
use redes_hamelin.Context.{
  Context, send_to, put, flow, set_peer_address, change_state, schedule_timeout,
}
use redes_hamelin.Receiver.{running, listen_one}
use redes_hamelin.Receiver.Delivery.{delivered}
use redes_hamelin.Flow.{window_of}
use redes_hamelin.Sync.{to_flow_state}
use redes_hamelin.Sync.Client.{
  SyncClient, asking, asked, arrived, send_syn, ask_for_upload, uploading_step,
  change_to_flow_state,
}
use redes_hamelin.Sync.Server.{
  SyncServer, sync_server, expecting, started, download_file_step, handle_payload_for_download_file,
}
use redes_hamelin.Base.Dict.{insert}
use redes_hamelin.Server.{Server, reap}
use redes_hamelin.Server.Acceptor.{accepted, accept, max_bytes, is_live, new_context}
use redes_hamelin.Server.Uploading.{
  syn_of, asks, syn_ack_of, context_of, admits, ack_of, acknowledges, entered, enters, receives,
  type-send_to, sent-written,
}

module _ (path_of : Text → Text) (describe : PyError → Text) (now : ℕ) where
  -- The handshake of an upload by client `s`, whose socket has the address `addr`.
  pub record Handshake (p : ProtocolType) (size : ℕ) (addr : Address) (s : SyncClient)
      (srv : Server) : Type 0 where
    pub syn : Segment
    pub waiting : SyncClient
    pub syn_bytes : List ℕ
    pub protocol : SyncServer
    pub srv' : Server
    pub first : Segment
    pub answered : SyncServer
    pub ack : Segment
    pub ack_bytes : List ℕ
    -- The client sends its SYN to the acceptor,
    pub asks : ask_for_upload size s ≡ asking syn size waiting
    pub syn_sent : waiting.ctx.sent ≡ (syn_bytes, s.acceptor_address) ∷ s.ctx.sent
    -- which admits it and leaves a SYN-ACK to the new protocol,
    pub admits : accept path_of describe now syn_bytes addr srv ≡ (accepted upload protocol, srv')
    pub left : protocol.ctx.queue ≡ segment first (some addr) ∷ []
    -- which answers the client with an ACK.
    pub answers : download_file_step (segment first (some addr)) protocol ≡ expecting answered
    pub ack_sent : answered.ctx.sent ≡ (ack_bytes, addr) ∷ []
    -- The ACK reaches the client's queue and takes it to the FlowState, which sends to where it
    -- came from,
    pub hears :
        (from : Address) (c : Context)
        → listen_one ack_bytes from c ≡ running (put (segment ack (some from)) c)
    pub client_flows :
        (from : Address)
        → (s' : SyncClient) × (uploading_step (arrived ack from) syn size waiting ≡ asked s')
          × (s'.ctx.peer_address ≡ from)
          × (s'.ctx.phase ≡ flow (s.file_name, size) 1 (window_of p))
    -- and the first data take the server to a FlowState of the same file, base and window.
    pub server_flows :
        (seg : Segment)
        → kind seg ≡ (false, false, false, false)
        → 0 < seg.payload_length
        → (t : SyncServer) × (download_file_step (segment seg (some addr)) answered ≡ started t)
          × (t.ctx.phase ≡ flow (s.file_name, size) 1 (window_of p))
          × (t.ctx.queue ≡ answered.ctx.queue ++ segment seg (some addr) ∷ [])

  flows :
      (p : ProtocolType) (details : Text × ℕ) (addr : Address) (ack : Segment) (seg : Segment)
      → kind seg ≡ (false, false, false, false)
      → 0 < seg.payload_length
      → let s = record (sync_server (context_of path_of describe now p addr) details) {
        ctx = send_to ack addr (context_of path_of describe now p addr);
      } in
        (t : SyncServer) × (download_file_step (segment seg (some addr)) s ≡ started t)
        × (t.ctx.phase ≡ flow details 1 (window_of p))
        × (t.ctx.queue ≡ s.ctx.queue ++ segment seg (some addr) ∷ [])
  unfolding handle_payload_for_download_file put to_flow_state change_state sync_server new_context
  flows p details addr ack seg k long =
      let s : SyncServer = record (sync_server (context_of path_of describe now p addr) details) {
        ctx = send_to ack addr (context_of path_of describe now p addr);
      } in
      (
        handle_payload_for_download_file seg s,
        receives seg s (ap (λ (x : Bool × Bool × Bool × Bool). x.3) k)
            (ap (λ (x : Bool × Bool × Bool × Bool). x.2) k)
            (ap (λ (x : Bool × Bool × Bool × Bool). x.0) k) long,
        ap (λ v. flow details 1 (window_of v))
            (type-send_to ack addr (context_of path_of describe now p addr)),
        refl,
      )

  -- A client whose name is a text that is not empty and can be encoded, in 1388 bytes at most, and a
  -- file of 20 MB at most go through the handshake with a server that has no protocol that runs for
  -- the client, up to the client's FlowState; the server's comes with the first data, if any come.
  pub upload_handshake :
      (p : ProtocolType) (size : ℕ) (name_bytes : List ℕ) (addr : Address) (s : SyncClient)
      (srv : Server)
      → s.ctx.service ≡ service upload p
      → s.ctx.protocol_type ≡ p
      → All (λ c. c < 0x110000) s.file_name
      → 1 ≤ length s.file_name
      → encode s.file_name ≡ ok name_bytes
      → length name_bytes ≤ 1388
      → size ≤ max_bytes
      → is_live addr srv.protocols ≡ false
      → Handshake p size addr s srv
  unfolding accept send_syn schedule_timeout new_context sync_server change_to_flow_state
      to_flow_state change_state set_peer_address
  upload_handshake p size name_bytes addr s srv same ptype valid named e fits small free =
      let (_, _, syn_fits) = syn-Reads upload p 0 [] in
      let (_, _, ack_fits) = ack-Reads upload p 0 [] in
      let payload = four_bytes_of size ++ name_bytes in
      let (syn_bytes, syn_written, syn_read, _) =
        delivered 0 (length payload) (flags_of 0b100000 upload p) payload (omega arith)
          (omega arith) (omega arith) syn_fits (new_lem 0 (flags_of 0b100000 upload p) payload) in
      let (ack_bytes, ack_written, _, heard) =
        delivered 0 0 (flags_of 0b010000 upload p) [] (omega arith) (omega arith) (omega arith)
          ack_fits (new_lem 0 (flags_of 0b010000 upload p) []) in
      let c = context_of path_of describe now p addr in
      let server = sync_server c (s.file_name, size) in
      let syn = syn_of p size name_bytes in
      record {
        syn = syn;
        waiting = send_syn syn s;
        syn_bytes = syn_bytes;
        protocol = server;
        srv' = record srv { protocols = insert addr c (reap srv.protocols) };
        first = syn_ack_of p;
        answered = record server { ctx = send_to (ack_of p) addr c };
        ack = ack_of p;
        ack_bytes = ack_bytes;
        asks = asks p size name_bytes s same valid e (omega arith);
        syn_sent = sent-written syn s.acceptor_address s.ctx syn_bytes syn_written;
        admits =
            rw (syn_read, accept)
              (admits path_of describe now p s.file_name size name_bytes addr srv valid e small
                free);
        left = refl;
        answers = acknowledges p server refl named;
        ack_sent = sent-written (ack_of p) addr c ack_bytes ack_written;
        hears = heard;
        client_flows = λ from. (
          entered from size (send_syn syn s),
          enters p from syn size (send_syn syn s),
          refl,
          ap (λ v. flow (s.file_name, size) 1 (window_of v))
              (type-send_to syn s.acceptor_address s.ctx ∙ ptype),
        );
        server_flows = λ seg k long. flows p (s.file_name, size) addr (ack_of p) seg k long;
      }
