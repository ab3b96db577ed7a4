-- ===== src/Server/Download.antt =====
-- sync_state_client.py, acceptor_protocol.py and sync_state_server.py together: the handshake of a
-- download.
use redes_hamelin.Base.{
  ℕ, ◌≤◌, ◌<◌, ◌^◌, ◌≡◌, ◌∙◌, refl, ap, false, some, List, [], ◌∷◌, ◌++◌, arith, ok, length, All,
  PyError,
}
use redes_hamelin.Base.Dict.{insert}
use redes_hamelin.Text.{Text, encode}
use redes_hamelin.Text.Utf8.{four_bytes_of}
use redes_hamelin.Segment.{Segment, new}
use redes_hamelin.Segment.Checksum.{new_lem}
use redes_hamelin.Service.{download, ProtocolType, service}
use redes_hamelin.Service.Makes.{kind}
use redes_hamelin.Service.Kinds.{flags_of, syn-Reads, syn_ack-Reads}
use redes_hamelin.Event.{Address, address_Eq, segment, segment_timeout}
use redes_hamelin.Context.{
  Context, send_to, put, flow, schedule_timeout, cancel_timeout, set_peer_address,
}
use redes_hamelin.Context.Sending.{service-send_to}
use redes_hamelin.Server.Uploading.{sent-written, type-send_to}
use redes_hamelin.Receiver.{running, listen_one}
use redes_hamelin.Receiver.Delivery.{delivered}
use redes_hamelin.Flow.{window_of}
use redes_hamelin.Files.Manager.{FileManager}
use redes_hamelin.Files.Manager.Probe.{IsIdle}
use redes_hamelin.Sync.Client.{
  SyncClient, requesting, requested, arrived, send_syn, download_file, downloading_step,
}
use redes_hamelin.Sync.Server.{
  SyncServer, sync_server, expecting_syn, confirming, served, send_file_step, transmit,
}
use redes_hamelin.Server.{Server, reap}
use redes_hamelin.Server.Acceptor.{accepted, accept, is_live, new_context}
use redes_hamelin.Server.Downloading.{
  syn_of, syn_ack_of, asks, context_of, admits, replies, confirms, learned, learns, client_receives,
}

module _ (path_of : Text → Text) (describe : PyError → Text) (now : ℕ) where
  -- The handshake of a download by client `s`, whose socket has the address `addr`.
  pub record DownloadHandshake (p : ProtocolType) (size : ℕ) (addr : Address) (s : SyncClient)
      (srv : Server) : Type 0 where
    pub syn : Segment
    pub waiting : SyncClient
    pub syn_bytes : List ℕ
    pub protocol : SyncServer
    pub srv' : Server
    pub first : Segment
    pub reply : Segment
    pub reply_bytes : List ℕ
    pub answered : SyncServer
    pub manager : FileManager
    pub ack : Segment
    pub ack_bytes : List ℕ
    -- The client sends its SYN to the acceptor,
    pub asks : download_file s ≡ requesting syn 0 waiting
    pub syn_sent : waiting.ctx.sent ≡ (syn_bytes, s.acceptor_address) ∷ s.ctx.sent
    -- which admits it and leaves a SYN-ACK to the new protocol,
    pub admits : accept path_of describe now syn_bytes addr srv ≡ (accepted download protocol, srv')
    pub left : protocol.ctx.queue ≡ segment first (some addr) ∷ []
    -- which sends the client the size,
    pub replies :
        send_file_step path_of
          (segment first (some addr))
          (expecting_syn protocol)
          srv'.file_manager
        ≡ (confirming reply answered, manager)
    pub reply_sent : answered.ctx.sent ≡ (reply_bytes, addr) ∷ []
    pub client_hears :
        (from : Address) (c : Context)
        → listen_one reply_bytes from c ≡ running (put (segment reply (some from)) c)
    -- which the client acknowledges to where it came from; the first data then take the client to a
    -- FlowState of the file,
    pub client_flows :
        (from : Address)
        → (t : SyncClient) × (downloading_step (arrived reply from) syn 0 waiting
            ≡ requesting syn size t)
          × (t.ctx.sent ≡ (ack_bytes, from) ∷ waiting.ctx.sent)
          × ((seg : Segment) (a : Address)
              → kind seg ≡ (false, false, false, false)
              → 0 < seg.payload_length
              → (u : SyncClient) × (downloading_step (arrived seg a) syn size t ≡ requested u)
                × (u.ctx.phase ≡ flow (s.file_name, size) 1 (window_of p)))
    -- and the acknowledgement takes the server to one of the same file, base and window.
    pub server_hears :
        (from : Address) (c : Context)
        → listen_one ack_bytes from c ≡ running (put (segment ack (some from)) c)
    pub server_flows :
        (u : SyncServer) × (send_file_step path_of
            (segment ack (some addr))
            (confirming reply answered)
            manager
          ≡ (served u, manager))
        × (u.ctx.phase ≡ flow (s.file_name, size) 1 (window_of p))

  -- A client that does not expect data yet, whose name has no directory and can be encoded, in 1388
  -- bytes at most, goes through the handshake of a download with a server that has no protocol that
  -- runs for the client, where the file is there, shorter than 2^32 bytes, and nobody reads or writes
  -- it, up to the server's FlowState; the client's comes with the first data, if any come.
  pub download_handshake :
      (p : ProtocolType) (content name_bytes : List ℕ) (addr : Address) (s : SyncClient)
      (srv : Server)
      → s.ctx.service ≡ service download p
      → s.ctx.protocol_type ≡ p
      → s.expecting_data ≡ false
      → All (λ c. c < 0x110000) s.file_name
      → encode s.file_name ≡ ok name_bytes
      → length name_bytes ≤ 1388
      → length content < 2 ^ 32
      → IsIdle path_of s.file_name content srv.file_manager
      → is_live addr srv.protocols ≡ false
      → DownloadHandshake p (length content) addr s srv
  unfolding accept send_syn schedule_timeout new_context sync_server transmit learned cancel_timeout
      set_peer_address
  download_handshake p content name_bytes addr s srv same ptype new valid e fits small idle free =
      let size = length content in
      let (_, _, syn_fits) = syn-Reads download p 0 [] in
      let (_, _, ack_fits) = syn_ack-Reads download p 0 [] in
      let payload = four_bytes_of 0 ++ name_bytes in
      let (syn_bytes, syn_written, syn_read, _) =
        delivered 0 (length payload) (flags_of 0b100000 download p) payload (omega arith)
          (omega arith) (omega arith) syn_fits (new_lem 0 (flags_of 0b100000 download p) payload) in
      let (reply_bytes, reply_written, _, reply_heard) =
        delivered 0 4 (flags_of 0b110000 download p) (four_bytes_of size) (omega arith)
          (omega arith) (omega arith) ack_fits
          (new_lem 0 (flags_of 0b110000 download p) (four_bytes_of size)) in
      let (ack_bytes, ack_written, _, ack_heard) =
        delivered 0 0 (flags_of 0b110000 download p) [] (omega arith) (omega arith) (omega arith)
          ack_fits (new_lem 0 (flags_of 0b110000 download p) []) in
      let c = context_of path_of describe now p addr in
      let server = sync_server c (s.file_name, size) in
      let syn = syn_of p name_bytes in
      let reply = syn_ack_of p 0 (four_bytes_of size) in
      let (m', idle', admitted) =
        admits path_of describe now p s.file_name content name_bytes addr srv valid e idle free in
      let (m'', replied) =
        replies path_of describe now p s.file_name content server (some addr) m' refl refl small
          idle' in
      let answered : SyncServer = record server {
        ctx = send_to reply addr (schedule_timeout (segment_timeout 0) c);
      } in
      let (u, confirmed, flows) = confirms path_of describe now p reply answered (some addr) m'' in
      let waiting = send_syn syn s in
      record {
        syn = syn;
        waiting = waiting;
        syn_bytes = syn_bytes;
        protocol = server;
        srv' = record srv { protocols = insert addr c (reap srv.protocols); file_manager = m' };
        first = syn_ack_of p 1 [];
        reply = reply;
        reply_bytes = reply_bytes;
        answered = answered;
        manager = m'';
        ack = syn_ack_of p 0 [];
        ack_bytes = ack_bytes;
        asks = asks p name_bytes s same new e;
        syn_sent = sent-written syn s.acceptor_address s.ctx syn_bytes syn_written;
        admits = rw (syn_read, accept) admitted;
        left = refl;
        replies = replied;
        reply_sent =
            sent-written reply addr (schedule_timeout (segment_timeout 0) c) reply_bytes
              reply_written;
        client_hears = reply_heard;
        client_flows = λ from. (
          learned p from waiting,
          learns p size syn from waiting (service-send_to syn s.acceptor_address s.ctx ∙ same)
              small,
          sent-written (syn_ack_of p 0 []) from _ ack_bytes ack_written,
          λ seg a k long.
              (let (t, h, phase, _) =
                  client_receives size syn seg a (learned p from waiting) refl k long in
                (
                  t,
                  h,
                  phase
                      ∙ ap (λ v. flow (s.file_name, size) 1 (window_of v))
                          (type-send_to (syn_ack_of p 0 []) from _
                            ∙ type-send_to syn s.acceptor_address s.ctx
                            ∙ ptype),
                )),
        );
        server_hears = ack_heard;
        server_flows = (
          u,
          confirmed,
          flows
              ∙ ap (λ v. flow (s.file_name, size) 1 (window_of v))
                  (type-send_to reply addr (schedule_timeout (segment_timeout 0) c)),
        );
      }
