-- ===== src/Server/Uploading.antt =====
-- The steps of the handshake of an upload, each on its own (sync_state_client.py,
-- acceptor_protocol.py, sync_state_server.py).
use redes_hamelin.Base.{
  ℕ, ◌+◌, ◌≤◌, ◌<◌, ◌^◌, ◌≡◌, ◌∙◌, ap, Bool, true, false, none, some, List, [], ◌∷◌, ◌++◌, arith,
  ok, length, All, PyError, Result-cases, inl, inr, le→ltb,
}
use redes_hamelin.Text.{Text, encode}
use redes_hamelin.Text.Utf8.{
  decode-encode, four_bytes_of, to_bytes4_lem, int_from_bytes-four_bytes_of,
}
use redes_hamelin.Segment.{Segment, new, to_bytes, is_fin, is_err, is_syn, is_ack}
use redes_hamelin.Segment.Checksum.{new_lem}
use redes_hamelin.Service.{
  upload, ProtocolType, service, get_types, get_file_name_from_payload, get_file_size_from_payload,
  make_syn_ack_segment,
}
use redes_hamelin.Service.Client.{make_synpack_for_upload}
use redes_hamelin.Service.Server.{make_ack_segment_for_download}
use redes_hamelin.Service.Kinds.{segment_of, flags_of, syn-Reads, ack-Reads, syn_ack-Reads}
use redes_hamelin.Event.{Address, address_Eq, address_eq_iff, segment}
use redes_hamelin.Context.{Context, send_to, set_peer_address}
use redes_hamelin.Sync.{log_error}
use redes_hamelin.Sync.Client.{
  SyncClient, asking, asked, arrived, send_syn, make_syn, ask_for_upload, uploading_step,
  handle_segment_for_send_file, answer_to_syn, change_to_flow_state,
}
use redes_hamelin.Sync.Server.{
  SyncServer, sync_server, expecting, started, download_file_step, get_segment_for_download_file,
  by_flags, handle_syn_segment_for_download_file, learn_details, acknowledge_syn,
  handle_payload_for_download_file,
}
use redes_hamelin.Base.Dict.{insert}
use redes_hamelin.Server.{Server, reap}
use redes_hamelin.Server.Acceptor.{
  accepted, accept_segment, accept_typed, max_bytes, is_live, new_context, check_protocol_data,
  start_protocol, size_of_request, check_request, refusal, register,
}

-- The SYN of an upload, for a name of these bytes.
abbrev pub syn_of : ProtocolType → ℕ → List ℕ → Segment
syn_of p size name_bytes =
    segment_of 0 (flags_of 0b100000 upload p) (four_bytes_of size ++ name_bytes)

make_synpack_for_upload-syn_of :
    (p : ProtocolType) (name : Text) (size : ℕ) (name_bytes : List ℕ)
    → encode name ≡ ok name_bytes
    → size < 2 ^ 32
    → make_synpack_for_upload (service upload p) name size ≡ ok (syn_of p size name_bytes)
unfolding make_synpack_for_upload
make_synpack_for_upload-syn_of p name size name_bytes e small =
    let payload = four_bytes_of size ++ name_bytes in
    let len : 4 + length name_bytes ≡ length payload = omega arith in
    rw (e, to_bytes4_lem size small, make_synpack_for_upload)
      (ap (λ n. new 0 n (flags_of 0b100000 upload p) payload) len
        ∙ new_lem 0 (flags_of 0b100000 upload p) payload)

name_in-syn_of :
    (p : ProtocolType) (name : Text) (size : ℕ) (name_bytes : List ℕ)
    → All (λ c. c < 0x110000) name
    → encode name ≡ ok name_bytes
    → get_file_name_from_payload (syn_of p size name_bytes) ≡ ok name
unfolding get_file_name_from_payload
name_in-syn_of p name size name_bytes h e = decode-encode name name_bytes h e

make_syn-syn_of :
    (p : ProtocolType) (size : ℕ) (name_bytes : List ℕ) (s : SyncClient)
    → s.ctx.service ≡ service upload p
    → All (λ c. c < 0x110000) s.file_name
    → encode s.file_name ≡ ok name_bytes
    → size < 2 ^ 32
    → make_syn size s ≡ ok (syn_of p size name_bytes)
unfolding make_syn
make_syn-syn_of p size name_bytes s same h e small =
    let made : make_synpack_for_upload s.ctx.service s.file_name size
        ≡ ok (syn_of p size name_bytes) =
      ap (λ v. make_synpack_for_upload v s.file_name size) same
      ∙ make_synpack_for_upload-syn_of p s.file_name size name_bytes e small in
    rw (made, make_syn, name_in-syn_of p s.file_name size name_bytes h e)

-- The client is at its first `get`, with its SYN sent.
pub asks :
    (p : ProtocolType) (size : ℕ) (name_bytes : List ℕ) (s : SyncClient)
    → s.ctx.service ≡ service upload p
    → All (λ c. c < 0x110000) s.file_name
    → encode s.file_name ≡ ok name_bytes
    → size < 2 ^ 32
    → ask_for_upload size s
      ≡ asking (syn_of p size name_bytes) size (send_syn (syn_of p size name_bytes) s)
unfolding ask_for_upload
asks p size name_bytes s same h e small =
    rw (make_syn-syn_of p size name_bytes s same h e small, ask_for_upload)

abbrev pub syn_ack_of : ProtocolType → Segment
syn_ack_of p = segment_of 1 (flags_of 0b110000 upload p) []

size_in-syn_of :
    (p : ProtocolType) (size : ℕ) (name_bytes : List ℕ)
    → size < 2 ^ 32
    → get_file_size_from_payload (syn_of p size name_bytes) ≡ size
unfolding get_file_size_from_payload
size_in-syn_of p size name_bytes h = int_from_bytes-four_bytes_of size h

make_syn_ack_segment-syn_ack_of :
    (p : ProtocolType) (size : ℕ) (name_bytes : List ℕ)
    → make_syn_ack_segment (service upload p) (syn_of p size name_bytes) none ≡ ok (syn_ack_of p)
unfolding make_syn_ack_segment
make_syn_ack_segment-syn_ack_of p size name_bytes = new_lem 1 (flags_of 0b110000 upload p) []

module _ (path_of : Text → Text) (describe : PyError → Text) (now : ℕ) where
  -- The context of the protocol that the acceptor makes for the upload.
  abbrev pub context_of : ProtocolType → Address → Context
  context_of p addr = new_context (syn_ack_of p) addr p (service upload p) now

  admits_typed :
      (p : ProtocolType) (name : Text) (size : ℕ) (name_bytes : List ℕ) (addr : Address)
      (srv : Server)
      → size ≤ max_bytes
      → is_live addr srv.protocols ≡ false
      → accept_typed path_of describe now (upload, p) name (syn_of p size name_bytes) addr srv ≡ (
        accepted upload (sync_server (context_of p addr) (name, size)),
        record srv { protocols = insert addr (context_of p addr) (reap srv.protocols) },
      )
  unfolding accept_typed check_protocol_data start_protocol size_of_request check_request refusal
      register
  admits_typed p name size name_bytes addr srv small free = rw (
    make_syn_ack_segment-syn_ack_of p size name_bytes,
    accept_typed,
    free,
    check_protocol_data,
    start_protocol,
    size_of_request,
    size_in-syn_of p size name_bytes (omega arith),
    check_request,
    refusal,
    le→ltb max_bytes size small,
    size_in-syn_of p size name_bytes (omega arith),
  )

  -- A SYN of an upload of at most 20 MB, from an address that has no protocol that runs, is admitted.
  pub admits :
      (p : ProtocolType) (name : Text) (size : ℕ) (name_bytes : List ℕ) (addr : Address)
      (srv : Server)
      → All (λ c. c < 0x110000) name
      → encode name ≡ ok name_bytes
      → size ≤ max_bytes
      → is_live addr srv.protocols ≡ false
      → accept_segment path_of describe now (syn_of p size name_bytes) addr srv ≡ (
        accepted upload (sync_server (context_of p addr) (name, size)),
        record srv { protocols = insert addr (context_of p addr) (reap srv.protocols) },
      )
  unfolding accept_segment
  admits p name size name_bytes addr srv h e small free =
      let types : get_types (syn_of p size name_bytes) ≡ (upload, p) =
        (syn-Reads upload p 0 (four_bytes_of size ++ name_bytes)).1 in
      rw (name_in-syn_of p name size name_bytes h e, accept_segment)
        (ap (λ t. accept_typed path_of describe now t name (syn_of p size name_bytes) addr srv)
            types
          ∙ admits_typed p name size name_bytes addr srv small free)

abbrev pub ack_of : ProtocolType → Segment
ack_of p = segment_of 0 (flags_of 0b010000 upload p) []

-- A segment that counts, from the peer and no error.
from_peer :
    (seg : Segment) (s : SyncServer)
    → is_err seg ≡ false
    → download_file_step (segment seg (some s.peer_address)) s ≡ by_flags seg s
unfolding download_file_step get_segment_for_download_file log_error
from_peer seg s h = ground (arith, address_eq_iff s.peer_address s.peer_address, h)

-- The server that has a file's name answers the SYN-ACK that the acceptor left for it.
pub acknowledges :
    (p : ProtocolType) (s : SyncServer)
    → s.ctx.service ≡ service upload p
    → 1 ≤ length s.file_details.0
    → download_file_step (segment (syn_ack_of p) (some s.peer_address)) s
      ≡ expecting (record s { ctx = send_to (ack_of p) s.peer_address s.ctx })
unfolding by_flags handle_syn_segment_for_download_file learn_details acknowledge_syn
    make_ack_segment_for_download
acknowledges p s same named =
    let (k, _, _) = syn_ack-Reads upload p 1 [] in
    let made = new_lem 0 (flags_of 0b010000 upload p) [] in
    from_peer (syn_ack_of p) s (ground (arith, k)) ∙ ground (arith, k, made, same, named)

-- The client goes on to send the file, to the address that the answer came from.
abbrev pub entered : Address → ℕ → SyncClient → SyncClient
entered from size s = change_to_flow_state size 1 (record s { ctx = set_peer_address from s.ctx })

pub enters :
    (p : ProtocolType) (from : Address) (syn : Segment) (size : ℕ) (s : SyncClient)
    → uploading_step (arrived (ack_of p) from) syn size s ≡ asked (entered from size s)
unfolding uploading_step handle_segment_for_send_file answer_to_syn
enters p from syn size s =
    let (k, _, _) = ack-Reads upload p 0 [] in
    let acks : is_ack (ack_of p) ≡ true = ap (λ (x : Bool × Bool × Bool × Bool). x.1) k in
    rw (acks, uploading_step, handle_segment_for_send_file, answer_to_syn)

-- The server goes on to receive it with the first data, which it leaves on the queue.
pub receives :
    (seg : Segment) (s : SyncServer)
    → is_fin seg ≡ false
    → is_err seg ≡ false
    → is_syn seg ≡ false
    → 0 < seg.payload_length
    → download_file_step (segment seg (some s.peer_address)) s
      ≡ started (handle_payload_for_download_file seg s)
unfolding by_flags
receives seg s hf he hs long = from_peer seg s he ∙ ground (arith, hf, he, hs, long)

pub type-send_to :
    (seg : Segment) (a : Address) (c : Context) → (send_to seg a c).protocol_type ≡ c.protocol_type
unfolding send_to
type-send_to seg a c = elim (Result-cases (to_bytes seg)) [
  | inl (bytes, e) ↦ rw (e, send_to)
  | inr (x, e) ↦ rw (e, send_to)
]

-- What a segment adds to the datagrams sent.
pub sent-written :
    (seg : Segment) (a : Address) (c : Context) (bytes : List ℕ)
    → to_bytes seg ≡ ok bytes
    → (send_to seg a c).sent ≡ (bytes, a) ∷ c.sent
unfolding send_to
sent-written seg a c bytes e = rw (e, send_to)
