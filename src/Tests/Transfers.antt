-- ===== src/Tests/Transfers.antt =====
-- A transfer of one chunk of three bytes by selective repeat, run to its end.
use redes_hamelin.Base.{
  some, ◌≤◌, take, replicate, ◌-◌, ◌++◌, length, ℕ, nat_Eq, ◌≡◌, refl, List, [], ◌∷◌, none, first,
  ok,
}
use redes_hamelin.Segment.{
  Segment, new, add_words, last_byte, calculate_checksum, to_bytes, pack_short, from_bytes,
  unpack_header, is_ack, is_err, is_fin, is_syn,
}
use redes_hamelin.Base.Dict.{insert, lookup, erase}
use redes_hamelin.Service.{
  upload, selective_repeat, Service, service, get_masks, make_segment, make_ack_segment,
}
use redes_hamelin.Service.Makes.{data_segment, ack_segment}
use redes_hamelin.Event.{FileDetails, segment, get_name}
use redes_hamelin.Timer.{start, schedule, insert_sorted}
use redes_hamelin.Context.{Context, sync, send_to, schedule_timeout, send_ack}
use redes_hamelin.Files.Writer.{
  FileWriter, open_file, total_length, write_batch, write_all, write_at, concat,
}
use redes_hamelin.Flow.Sender.{waiting, resume, handle_ack, advance, make_window, send_window}
use redes_hamelin.Flow.Sender.Window.{IsChunk}
use redes_hamelin.Flow.Receiver.{
  receive, handle_segment_received, check_finished, write_contiguous_packets, drain, write_chunks,
  acknowledge, is_in_receive_window,
}
use redes_hamelin.Flow.{create}
use redes_hamelin.Transfer.{
  Net, sender_flow, receiver_flow, receiver_file, Step, sender_steps, receiver_steps, Reach, here,
  next, datagram,
}
use redes_hamelin.Transfer.Parts.{IsUnbroken}
use redes_hamelin.Flow.{Flow}
use redes_hamelin.Base.{arith}
use redes_hamelin.Files.Reader.{read_all_chunks, open_reader}
use redes_hamelin.Transfer.Files.{file_sent_whole}
use redes_hamelin.Transfer.Outcome.{Begins, begin, prefix_written, waiting_in_flight}

abbrev pub chunks : List (List ℕ)
chunks = (7 ∷ 8 ∷ 9 ∷ []) ∷ []

abbrev pub svc : Service
svc = service upload selective_repeat

abbrev pub context : Context
context = record {
  peer_address = ([], 9000);
  disconnector_address = ([], 9001);
  protocol_type = selective_repeat;
  service = svc;
  timer = start;
  now = 0;
  sent = [];
  queue = [];
  phase = sync;
}

abbrev pub details : FileDetails
details = ([], 3)

abbrev pub new_file : FileWriter
new_file = record { file_size = 3; content = 0 ∷ 0 ∷ 0 ∷ [] }

pub begins : Begins upload selective_repeat context context
begins = record {
  sender_service = refl;
  receiver_service = refl;
  sender_quiet = refl;
  receiver_quiet = refl;
}

pub opened : open_file (total_length chunks) ≡ ok new_file
unfolding open_file total_length
opened = refl

abbrev pub at_begin : Net
at_begin = begin chunks context context details details 1 new_file

abbrev pub arrived : Net
arrived = record at_begin {
  receiver =
      receive (segment (data_segment svc 1 (7 ∷ 8 ∷ 9 ∷ [])) none) (receiver_flow at_begin.receiver)
        (receiver_file at_begin.receiver);
}

abbrev pub done : Net
done = record arrived {
  sender = resume chunks (segment (ack_segment svc 1) none) (sender_flow arrived.sender);
}

pub arrives : Step chunks at_begin arrived
unfolding begin create advance make_window send_window service get_masks make_segment new
    calculate_checksum add_words last_byte insert_sorted to_bytes pack_short from_bytes
    unpack_header insert lookup send_to schedule_timeout schedule get_name
arrives =
    receiver_steps (receiver_flow at_begin.receiver) (receiver_file at_begin.receiver) _ refl
      (datagram none first (omega arith) refl) refl

pub acked : Step chunks arrived done
unfolding begin create advance make_window send_window resume is_err get_masks service is_fin is_ack
    is_syn handle_ack lookup make_segment new calculate_checksum add_words last_byte insert erase
    receive handle_segment_received check_finished write_contiguous_packets drain write_chunks
    write_batch write_all write_at total_length acknowledge send_ack send_to make_ack_segment
    to_bytes pack_short from_bytes unpack_header is_in_receive_window
acked =
    sender_steps (sender_flow arrived.sender) _ refl (datagram none first (omega arith) refl) refl

pub arrived_base : (receiver_flow arrived.receiver).recv_base_number ≡ 2
unfolding begin create advance make_window send_window resume is_err get_masks service is_fin is_ack
    is_syn handle_ack lookup make_segment new calculate_checksum add_words last_byte insert erase
    receive handle_segment_received check_finished write_contiguous_packets drain write_chunks
    write_batch write_all write_at total_length acknowledge send_ack send_to make_ack_segment
    to_bytes pack_short from_bytes unpack_header is_in_receive_window
arrived_base = refl

run : Reach chunks at_begin done
run = next (next here arrives) acked

prefix_written_example :
    (let f = receiver_flow arrived.receiver in
      let done = take (f.recv_base_number - 1) chunks in
      ((receiver_file arrived.receiver).content
        ≡ concat done ++ replicate (total_length chunks - total_length done) 0)
      × (f.downloaded_bytes ≡ total_length done)
      × IsUnbroken arrived.receiver)
prefix_written_example =
    prefix_written chunks upload selective_repeat 1 details details begins opened
      (next here arrives)

all_acknowledged : (sender_flow done.sender).base_number ≡ 2
unfolding begin create advance make_window send_window resume is_err get_masks service is_fin is_ack
    is_syn handle_ack lookup make_segment new calculate_checksum add_words last_byte insert erase
all_acknowledged = refl

pub first_sent : at_begin.sender ≡ waiting (sender_flow at_begin.sender)
unfolding begin create advance make_window send_window get_masks service make_segment new
    calculate_checksum add_words last_byte
first_sent = refl

waiting_in_flight_example :
    let f = sender_flow at_begin.sender in
    ((seg : Segment) × (lookup f.base_number f.packets_in_flight ≡ some seg)
      × IsChunk chunks svc 1 f.base_number seg)
    × (length f.packets_in_flight ≤ f.window_size)
waiting_in_flight_example =
    waiting_in_flight chunks upload selective_repeat 1 details details begins opened here first_sent

file_sent_whole_example : (receiver_file done.receiver).content ≡ 7 ∷ 8 ∷ 9 ∷ []
unfolding read_all_chunks open_reader
file_sent_whole_example =
    file_sent_whole (7 ∷ 8 ∷ 9 ∷ []) upload selective_repeat 1 details details begins opened run
      all_acknowledged
