-- ===== src/Tests/Flows.antt =====
-- Single events of the transfer of one chunk, and the loops that they run.
use redes_hamelin.Base.{ℕ, ◌≡◌, ◌+◌, refl, subst, [], ◌∷◌, none, inl, inr, ok, arith}
use redes_hamelin.Base.{◌⊎◌, ◌≤◌}
use redes_hamelin.Segment.{is_ack, is_syn, is_err, is_fin}
use redes_hamelin.Service.{upload, selective_repeat, service, get_masks}
use redes_hamelin.Service.Makes.{data_segment, ack_segment}
use redes_hamelin.Event.{segment}
use redes_hamelin.Files.Writer.{FileWriter, write_batch, total_length}
use redes_hamelin.Files.Writer.Prefix.{Holds, write_batch-Holds, open_file-Holds}
use redes_hamelin.Flow.{Flow, create}
use redes_hamelin.Flow.Sender.{resume, handle_ack}
use redes_hamelin.Flow.Sender.Window.{Window, IsTight, handle_ack-Window}
use redes_hamelin.Flow.Sender.Rounds.{Keeps, IsWaiting, resume-Keeps}
use redes_hamelin.Flow.Receiver.{handle_segment_received, kept}
use redes_hamelin.Flow.Receiver.Buffer.{Arrived}
use redes_hamelin.Flow.Receiver.Arrivals.{GoesOn, handle_segment-GoesOn}
use redes_hamelin.Base.{nat_Eq, some}
use redes_hamelin.Base.Dict.{lookup}
use redes_hamelin.Segment.{Segment}
use redes_hamelin.Flow.Sender.{make_window}
use redes_hamelin.Flow.Sender.Acks.{acked}
use redes_hamelin.Flow.Receiver.{drain}
use redes_hamelin.Flow.Loops.{
  While, has_room, make_packet, is_behind, next_base, is_contiguous, pop_one, flow_loops_end,
}
use redes_hamelin.Transfer.{sender_flow, receiver_flow, here, next}
use redes_hamelin.Transfer.Safety.{IsSafe, Step-IsSafe, Reach-IsSafe}
use redes_hamelin.Transfer.Outcome.{begin-IsSafe, create-InOrder}
use redes_hamelin.Tests.Transfers.{
  chunks, svc, details, context, new_file, arrived, done, begins, arrived_base, opened, arrives,
  acked as received_ack, first_sent,
}

abbrev Got : ℕ → Type 0
Got = Arrived chunks svc 1 (receiver_flow arrived.receiver)

arrived-IsSafe : IsSafe chunks upload selective_repeat 1 arrived
arrived-IsSafe =
    Reach-IsSafe chunks upload selective_repeat 1
      (begin-IsSafe chunks upload selective_repeat 1 details details begins opened)
      (next here arrives)

Step-IsSafe_example : IsSafe chunks upload selective_repeat 1 done
Step-IsSafe_example = Step-IsSafe chunks upload selective_repeat 1 received_ack arrived-IsSafe

sender_waits : IsWaiting chunks svc 1 Got (sender_flow arrived.sender)
sender_waits = subst (Keeps chunks svc 1 Got) first_sent arrived-IsSafe.sending

has_arrived : Got 1
has_arrived = inl (omega (arith, arrived_base))

resume-Keeps_example :
    Keeps chunks svc 1 Got
      (resume chunks (segment (ack_segment svc 1) none) (sender_flow arrived.sender))
resume-Keeps_example =
    resume-Keeps chunks svc 1 Got (segment (ack_segment svc 1) none) (sender_flow arrived.sender)
      sender_waits (λ ack. has_arrived)

handle_ack-Window_example :
    Window chunks svc 1 Got (handle_ack (ack_segment svc 1) (sender_flow arrived.sender))
    × IsTight chunks svc 1 Got (handle_ack (ack_segment svc 1) (sender_flow arrived.sender))
handle_ack-Window_example =
    handle_ack-Window chunks svc 1 Got (ack_segment svc 1) (sender_flow arrived.sender)
      sender_waits.window (inr sender_waits.head) has_arrived

handle_segment-GoesOn_example :
    (g : Flow) × (w : FileWriter) × (handle_segment_received
        (data_segment svc 1 (7 ∷ 8 ∷ 9 ∷ []))
        (create context details 1)
        new_file
      ≡ kept g w)
    × GoesOn chunks svc 1 (create context details 1) g w
    × (Arrived chunks svc 1 g 1
        ⊎ ((create context details 1).recv_base_number
              + (create context details 1).receive_window_size
            ≤ 1))
unfolding service get_masks is_syn is_ack is_err is_fin
handle_segment-GoesOn_example =
    handle_segment-GoesOn chunks svc 1 (data_segment svc 1 (7 ∷ 8 ∷ 9 ∷ []))
      (create context details 1) new_file
      (create-InOrder chunks upload selective_repeat 1 context details new_file refl refl opened)
      (refl, omega arith, refl)

write_batch-Holds_example :
    (w : FileWriter) × (write_batch 0 ((7 ∷ 8 ∷ 9 ∷ []) ∷ []) new_file ≡ ok w)
    × Holds chunks 1 (0 + total_length ((7 ∷ 8 ∷ 9 ∷ []) ∷ [])) w
write_batch-Holds_example =
    write_batch-Holds chunks 0 1 0 ((7 ∷ 8 ∷ 9 ∷ []) ∷ []) new_file refl
      (open_file-Holds chunks opened)

abbrev packet : Segment
packet = data_segment svc 1 (7 ∷ 8 ∷ 9 ∷ [])

-- A state with one packet in flight and one in the buffer.
abbrev busy : Flow
busy = record (create context details 1) {
  next_sequence_number = 2;
  packets_in_flight = (1, packet) ∷ [];
  receive_buffer = (1, packet) ∷ [];
}

in_flight : lookup 1 busy.packets_in_flight ≡ some packet
unfolding lookup
in_flight = refl

flow_loops_end_example :
    While (has_room chunks) (make_packet chunks) ([], busy) (make_window chunks busy)
    × While is_behind next_base
        (acked (ack_segment svc 1) busy)
        (ok (handle_ack (ack_segment svc 1) busy))
    × While is_contiguous pop_one ([], busy) (ok (drain 1 busy))
flow_loops_end_example = flow_loops_end chunks (ack_segment svc 1) busy in_flight
