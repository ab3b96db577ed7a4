-- ===== src/Flow/Receiver/Arrivals.antt =====
-- flow_state.py, `handleSegmentReceived` on a segment of the file: nothing is raised, the file stays
-- in order, and what arrived before is still there.
use redes_hamelin.Base.{
  ℕ, ◌+◌, ◌-◌, ◌≤◌, ◌<◌, ◌≡◌, subst, ◌∙◌, ◌⊎◌, inl, inr, false, some, List, arith, length,
  get_elem?, All, All-map, nat_Eq, Option-cases, ok, Bool-cases,
}
use mathlib.Core.Path.{subst₂}
use native.Mathlib.Decide.{dec_lt}
use redes_hamelin.Base.Dict.{lookup, insert, still_in, lookup-insert, lookup_inserted}
use redes_hamelin.Segment.{Segment, to_bytes}
use redes_hamelin.Service.{Service}
use redes_hamelin.Service.Makes.{ack_segment, kind}
use redes_hamelin.Context.Sending.{sent-send_to, service-send_to}
use redes_hamelin.Files.Writer.{FileWriter}
use redes_hamelin.Flow.{Flow}
use redes_hamelin.Flow.Receiver.{
  is_in_receive_window, kept, drain, write_chunks, write_contiguous_packets, re_ack, store_segment,
  on_data, handle_segment_received,
}
use redes_hamelin.Flow.Receiver.Drain.{AreChunks, drain-Drained}
use redes_hamelin.Flow.Receiver.Buffer.{
  with_ack, acknowledge_lem, re_ack_lem, Arrived, IsAckOf, InOrder, with_ack-InOrder,
  drained-Arrived, drained-InOrder,
}

abbrev pub stored : Segment → Flow → Flow
stored seg f = record f { receive_buffer = insert seg.sequence_number seg f.receive_buffer }

pub store_segment_lem :
    (seg : Segment) (f : Flow) (w : FileWriter)
    → let h = with_ack seg.sequence_number (stored seg f) in
      store_segment seg f w
      ≡ write_chunks (drain (length h.receive_buffer) h).0 (drain (length h.receive_buffer) h).1 w
unfolding store_segment write_contiguous_packets
store_segment_lem seg f w = rw (acknowledge_lem seg.sequence_number (stored seg f), store_segment)

-- The four ways in which a data segment is taken: an old one, one beyond the window, one that is in
-- the buffer, and a new one.
pub data_cases :
    (seg : Segment) (f : Flow) (w : FileWriter)
    → kind seg ≡ (false, false, false, false)
    → (((seg.sequence_number < f.recv_base_number)
          × (handle_segment_received seg f w ≡ re_ack seg.sequence_number f w))
        ⊎ ((is_in_receive_window seg.sequence_number f ≡ false)
            × (handle_segment_received seg f w ≡ kept f w)))
      ⊎ (((s : Segment) × (lookup seg.sequence_number f.receive_buffer ≡ some s)
            × (handle_segment_received seg f w ≡ re_ack seg.sequence_number f w))
          ⊎ ((f.recv_base_number ≤ seg.sequence_number)
              × (handle_segment_received seg f w ≡ store_segment seg f w)))
unfolding handle_segment_received on_data
data_cases seg f w plain = elim (dec_lt seg.sequence_number f.recv_base_number) [
  | yes below ↦ inl (inl (below, ground arith))
  | no above ↦ elim (Bool-cases (is_in_receive_window seg.sequence_number f)) [
    | inr out ↦ inl (inr (out, ground arith))
    | inl inside ↦ elim (Option-cases (lookup seg.sequence_number f.receive_buffer)) [
      | inr (s, e) ↦ inr (inl (s, e, ground arith))
      | inl e ↦ inr (inr (omega arith, ground arith))
    ]
  ]
]

module _ (chunks : List (List ℕ)) (svc : Service) (start : ℕ) where
  -- The receiver has gone on from one state to another: nothing that had arrived is lost.
  pub record GoesOn (f g : Flow) (w : FileWriter) : Type 0 where
    pub in_order : InOrder chunks svc start g w
    pub still : (n : ℕ) → Arrived chunks svc start f n → Arrived chunks svc start g n

  -- A segment of the file.
  abbrev pub IsData : Segment → Type 0
  IsData seg =
      (kind seg ≡ (false, false, false, false))
      × (start ≤ seg.sequence_number)
      × (get_elem? chunks (seg.sequence_number - start) ≡ some seg.payload)

  module _ (seg : Segment) (f : Flow) (w : FileWriter) (o : InOrder chunks svc start f w) where
    stored-Arrived :
        (n : ℕ) → Arrived chunks svc start f n → Arrived chunks svc start (stored seg f) n
    stored-Arrived n (inl below) = inl below
    stored-Arrived n (inr (s, e)) = inr (still_in seg.sequence_number n seg f.receive_buffer e)

    stored-here : Arrived chunks svc start (stored seg f) seg.sequence_number
    stored-here = inr (
      seg,
      ground (arith, lookup-insert seg.sequence_number seg.sequence_number seg f.receive_buffer),
    )

    stored-AreChunks :
        f.recv_base_number ≤ seg.sequence_number
        → get_elem? chunks (seg.sequence_number - start) ≡ some seg.payload
        → AreChunks chunks start f.recv_base_number (stored seg f).receive_buffer
    stored-AreChunks above chunk n s e =
        elim (lookup_inserted seg.sequence_number n seg f.receive_buffer e) [
          | inl (here, same) ↦
              subst₂
                (λ m (t : Segment).
                  (f.recv_base_number ≤ m) × (get_elem? chunks (m - start) ≡ some t.payload))
                here same (above, chunk)
          | inr before ↦ o.buffered n s before
        ]

    stored-acks :
        All
          (IsAckOf chunks svc start (Arrived chunks svc start (stored seg f)))
          (with_ack seg.sequence_number (stored seg f)).ctx.sent
    stored-acks =
        sent-send_to (IsAckOf chunks svc start (Arrived chunks svc start (stored seg f)))
          (ack_segment f.ctx.service seg.sequence_number) f.ctx.peer_address f.ctx
          (λ d c. (
            seg.sequence_number,
            stored-here,
            subst (λ v. to_bytes (ack_segment v seg.sequence_number) ≡ ok d.0) o.made_by c,
          ))
          (All-map (IsAckOf chunks svc start (Arrived chunks svc start f))
            (IsAckOf chunks svc start (Arrived chunks svc start (stored seg f)))
            (λ b (n, here, c). (n, stored-Arrived n here, c)) f.ctx.sent o.acks)

    beyond :
        ¬ (seg.sequence_number < f.recv_base_number)
        → is_in_receive_window seg.sequence_number f ≡ false
        → f.recv_base_number + f.receive_window_size ≤ seg.sequence_number
    unfolding is_in_receive_window
    beyond above out = ground arith

    store_segment-GoesOn :
        f.recv_base_number ≤ seg.sequence_number
        → get_elem? chunks (seg.sequence_number - start) ≡ some seg.payload
        → (g : Flow) × (w' : FileWriter) × (store_segment seg f w ≡ kept g w')
          × GoesOn f g w'
          × Arrived chunks svc start g seg.sequence_number
    store_segment-GoesOn above chunk =
        let h : Flow = with_ack seg.sequence_number (stored seg f) in
        let made : h.ctx.service ≡ svc =
          service-send_to (ack_segment f.ctx.service seg.sequence_number) f.ctx.peer_address f.ctx
          ∙ o.made_by in
        let acked = stored-acks in
        let d =
          drain-Drained chunks start (length h.receive_buffer) h o.from (omega arith)
            (stored-AreChunks above chunk) in
        let (w', e, end) =
          drained-InOrder chunks svc start f h _ _ w made o.from o.written acked d in
        (
          _,
          w',
          store_segment_lem seg f w ∙ e,
          record {
            in_order = end;
            still = λ n here.
                drained-Arrived chunks svc start f h _ _ w made o.from o.written acked d n
                  (stored-Arrived n here);
          },
          drained-Arrived chunks svc start f h _ _ w made o.from o.written acked d
              seg.sequence_number stored-here,
        )

    -- A segment of the file is taken without an exception. What had arrived stays, the file stays in
    -- order, and the number of the segment has arrived after it unless it lies beyond the window.
    pub handle_segment-GoesOn :
        IsData seg
        → (g : Flow) × (w' : FileWriter) × (handle_segment_received seg f w ≡ kept g w')
          × GoesOn f g w'
          × (Arrived chunks svc start g seg.sequence_number
              ⊎ (f.recv_base_number + f.receive_window_size ≤ seg.sequence_number))
    handle_segment-GoesOn (plain, from, chunk) = elim (data_cases seg f w plain) [
      | inl (inl (below, e)) ↦ acked_again (inl below) e
      | inl (inr (out, e)) ↦ elim (dec_lt seg.sequence_number f.recv_base_number) [
        | yes below ↦ (f, w, e, record { in_order = o; still = λ n here. here }, inl (inl below))
        | no above ↦
            (f, w, e, record { in_order = o; still = λ n here. here }, inr (beyond above out))
      ]
      | inr (inl (s, there, e)) ↦ acked_again (inr (s, there)) e
      | inr (inr (above, e)) ↦
          let (g, w', stored_so, on, here) = store_segment-GoesOn above chunk in
          (g, w', e ∙ stored_so, on, inl here)
    ]
      where
        acked_again :
            Arrived chunks svc start f seg.sequence_number
            → handle_segment_received seg f w ≡ re_ack seg.sequence_number f w
            → (g : Flow) × (w' : FileWriter) × (handle_segment_received seg f w ≡ kept g w')
              × GoesOn f g w'
              × (Arrived chunks svc start g seg.sequence_number
                  ⊎ (f.recv_base_number + f.receive_window_size ≤ seg.sequence_number))
        acked_again here e = (
          with_ack seg.sequence_number f,
          w,
          e ∙ re_ack_lem seg.sequence_number f w,
          record {
            in_order = with_ack-InOrder chunks svc start seg.sequence_number f w o here;
            still = λ n before. before;
          },
          inl here,
        )
