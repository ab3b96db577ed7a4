-- ===== src/Flow/Receiver/Buffer.antt =====
-- flow_state.py, `handleSegmentReceived`: the file holds the chunks below the receive base, in order
-- and once each, and only what has arrived is acknowledged.
use redes_hamelin.Base.{
  ℕ, ◌+◌, ◌-◌, ◌≤◌, ◌<◌, ◌≡◌, sym, subst, ap, ◌∙◌, ◌⊎◌, inl, inr, none, some, List, [], ◌∷◌, ◌++◌,
  arith, length, take, replicate, append-nil, All, All-map, nat_Eq, ok,
}
use redes_hamelin.Base.Dict.{lookup}
use redes_hamelin.Segment.{Segment, to_bytes}
use redes_hamelin.Service.{Service}
use redes_hamelin.Service.Makes.{ack_segment, make_ack_segment-eq-ack_segment}
use redes_hamelin.Event.{Address}
use redes_hamelin.Context.{send_ack}
use redes_hamelin.Context.{send_to}
use redes_hamelin.Context.Sending.{sent-send_to, service-send_to}
use redes_hamelin.Files.Writer.{FileWriter, total_length, concat}
use redes_hamelin.Files.Writer.Prefix.{Holds, write_batch-Holds, total_length-nil}
use redes_hamelin.Flow.{Flow}
use redes_hamelin.Flow.Receiver.{kept, write_chunks, acknowledge, re_ack}
use redes_hamelin.Flow.Receiver.Drain.{AreChunks, Drained}

-- The state once the acknowledgement of a number is sent.
abbrev pub with_ack : ℕ → Flow → Flow
with_ack n f = record f { ctx = send_to (ack_segment f.ctx.service n) f.ctx.peer_address f.ctx }

pub acknowledge_lem : (n : ℕ) (f : Flow) → acknowledge n f ≡ ok (with_ack n f)
unfolding acknowledge send_ack
acknowledge_lem n f = rw (make_ack_segment-eq-ack_segment f.ctx.service n)

pub re_ack_lem : (n : ℕ) (f : Flow) (w : FileWriter) → re_ack n f w ≡ kept (with_ack n f) w
unfolding re_ack
re_ack_lem n f w = rw (acknowledge_lem n f, re_ack)

-- Writing the chunks that were drained.
write_chunks_lem :
    (chunks : List (List ℕ)) (k k' : ℕ) (cs : List (List ℕ)) (g : Flow) (w : FileWriter)
    → take k' chunks ≡ take k chunks ++ cs
    → Holds chunks k g.downloaded_bytes w
    → (w' : FileWriter) × (write_chunks cs g w
        ≡ kept (record g { downloaded_bytes = g.downloaded_bytes + total_length cs }) w')
      × Holds chunks k' (g.downloaded_bytes + total_length cs) w'
unfolding write_chunks
write_chunks_lem chunks k k' [] g w more h =
    let same : take k' chunks ≡ take k chunks = more ∙ append-nil (take k chunks) in
    let none_added : g.downloaded_bytes ≡ g.downloaded_bytes + total_length [] =
      omega (arith, total_length-nil) in
    (
      w,
      ap (λ n. kept (record g { downloaded_bytes = n }) w) none_added,
      subst
          (λ t.
            (w.file_size ≡ total_length chunks)
            × (g.downloaded_bytes + total_length [] ≡ total_length t)
            × (w.content ≡ concat t ++ replicate (total_length chunks - total_length t) 0))
          (sym same) (h.0, omega (arith, none_added), h.2),
    )
write_chunks_lem chunks k k' (c ∷ cs) g w more h =
    let (w', e, h') = write_batch-Holds chunks k k' g.downloaded_bytes (c ∷ cs) w more h in
    (w', rw (e, write_chunks), h')

-- The chunks, the maker of the acknowledgements and the first number.
module _ (chunks : List (List ℕ)) (svc : Service) (start : ℕ) where
  -- A number that the receiver has in the file or in its buffer.
  abbrev pub Arrived : Flow → ℕ → Type 0
  Arrived f n =
      (n < f.recv_base_number) ⊎ ((seg : Segment) × (lookup n f.receive_buffer ≡ some seg))

  -- A datagram that acknowledges a number that has arrived.
  abbrev pub IsAckOf : (ℕ → Type 0) → List ℕ × Address → Type 0
  IsAckOf Got (bytes, _) = (n : ℕ) × Got n × (to_bytes (ack_segment svc n) ≡ ok bytes)

  pub record InOrder (f : Flow) (w : FileWriter) : Type 0 where
    pub made_by : f.ctx.service ≡ svc
    pub from : start ≤ f.recv_base_number
    pub written : Holds chunks (f.recv_base_number - start) f.downloaded_bytes w
    pub buffered : AreChunks chunks start f.recv_base_number f.receive_buffer
    pub gap : lookup f.recv_base_number f.receive_buffer ≡ none
    pub acks : All (IsAckOf (Arrived f)) f.ctx.sent

  pub with_ack-InOrder :
      (n : ℕ) (f : Flow) (w : FileWriter) → InOrder f w → Arrived f n → InOrder (with_ack n f) w
  with_ack-InOrder n f w o here = record {
    made_by = service-send_to (ack_segment f.ctx.service n) f.ctx.peer_address f.ctx ∙ o.made_by;
    from = o.from;
    written = o.written;
    buffered = o.buffered;
    gap = o.gap;
    acks =
        sent-send_to (IsAckOf (Arrived f)) (ack_segment f.ctx.service n) f.ctx.peer_address f.ctx
          (λ d c. (n, here, subst (λ v. to_bytes (ack_segment v n) ≡ ok d.0) o.made_by c)) o.acks;
  }

  -- A drained buffer, written.
  module _ (f h : Flow) (cs : List (List ℕ)) (g : Flow) (w : FileWriter)
      (made : h.ctx.service ≡ svc) (from : start ≤ h.recv_base_number)
      (written : Holds chunks (h.recv_base_number - start) h.downloaded_bytes w)
      (acked : All (IsAckOf (Arrived h)) h.ctx.sent) (d : Drained chunks start h cs g) where
    pub drained-Arrived : (n : ℕ) → Arrived h n → Arrived g n
    drained-Arrived n (inl below) = inl (omega (arith, d.base))
    drained-Arrived n (inr (seg, e)) = elim (d.arrived n seg e) [
      | inl below ↦ inl below
      | inr still ↦ inr (seg, still)
    ]

    same_bytes : g.downloaded_bytes ≡ h.downloaded_bytes
    same_bytes = ap (λ (x : Flow). x.downloaded_bytes) d.same

    pub drained-InOrder :
        (w' : FileWriter) × (write_chunks cs g w
          ≡ kept (record g { downloaded_bytes = g.downloaded_bytes + total_length cs }) w')
        × InOrder (record g { downloaded_bytes = g.downloaded_bytes + total_length cs }) w'
    drained-InOrder =
        let (w', e, held) =
          write_chunks_lem chunks (h.recv_base_number - start)
            (h.recv_base_number - start + length cs) cs g w d.reads
            (subst (λ n. Holds chunks (h.recv_base_number - start) n w) (sym same_bytes) written) in
        let place : h.recv_base_number - start + length cs ≡ g.recv_base_number - start =
          omega (arith, d.base) in
        (
          w',
          e,
          record {
            made_by = ap (λ (x : Flow). x.ctx.service) d.same ∙ made;
            from = omega (arith, d.base);
            written =
                subst (λ k. Holds chunks k (g.downloaded_bytes + total_length cs) w') place held;
            buffered = d.from_base;
            gap = d.gap;
            acks = subst (All (IsAckOf (Arrived g))) (sym (ap (λ (x : Flow). x.ctx.sent) d.same)) (
                All-map (IsAckOf (Arrived h)) (IsAckOf (Arrived g))
                  (λ b (n, here, c). (n, drained-Arrived n here, c)) h.ctx.sent acked);
          },
        )
