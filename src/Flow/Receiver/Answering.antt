-- ===== src/Flow/Receiver/Answering.antt =====
-- flow_state.py, `handleSegmentReceived`: the segment at the receive base, or one that has arrived, is
-- acknowledged, whatever was acknowledged before.
use redes_hamelin.Base.{
  ℕ, zero, suc, ◌≤◌, ◌<◌, ◌≡◌, ◌∙◌, refl, sym, subst, ◌⊎◌, inl, inr, false, none, List, [], ◌∷◌,
  arith, length, nat_Eq, Result-cases, Option-cases,
}
use redes_hamelin.Base.Dict.{lookup}
use redes_hamelin.Segment.{Segment}
use redes_hamelin.Service.Makes.{kind}
use redes_hamelin.Files.Writer.{FileWriter, write_batch}
use redes_hamelin.Flow.{Flow}
use redes_hamelin.Flow.Receiver.{
  Received, kept, failed, is_in_receive_window, drain, write_chunks, re_ack, store_segment, on_data,
  handle_segment_received,
}
use native.Mathlib.Decide.{dec_lt}
use redes_hamelin.Flow.Receiver.Arrivals.{stored, store_segment_lem, data_cases}
use redes_hamelin.Flow.Receiver.Buffer.{with_ack, re_ack_lem}

abbrev pub flow_of : Received → Flow
flow_of (kept f w) = f
flow_of (failed e f w) = f

-- What the receive loop only reads while it drains and writes.
abbrev pub Same : Flow → Flow → Type 0
Same f g =
    (g.ctx ≡ f.ctx)
    × (g.receive_window_size ≡ f.receive_window_size)
    × (g.fin_received ≡ f.fin_received)

drain-Same : (fuel : ℕ) (f : Flow) → Same f (drain fuel f).1
unfolding drain
drain-Same zero f = (refl, refl, refl)
drain-Same (suc fuel) f = elim (Option-cases (lookup f.recv_base_number f.receive_buffer)) [
  | inl e ↦ rw (e, drain) (refl, refl, refl)
  | inr (seg, e) ↦ rw (e, drain) (drain-Same fuel _)
]

write_chunks-Same :
    (cs : List (List ℕ)) (f : Flow) (w : FileWriter) → Same f (flow_of (write_chunks cs f w))
unfolding write_chunks
write_chunks-Same [] f w = (refl, refl, refl)
write_chunks-Same (c ∷ cs) f w = elim (Result-cases (write_batch f.downloaded_bytes (c ∷ cs) w)) [
  | inl (w', e) ↦ rw (e, write_chunks, flow_of) (refl, refl, refl)
  | inr (x, e) ↦ rw (e, write_chunks, flow_of) (refl, refl, refl)
]

store_segment-Same :
    (seg : Segment) (f : Flow) (w : FileWriter)
    → Same (with_ack seg.sequence_number f) (flow_of (store_segment seg f w))
store_segment-Same seg f w =
    let h = with_ack seg.sequence_number (stored seg f) in
    let drained = drain-Same (length h.receive_buffer) h in
    let chunks = (drain (length h.receive_buffer) h).0 in
    let g = (drain (length h.receive_buffer) h).1 in
    let written = write_chunks-Same chunks g w in
    rw (store_segment_lem seg f w)
      (written.0 ∙ drained.0, written.1 ∙ drained.1, written.2 ∙ drained.2)

-- A segment of the file changes nothing of the context, or sends one acknowledgement.
pub data-Same :
    (seg : Segment) (f : Flow) (w : FileWriter)
    → kind seg ≡ (false, false, false, false)
    → Same f (flow_of (handle_segment_received seg f w))
      ⊎ Same (with_ack seg.sequence_number f) (flow_of (handle_segment_received seg f w))
data-Same seg f w plain = elim (data_cases seg f w plain) [
  | inl (inl (below, e)) ↦ inr (rw (e, re_ack_lem seg.sequence_number f w) (refl, refl, refl))
  | inl (inr (out, e)) ↦ inl (rw e (refl, refl, refl))
  | inr (inl (s, there, e)) ↦ inr (rw (e, re_ack_lem seg.sequence_number f w) (refl, refl, refl))
  | inr (inr (above, e)) ↦ inr (rw e (store_segment-Same seg f w))
]

-- The segment at the base is taken, and so it is acknowledged as an old one is.
answered :
    (seg : Segment) (f : Flow) (w : FileWriter)
    → kind seg ≡ (false, false, false, false)
    → seg.sequence_number ≤ f.recv_base_number
    → lookup f.recv_base_number f.receive_buffer ≡ none
    → 0 < f.receive_window_size
    → (handle_segment_received seg f w ≡ re_ack seg.sequence_number f w)
      ⊎ (handle_segment_received seg f w ≡ store_segment seg f w)
unfolding handle_segment_received on_data is_in_receive_window
answered seg f w plain below gap room = elim (dec_lt seg.sequence_number f.recv_base_number) [
  | yes old ↦ inl (ground arith)
  | no new ↦
      let here : seg.sequence_number ≡ f.recv_base_number = omega arith in
      let free : lookup seg.sequence_number f.receive_buffer ≡ none =
        subst (λ n. lookup n f.receive_buffer ≡ none) (sym here) gap in
      inr (ground arith)
]

pub answer-Same :
    (seg : Segment) (f : Flow) (w : FileWriter)
    → kind seg ≡ (false, false, false, false)
    → seg.sequence_number ≤ f.recv_base_number
    → lookup f.recv_base_number f.receive_buffer ≡ none
    → 0 < f.receive_window_size
    → Same (with_ack seg.sequence_number f) (flow_of (handle_segment_received seg f w))
answer-Same seg f w plain below gap room = elim (answered seg f w plain below gap room) [
  | inl e ↦ rw (e, re_ack_lem seg.sequence_number f w) (refl, refl, refl)
  | inr e ↦ rw e (store_segment-Same seg f w)
]
