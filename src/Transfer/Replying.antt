-- ===== src/Transfer/Replying.antt =====
-- What single messages bring about in a transfer (flow_state.py): a timeout sends the packet at the
-- base again, the receiver answers it, and its acknowledgement moves the base.
use redes_hamelin.Base.{
  ℕ, nat_Eq, ◌+◌, ◌-◌, ◌≤◌, ◌<◌, ◌≡◌, ◌∙◌, refl, sym, ap, subst, inr, false, Bool, none, List, [],
  arith, length, All, Has, first, ok, bit_or, Option,
}
use native.Mathlib.Decide.{dec_lt}
use redes_hamelin.Base.Dict.{lookup}
use redes_hamelin.Segment.{Segment, to_bytes, from_bytes, ack_mask}
use redes_hamelin.Segment.Checksum.{new_lem}
use redes_hamelin.Segment.Codec.{from_bytes-to_bytes}
use redes_hamelin.Service.{ClientType, ProtocolType, service, get_masks}
use redes_hamelin.Service.Makes.{
  data_segment, ack_segment, data_kind, ack_kind, data_flags, ack_flags, kind,
}
use redes_hamelin.Event.{Address, segment, segment_timeout}
use redes_hamelin.Context.{Context, send_to}
use redes_hamelin.Files.Writer.{FileWriter}
use redes_hamelin.Flow.{Flow}
use redes_hamelin.Flow.Sender.{waiting, resume, advance, handle_ack, handle_timeout}
use redes_hamelin.Flow.Sender.Window.{Window, handle_ack-Window, handle_timeout-Window}
use redes_hamelin.Flow.Sender.Rounds.{IsWaiting, Keeps, Tells, advance_end}
use redes_hamelin.Flow.Sender.Advancing.{base-handle_ack, resume-ack, resume-timeout, advance-waits}
use redes_hamelin.Flow.Receiver.{receiving, receive, handle_segment_received}
use redes_hamelin.Flow.Receiver.Buffer.{Arrived, InOrder, with_ack}
use redes_hamelin.Flow.Receiver.Answering.{answer-Same}
use redes_hamelin.Transfer.{Net, sender_flow, receiver_flow, receiver_file}
use redes_hamelin.Transfer.Safety.{IsSafe}
use redes_hamelin.Transfer.Outcome.{acknowledged_written}
use redes_hamelin.Base.{All-get_elem?}
use redes_hamelin.Receiver.Delivery.{length-to_bytes}
use redes_hamelin.Transfer.Open.{ctx-check_finished}

-- What the receiver answers to a segment that it has or that it waits for.
ctx-receive :
    (seg : Segment) (addr : Option Address) (f : Flow) (w : FileWriter)
    → kind seg ≡ (false, false, false, false)
    → seg.sequence_number ≤ f.recv_base_number
    → lookup f.recv_base_number f.receive_buffer ≡ none
    → 0 < f.receive_window_size
    → (receiver_flow (receive (segment seg addr) f w)).ctx ≡ (with_ack seg.sequence_number f).ctx
unfolding receive
ctx-receive seg addr f w plain below gap room =
    ctx-check_finished (handle_segment_received seg f w)
    ∙ (answer-Same seg f w plain below gap room).0

Has-with_ack :
    (n : ℕ) (f : Flow) {bytes : List ℕ}
    → to_bytes (ack_segment f.ctx.service n) ≡ ok bytes
    → Has (bytes, f.ctx.peer_address) (with_ack n f).ctx.sent
unfolding send_to
Has-with_ack n f written = rw (written, send_to) first

module _ (chunks : List (List ℕ)) (c : ClientType) (p : ProtocolType) (start : ℕ) where
  -- The segment of a chunk can be written, and is read back.
  written_chunk :
      (n : ℕ) (payload : List ℕ)
      → n < 65536
      → length payload < 2048
      → (bytes : List ℕ) × (to_bytes (data_segment (service c p) n payload) ≡ ok bytes)
        × (from_bytes bytes ≡ ok (data_segment (service c p) n payload))
  written_chunk n payload hn hp =
      from_bytes-to_bytes n (length payload) (bit_or 0 (get_masks (service c p))) payload hn hp
        (data_flags c p) (new_lem n (bit_or 0 (get_masks (service c p))) payload)

  written_ack :
      (n : ℕ)
      → n < 65536
      → (bytes : List ℕ) × (to_bytes (ack_segment (service c p) n) ≡ ok bytes)
        × (from_bytes bytes ≡ ok (ack_segment (service c p) n))
  written_ack n hn =
      from_bytes-to_bytes n 0 (bit_or ack_mask (get_masks (service c p))) [] hn (omega arith)
        (ack_flags c p) (new_lem n (bit_or ack_mask (get_masks (service c p))) [])

  -- The base after the head of the loop.
  base-advance :
      (Got : ℕ → Type 0) (f : Flow)
      → Window chunks (service c p) start Got f
      → (sender_flow (advance chunks f)).base_number ≡ f.base_number
  base-advance Got f w = elim (dec_lt (f.base_number - f.initial_sequence_number) (length chunks)) [
    | no done ↦ rw (advance_end chunks (service c p) start Got f done) refl
    | yes inside ↦
        let (g, e, same, _) = advance-waits chunks (service c p) start Got f w inside in rw e same
  ]

  -- A timeout of the oldest packet in flight sends it once more.
  pub resends :
      (Got : ℕ → Type 0) (f : Flow)
      → IsWaiting chunks (service c p) start Got f
      → All (λ b. length b ≤ 1392) chunks
      → start + length chunks ≤ 65536
      → (g : Flow) × (bytes payload : List ℕ) × (resume chunks (segment_timeout f.base_number) f
          ≡ waiting g)
        × (g.base_number ≡ f.base_number)
        × Has (bytes, f.ctx.peer_address) g.ctx.sent
        × (length bytes ≤ 1400)
        × (from_bytes bytes ≡ ok (data_segment (service c p) f.base_number payload))
  resends Got f w short small =
      let n = f.base_number in
      let (seg, there) = w.head in
      let (_, below, (payload, from, chunk, made)) = w.window.flying n seg there in
      let top = w.window.top_to in
      let fits = All-get_elem? (λ b. length b ≤ 1392) chunks (n - start) short chunk in
      let (bytes, written, read) = written_chunk n payload (omega arith) (omega (arith, fits)) in
      let (again, same, initial, sent) =
        resume-timeout chunks n f there
          (subst (λ (x : Segment). to_bytes x ≡ ok bytes) (sym made) written) in
      let w' = (handle_timeout-Window chunks (service c p) start Got n f w.window (inr w.head)).0 in
      let (g, e, same', more) =
        advance-waits chunks (service c p) start Got (handle_timeout n f) w'
          (omega (arith, same, initial, w.window.starts, w.window.base_from)) in
      (
        g,
        bytes,
        payload,
        again ∙ e,
        same' ∙ same,
        more (bytes, f.ctx.peer_address) sent,
        omega (arith, length-to_bytes _ written, fits),
        read,
      )

  -- The acknowledgement of the packet at the base moves the base.
  pub acknowledged :
      (Got : ℕ → Type 0) (n : ℕ) (f : Flow)
      → n ≡ f.base_number
      → IsWaiting chunks (service c p) start Got f
      → Tells chunks (service c p) start Got (segment (ack_segment (service c p) n) none)
      → n < (sender_flow (resume chunks (segment (ack_segment (service c p) n) none) f)).base_number
  acknowledged Got n f at w told =
      let ack = ack_segment (service c p) n in
      let k = ack_kind c p n in
      let (seg, there) = w.head in
      let (_, below, _) = w.window.flying f.base_number seg there in
      let got = told (ap (λ (x : Bool × Bool × Bool × Bool). x.1) k) in
      let w' =
        (handle_ack-Window chunks (service c p) start Got ack f w.window (inr w.head) got).0 in
      rw (resume-ack chunks ack none f k, base-advance Got (handle_ack ack f) w')
        (omega (arith, at, base-handle_ack ack f at there below))

  pub waiting-IsWaiting :
      (s : Net) {f : Flow}
      → s.sender ≡ waiting f
      → IsSafe chunks c p start s
      → IsWaiting chunks
          (service c p)
          start
          (Arrived chunks (service c p) start (receiver_flow s.receiver))
          f
  waiting-IsWaiting s at safe =
      subst
        (Keeps chunks (service c p) start
          (Arrived chunks (service c p) start (receiver_flow s.receiver)))
        at safe.sending

  receiving-InOrder :
      (s : Net) {g : Flow} {w : FileWriter}
      → s.receiver ≡ receiving g w
      → IsSafe chunks c p start s
      → InOrder chunks (service c p) start g w
  receiving-InOrder s at safe =
      subst (λ r. InOrder chunks (service c p) start (receiver_flow r) (receiver_file r)) at
        safe.in_order

  -- The receiver acknowledges the packet at the sender's base, whatever it has got before.
  pub answers :
      (s : Net) {f g : Flow} {w : FileWriter} (n : ℕ) (payload : List ℕ)
      → n ≡ f.base_number
      → s.sender ≡ waiting f
      → s.receiver ≡ receiving g w
      → IsSafe chunks c p start s
      → 0 < g.receive_window_size
      → n < 65536
      → (bytes : List ℕ) × Has
          (bytes, g.ctx.peer_address)
          (receiver_flow
            (receive (segment (data_segment (service c p) n payload) none) g w)).ctx.sent
        × (length bytes ≤ 1400)
        × (from_bytes bytes ≡ ok (ack_segment (service c p) n))
  answers s {f} {g} {w} n payload at at_s at_r safe room small =
      let waits = waiting-IsWaiting s at_s safe in
      let o = receiving-InOrder s at_r safe in
      let window =
        subst
          (λ r.
            Window chunks (service c p) start (Arrived chunks (service c p) start (receiver_flow r))
              f)
          at_r waits.window in
      let below = acknowledged_written chunks (service c p) start f g w window o in
      let (bytes, written, read) = written_ack n small in
      let sent =
        Has-with_ack n g
          (subst (λ v. to_bytes (ack_segment v n) ≡ ok bytes) (sym o.made_by) written) in
      (
        bytes,
        subst (λ (x : Context). Has (bytes, g.ctx.peer_address) x.sent)
            (sym (
              ctx-receive (data_segment (service c p) n payload) none g w (data_kind c p n payload)
                (omega (arith, at, below)) o.gap room))
            sent,
        omega (arith, length-to_bytes _ written),
        read,
      )
