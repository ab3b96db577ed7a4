-- ===== src/Flow/Sender/Advancing.antt =====
-- flow_state.py, `sendFile`: a timeout sends the oldest packet again, and its acknowledgement moves
-- the base.
use redes_hamelin.Base.{
  ℕ, zero, suc, ◌+◌, ◌-◌, ◌≤◌, ◌<◌, ◌≡◌, ◌∙◌, refl, sym, subst, inl, inr, true, false, none, some,
  List, [], ◌∷◌, arith, Option, length, nat_Eq, ok, Option-cases, Has, first, later, Result-cases,
}
use native.Mathlib.Decide.{dec_lt}
use redes_hamelin.Base.Dict.{lookup, lookup-erase}
use redes_hamelin.Segment.{Segment, to_bytes}
use redes_hamelin.Service.{Service}
use redes_hamelin.Service.Makes.{kind}
use redes_hamelin.Event.{Address, segment, segment_timeout}
use redes_hamelin.Context.{Context, send_to, schedule_timeout}
use redes_hamelin.Flow.{Flow}
use redes_hamelin.Flow.Sender.{
  make_window, send_window, handle_ack, handle_timeout, slide, waiting, advance, on_segment, resume,
}
use redes_hamelin.Flow.Sender.Acks.{
  acked, handle_ack_known, handle_timeout_known, slide_zero, slide_go, slide_kept, slide_empty,
}
use redes_hamelin.Flow.Sender.Window.{Window}
use redes_hamelin.Flow.Sender.Packets.{at_next, make_packets_lem}
use redes_hamelin.Flow.Sender.Sending.{next-send_window}
use redes_hamelin.Flow.Sender.Rounds.{advance_round}

base-slide : (fuel : ℕ) (f : Flow) → f.base_number ≤ (slide fuel f).base_number
base-slide zero f = rw (slide_zero f) (omega arith)
base-slide (suc fuel) f = elim (Option-cases (lookup f.base_number f.packets_in_flight)) [
  | inr (seg, e) ↦ rw (slide_kept fuel f seg e) (omega arith)
  | inl e ↦ elim (dec_lt f.base_number f.next_sequence_number) [
    | no all ↦ rw (slide_empty fuel f all) (omega arith)
    | yes more ↦
        rw (slide_go fuel f e more)
          (omega (arith, base-slide fuel (record f { base_number = f.base_number + 1 })))
  ]
]

-- The acknowledgement of the packet at the base.
pub base-handle_ack :
    (seg : Segment) (f : Flow) {packet : Segment}
    → seg.sequence_number ≡ f.base_number
    → lookup f.base_number f.packets_in_flight ≡ some packet
    → f.base_number < f.next_sequence_number
    → f.base_number < (handle_ack seg f).base_number
base-handle_ack seg f {packet} same there room =
    let known : lookup seg.sequence_number f.packets_in_flight ≡ some packet =
      subst (λ n. lookup n f.packets_in_flight ≡ some packet) (sym same) there in
    let free : lookup f.base_number (acked seg f).packets_in_flight ≡ none =
      lookup-erase seg.sequence_number f.base_number f.packets_in_flight ∙ ground (arith, same) in
    let fuel : f.next_sequence_number - f.base_number
        ≡ suc (f.next_sequence_number - f.base_number - 1) =
      omega arith in
    rw
      (
        handle_ack_known seg f known,
        fuel,
        slide_go (f.next_sequence_number - f.base_number - 1) (acked seg f) free room,
      )
      (omega (
        arith,
        base-slide (f.next_sequence_number - f.base_number - 1)
            (record (acked seg f) { base_number = f.base_number + 1 }),
      ))

-- What has been sent stays so.
Has-send_to :
    (d : List ℕ × Address) (seg : Segment) (a : Address) (c : Context)
    → Has d c.sent
    → Has d (send_to seg a c).sent
unfolding send_to
Has-send_to d seg a c h = elim (Result-cases (to_bytes seg)) [
  | inl (bytes, e) ↦ rw (e, send_to) (later h)
  | inr (x, e) ↦ rw (e, send_to) h
]

Has-send_window :
    (d : List ℕ × Address) (segs : List Segment) (f : Flow)
    → Has d f.ctx.sent
    → Has d (send_window segs f).ctx.sent
unfolding send_window schedule_timeout
Has-send_window d [] f h = h
Has-send_window d (seg ∷ segs) f h =
    Has-send_window d segs _ (Has-send_to d seg f.ctx.peer_address f.ctx h)

pub resume-ack :
    (chunks : List (List ℕ)) (seg : Segment) (addr : Option Address) (f : Flow)
    → kind seg ≡ (false, true, false, false)
    → resume chunks (segment seg addr) f ≡ advance chunks (handle_ack seg f)
unfolding resume on_segment
resume-ack chunks seg addr f k = ground (arith, k)

-- The timeout of a packet in flight, whose segment can be written.
pub resume-timeout :
    (chunks : List (List ℕ)) (n : ℕ) (f : Flow) {seg : Segment} {bytes : List ℕ}
    → lookup n f.packets_in_flight ≡ some seg
    → to_bytes seg ≡ ok bytes
    → (resume chunks (segment_timeout n) f ≡ advance chunks (handle_timeout n f))
      × ((handle_timeout n f).base_number ≡ f.base_number)
      × ((handle_timeout n f).initial_sequence_number ≡ f.initial_sequence_number)
      × Has (bytes, f.ctx.peer_address) (handle_timeout n f).ctx.sent
unfolding resume schedule_timeout send_to
resume-timeout chunks n f {seg} {bytes} there written =
    rw (handle_timeout_known n f there) (refl, refl, refl, rw (written, send_to) first)

module _ (chunks : List (List ℕ)) (svc : Service) (start : ℕ) (Got : ℕ → Type 0) where
  -- From the head of the loop with chunks left: the sender waits, at the same base, and what has been
  -- sent stays so.
  pub advance-waits :
      (f : Flow)
      → Window chunks svc start Got f
      → f.base_number - f.initial_sequence_number < length chunks
      → (g : Flow) × (advance chunks f ≡ waiting g)
        × (g.base_number ≡ f.base_number)
        × ((d : List ℕ × Address) → Has d f.ctx.sent → Has d g.ctx.sent)
  unfolding make_window
  advance-waits f w inside =
      let (segs, e, ps) =
        make_packets_lem chunks svc start f.window_size 0 f.next_sequence_number f w.made_by
          w.starts (omega (arith, w.base_from, w.base_to)) w.top_to (omega arith) in
      let g = at_next f (f.next_sequence_number + length segs) in
      (
        send_window segs g,
        advance_round chunks svc start Got f inside e,
        (next-send_window chunks svc start Got segs g).1,
        λ d h. Has-send_window d segs g h,
      )
