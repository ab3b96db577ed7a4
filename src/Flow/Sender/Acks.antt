-- ===== src/Flow/Sender/Acks.antt =====
-- flow_state.py: what `handleAck` and `handleTimeout` do to the packets in flight, case by case.
use redes_hamelin.Base.{
  ℕ, zero, suc, ◌+◌, ◌-◌, ◌≤◌, ◌<◌, ◌≡◌, ◌≢◌, refl, ap, inl, inr, none, some, arith, length, nat_Eq,
  Option-cases,
}
use redes_hamelin.Base.Dict.{Dict, lookup, contains, erase, length-erase}
use redes_hamelin.Segment.{Segment}
use redes_hamelin.Event.{segment_timeout}
use redes_hamelin.Context.{Context, send_to, schedule_timeout, cancel_timeout}
use redes_hamelin.Flow.{Flow}
use redes_hamelin.Flow.Sender.{handle_ack, slide, handle_timeout, resend}

pub slide_zero : (f : Flow) → slide 0 f ≡ f
unfolding slide
slide_zero f = refl

pub slide_go :
    (fuel : ℕ) (f : Flow)
    → lookup f.base_number f.packets_in_flight ≡ none
    → f.base_number < f.next_sequence_number
    → slide (suc fuel) f ≡ slide fuel (record f { base_number = f.base_number + 1 })
unfolding slide
slide_go fuel f e h = ground arith

pub slide_kept :
    (fuel : ℕ) (f : Flow) (seg : Segment)
    → lookup f.base_number f.packets_in_flight ≡ some seg
    → slide (suc fuel) f ≡ f
unfolding slide
slide_kept fuel f seg e = ground arith

pub slide_empty :
    (fuel : ℕ) (f : Flow) → ¬ (f.base_number < f.next_sequence_number) → slide (suc fuel) f ≡ f
unfolding slide
slide_empty fuel f h = ground arith

pub ne_of_lookup :
    (m n : ℕ) (d : Dict ℕ Segment) {seg : Segment}
    → lookup m d ≡ none
    → lookup n d ≡ some seg
    → m ≢ n
ne_of_lookup m n d e h q = cc (ap (λ k. lookup k d) q)

pub handle_ack_unknown :
    (seg : Segment) (f : Flow)
    → lookup seg.sequence_number f.packets_in_flight ≡ none
    → handle_ack seg f ≡ f
unfolding handle_ack
handle_ack_unknown seg f e = ground arith

-- What an acknowledgement of a packet in flight leaves for `slide`.
abbrev pub acked : Segment → Flow → Flow
acked seg f = record f {
  ctx = cancel_timeout (segment_timeout seg.sequence_number) f.ctx;
  packets_in_flight = erase seg.sequence_number f.packets_in_flight;
}

pub handle_ack_known :
    (seg : Segment) (f : Flow) {packet : Segment}
    → lookup seg.sequence_number f.packets_in_flight ≡ some packet
    → handle_ack seg f ≡ slide (f.next_sequence_number - f.base_number) (acked seg f)
unfolding handle_ack
handle_ack_known seg f e = rw (e, contains)

pub slide_keeps :
    (fuel : ℕ) (f : Flow)
    → ((slide fuel f).packets_in_flight ≡ f.packets_in_flight)
      × ((slide fuel f).window_size ≡ f.window_size)
unfolding slide
slide_keeps zero f = (refl, refl)
slide_keeps (suc fuel) f =
    ground (arith, slide_keeps fuel (record f { base_number = f.base_number + 1 }))

-- An acknowledgement only empties the window.
pub handle_ack_size :
    (seg : Segment) (f : Flow)
    → ((handle_ack seg f).window_size ≡ f.window_size)
      × (length (handle_ack seg f).packets_in_flight ≤ length f.packets_in_flight)
handle_ack_size seg f = elim (Option-cases (lookup seg.sequence_number f.packets_in_flight)) [
  | inl e ↦ rw (handle_ack_unknown seg f e) (refl, omega arith)
  | inr (packet, e) ↦
      let same = slide_keeps (f.next_sequence_number - f.base_number) (acked seg f) in
      rw (handle_ack_known seg f e, same.0, same.1)
        (refl, length-erase seg.sequence_number f.packets_in_flight)
]

pub handle_timeout_unknown :
    (n : ℕ) (f : Flow) → lookup n f.packets_in_flight ≡ none → handle_timeout n f ≡ f
unfolding handle_timeout
handle_timeout_unknown n f e = rw (e, resend)

-- A packet sent, as `sendWindow` and `handleTimeout` do it.
abbrev pub transmit : Segment → Context → Context
transmit seg c =
    schedule_timeout (segment_timeout seg.sequence_number) (send_to seg c.peer_address c)

pub handle_timeout_known :
    (n : ℕ) (f : Flow) {seg : Segment}
    → lookup n f.packets_in_flight ≡ some seg
    → handle_timeout n f ≡ record f { ctx = transmit seg f.ctx }
unfolding handle_timeout
handle_timeout_known n f e = rw (e, resend)

pub handle_timeout_size :
    (n : ℕ) (f : Flow)
    → ((handle_timeout n f).window_size ≡ f.window_size)
      × ((handle_timeout n f).packets_in_flight ≡ f.packets_in_flight)
handle_timeout_size n f = elim (Option-cases (lookup n f.packets_in_flight)) [
  | inl e ↦ rw (handle_timeout_unknown n f e) (refl, refl)
  | inr (seg, e) ↦ rw (handle_timeout_known n f e) (refl, refl)
]
