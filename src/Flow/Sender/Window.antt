-- ===== src/Flow/Sender/Window.antt =====
-- flow_state.py: the invariant of the sender's window, and what an acknowledgement and a timeout
-- do to it.
use redes_hamelin.Base.{
  ℕ, zero, suc, ◌+◌, ◌-◌, ◌≤◌, ◌<◌, ◌≡◌, ◌∙◌, subst, ◌⊎◌, inl, inr, none, some, List, arith, length,
  get_elem?, All, nat_Eq, Option-cases,
}
use redes_hamelin.Base.Dict.{lookup, lookup_of_erase, lookup_erased}
use native.Mathlib.Decide.{dec_lt}
use redes_hamelin.Segment.{Segment}
use redes_hamelin.Service.{Service}
use redes_hamelin.Service.Makes.{data_segment}
use redes_hamelin.Event.{Address}
use redes_hamelin.Context.{Context, schedule_timeout, cancel_timeout}
use redes_hamelin.Context.Sending.{Carries, sent-send_to, service-send_to}
use redes_hamelin.Flow.{Flow}
use redes_hamelin.Flow.Sender.{handle_ack, slide, handle_timeout}
use redes_hamelin.Flow.Sender.Acks.{
  slide_zero, slide_go, slide_kept, slide_empty, ne_of_lookup, handle_ack_unknown, acked,
  handle_ack_known, handle_timeout_unknown, transmit, handle_timeout_known,
}

pub service-transmit : (seg : Segment) (c : Context) → (transmit seg c).service ≡ c.service
unfolding schedule_timeout
service-transmit seg c = service-send_to seg c.peer_address c

pub sent-transmit :
    (P : List ℕ × Address → Type 0) (seg : Segment) (c : Context)
    → ((d : List ℕ × Address) → Carries seg d → P d)
    → All P c.sent
    → All P (transmit seg c).sent
unfolding schedule_timeout
sent-transmit P seg c h w = sent-send_to P seg c.peer_address c h w

-- The chunks of the file, the maker of its segments and the first number.
module _ (chunks : List (List ℕ)) (svc : Service) (start : ℕ) where
  abbrev pub IsChunk : ℕ → Segment → Type 0
  IsChunk n seg =
      (p : List ℕ) × (start ≤ n)
      × (get_elem? chunks (n - start) ≡ some p)
      × (seg ≡ data_segment svc n p)

  -- A datagram that carries the segment of some chunk.
  abbrev pub OnWire : List ℕ × Address → Type 0
  OnWire d = (n : ℕ) × (seg : Segment) × IsChunk n seg × Carries seg d

-- `Got n` is what is known of a number that has been sent and is no longer in flight.
module _ (chunks : List (List ℕ)) (svc : Service) (start : ℕ) (Got : ℕ → Type 0) where
  -- The window, if the packets below `top` have been sent.
  pub record WindowTo (top : ℕ) (f : Flow) : Type 0 where
    pub made_by : f.ctx.service ≡ svc
    pub starts : f.initial_sequence_number ≡ start
    pub base_from : start ≤ f.base_number
    pub base_to : f.base_number ≤ top
    pub top_to : top ≤ start + length chunks
    pub flying :
        (n : ℕ) (seg : Segment)
        → lookup n f.packets_in_flight ≡ some seg
        → (f.base_number ≤ n) × (n < top) × IsChunk chunks svc start n seg
    pub gone : (n : ℕ) → start ≤ n → n < top → lookup n f.packets_in_flight ≡ none → Got n
    pub wire : All (OnWire chunks svc start) f.ctx.sent

  abbrev pub Window : Flow → Type 0
  Window f = WindowTo f.next_sequence_number f

  -- The window begins at a packet in flight, or is empty.
  abbrev pub IsTight : Flow → Type 0
  IsTight f =
      (f.base_number ≡ f.next_sequence_number)
      ⊎ ((seg : Segment) × (lookup f.base_number f.packets_in_flight ≡ some seg))

  slide-Window :
      (fuel : ℕ) (f : Flow)
      → Window f
      → f.next_sequence_number ≤ f.base_number + fuel
      → Window (slide fuel f) × IsTight (slide fuel f)
  slide-Window zero f w h = rw slide_zero (w, inl (omega (arith, w.base_to)))
  slide-Window (suc fuel) f w h = elim (Option-cases (lookup f.base_number f.packets_in_flight)) [
    | inr (seg, e) ↦ rw (slide_kept fuel f seg e) (w, inr (seg, e))
    | inl e ↦ elim (dec_lt f.base_number f.next_sequence_number) [
      | no all ↦ rw (slide_empty fuel f all) (w, inl (omega (arith, w.base_to)))
      | yes more ↦ rw (slide_go fuel f e more) (
          slide-Window fuel _
            (record {
              made_by = w.made_by;
              starts = w.starts;
              base_from = omega (arith, w.base_from);
              base_to = omega arith;
              top_to = w.top_to;
              flying = λ n seg h.
                  let fl = w.flying n seg h in
                  let other = ne_of_lookup f.base_number n f.packets_in_flight e h in
                  (omega arith, fl.1, fl.2);
              gone = w.gone;
              wire = w.wire;
            })
            (omega arith))
    ]
  ]

  acked-Window :
      (seg : Segment) (f : Flow) → Window f → Got seg.sequence_number → Window (acked seg f)
  unfolding cancel_timeout
  acked-Window seg f w got = record {
    made_by = w.made_by;
    starts = w.starts;
    base_from = w.base_from;
    base_to = w.base_to;
    top_to = w.top_to;
    flying = λ n packet h.
        w.flying n packet (lookup_of_erase seg.sequence_number n f.packets_in_flight h).1;
    gone = λ n from to h. elim (lookup_erased seg.sequence_number n f.packets_in_flight h) [
      | inl same ↦ subst Got same got
      | inr before ↦ w.gone n from to before
    ];
    wire = w.wire;
  }

  -- An acknowledgement keeps the window, if what it acknowledges has arrived, and the base is then at
  -- a packet in flight, or at the next number.
  pub handle_ack-Window :
      (seg : Segment) (f : Flow)
      → Window f
      → IsTight f
      → Got seg.sequence_number
      → Window (handle_ack seg f) × IsTight (handle_ack seg f)
  handle_ack-Window seg f w t got =
      elim (Option-cases (lookup seg.sequence_number f.packets_in_flight)) [
        | inl e ↦ rw (handle_ack_unknown seg f e) (w, t)
        | inr (packet, e) ↦ rw (handle_ack_known seg f e) (
            slide-Window (f.next_sequence_number - f.base_number) (acked seg f)
              (acked-Window seg f w got) (omega (arith, w.base_to)))
      ]

  -- A timeout sends a packet of the window again, and changes nothing else of the window.
  pub handle_timeout-Window :
      (n : ℕ) (f : Flow)
      → Window f
      → IsTight f
      → Window (handle_timeout n f) × IsTight (handle_timeout n f)
  handle_timeout-Window n f w t = elim (Option-cases (lookup n f.packets_in_flight)) [
    | inl e ↦ rw (handle_timeout_unknown n f e) (w, t)
    | inr (seg, e) ↦ rw (handle_timeout_known n f e) (
      record {
        made_by = service-transmit seg f.ctx ∙ w.made_by;
        starts = w.starts;
        base_from = w.base_from;
        base_to = w.base_to;
        top_to = w.top_to;
        flying = w.flying;
        gone = w.gone;
        wire =
            sent-transmit (OnWire chunks svc start) seg f.ctx
              (λ d c. (n, seg, (w.flying n seg e).2, c)) w.wire;
      },
      t,
    )
  ]
