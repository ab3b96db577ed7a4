-- ===== src/Flow/Sender/Rounds.antt =====
-- flow_state.py: a round of `sendFile`, from one `ctx.get()` to the next, keeps the window.
use redes_hamelin.Base.{
  ℕ, ◌+◌, ◌-◌, ◌≤◌, ◌<◌, ◌≡◌, refl, sym, subst, ap, ◌⊎◌, inl, inr, Bool, true, false, some, List,
  arith, length, nat_Eq, ok, Bool-cases, PyError, Result-cases, lt→ltb,
}
use native.Mathlib.Decide.{dec_lt}
use redes_hamelin.Base.Dict.{lookup, length_of_empty}
use redes_hamelin.Segment.{Segment, is_ack, is_fin, is_err}
use redes_hamelin.Service.{Service, get_error_message}
use redes_hamelin.Event.{Event, segment, segment_timeout, abort}
use redes_hamelin.Context.{change_state}
use redes_hamelin.Flow.{Flow}
use redes_hamelin.Flow.Sender.{
  make_window, send_window, handle_ack, handle_timeout, abort_flow, Progress, waiting, left, raised,
  advance, on_segment, resume,
}
use redes_hamelin.Flow.Sender.Acks.{handle_ack_size, handle_timeout_size}
use redes_hamelin.Flow.Sender.Window.{
  WindowTo, Window, IsTight, handle_ack-Window, handle_timeout-Window,
}
use redes_hamelin.Flow.Sender.Packets.{at_next, Packets, make_packets_lem}
use redes_hamelin.Flow.Sender.Sending.{
  send_window-WindowTo, next-send_window, in_flight-send_window, first_in_flight, at_next-WindowTo,
}

-- How a segment ends a round: out of the loop, by an exception, ignored, or as an acknowledgement.
pub on_segment_cases :
    (chunks : List (List ℕ)) (seg : Segment) (f : Flow)
    → (((b : Bool) × (on_segment chunks seg f ≡ left b f))
        ⊎ ((e : PyError) × (on_segment chunks seg f ≡ raised e f)))
      ⊎ ((on_segment chunks seg f ≡ advance chunks f)
          ⊎ ((is_ack seg ≡ true) × (on_segment chunks seg f ≡ advance chunks (handle_ack seg f))))
unfolding on_segment
on_segment_cases chunks seg f = elim (Result-cases (get_error_message seg)) [
  | inl (m, e) ↦ elim (Bool-cases (is_err seg)) [
    | inl bad ↦ inl (inl (true, ground arith))
    | inr fine ↦ elim (Bool-cases (is_fin seg)) [
      | inl fin ↦ inl (inl (false, ground arith))
      | inr more ↦ inr (ground arith)
    ]
  ]
  | inr (x, e) ↦ elim (Bool-cases (is_err seg)) [
    | inl bad ↦ inl (inr (x, ground arith))
    | inr fine ↦ elim (Bool-cases (is_fin seg)) [
      | inl fin ↦ inl (inl (false, ground arith))
      | inr more ↦ inr (ground arith)
    ]
  ]
]

module _ (chunks : List (List ℕ)) (svc : Service) (start : ℕ) (Got : ℕ → Type 0) where
  -- A sender at `ctx.get()`: its oldest packet without acknowledgement is in flight, and the window
  -- is not exceeded.
  pub record IsWaiting (f : Flow) : Type 0 where
    pub window : Window chunks svc start Got f
    pub head : (seg : Segment) × (lookup f.base_number f.packets_in_flight ≡ some seg)
    pub small : length f.packets_in_flight ≤ f.window_size
    pub some_room : 0 < f.window_size

  -- The states that a round may end in.
  abbrev pub Keeps : Progress → Type 0
  Keeps (waiting f) = IsWaiting f
  Keeps (left error f) = Window chunks svc start Got f
  Keeps (raised e f) = Window chunks svc start Got f

  none_in_flight :
      (f : Flow)
      → Window chunks svc start Got f
      → f.base_number ≡ f.next_sequence_number
      → length f.packets_in_flight ≡ 0
  none_in_flight f w e =
      length_of_empty f.packets_in_flight
        λ n seg h. let fl = w.flying n seg h in omega (arith, fl.0, fl.1)

  filled-IsWaiting :
      (segs : List Segment) (f : Flow)
      → Window chunks svc start Got f
      → IsTight chunks svc start Got f
      → length f.packets_in_flight ≤ f.window_size
      → 0 < f.window_size
      → f.base_number - f.initial_sequence_number < length chunks
      → Packets chunks svc start 0 f f.next_sequence_number segs
      → IsWaiting (send_window segs (at_next f (f.next_sequence_number + length segs)))
  filled-IsWaiting segs f w t small room inside ps =
      let top : ℕ = f.next_sequence_number + length segs in
      let g : Flow = at_next f top in
      let kept = next-send_window chunks svc start Got segs g in
      record {
        window =
            subst (λ k. WindowTo chunks svc start Got k (send_window segs g)) (sym kept.0)
              (send_window-WindowTo chunks svc start Got segs f.next_sequence_number g
                ps.chunks_from ps.in_file
                (at_next-WindowTo chunks svc start Got f.next_sequence_number top f w));
        head =
            subst
              (λ k. (seg : Segment) × (lookup k (send_window segs g).packets_in_flight ≡ some seg))
              (sym kept.1) first_packet;
        small = elim ps.in_window [
          | inl e ↦ omega (arith, kept.2, kept.3, ap length e)
          | inr h ↦ omega (arith, kept.2, kept.3)
        ];
        some_room = omega (arith, kept.2);
      }
    where
      g' : Flow
      g' = at_next f (f.next_sequence_number + length segs)

      first_packet :
          (seg : Segment) × (lookup f.base_number (send_window segs g').packets_in_flight
            ≡ some seg)
      first_packet = elim t [
        | inl e ↦
            first_in_flight chunks svc start Got segs f.next_sequence_number g' ps.chunks_from
              (omega (arith, none_in_flight f w e, ps.full, w.starts)) e
        | inr (seg, e) ↦ in_flight-send_window chunks svc start Got segs g' f.base_number e
      ]

  pub advance_end :
      (f : Flow)
      → ¬ (f.base_number - f.initial_sequence_number < length chunks)
      → advance chunks f ≡ left false f
  unfolding advance
  advance_end f h = ground arith

  pub advance_round :
      (f : Flow) {segs : List Segment} {g : Flow}
      → f.base_number - f.initial_sequence_number < length chunks
      → make_window chunks f ≡ ok (segs, g)
      → advance chunks f ≡ waiting (send_window segs g)
  unfolding advance
  advance_round f h e = rw (lt→ltb _ _ h, e)

  -- From the head of the loop to the next `get`: nothing is raised, and the sender waits with its
  -- oldest packet in flight or has left the loop with every chunk acknowledged.
  pub advance-Keeps :
      (f : Flow)
      → Window chunks svc start Got f
      → IsTight chunks svc start Got f
      → length f.packets_in_flight ≤ f.window_size
      → 0 < f.window_size
      → Keeps (advance chunks f)
  unfolding make_window
  advance-Keeps f w t small room =
      elim (dec_lt (f.base_number - f.initial_sequence_number) (length chunks)) [
        | no done ↦ rw (advance_end f done) w
        | yes inside ↦
            let (segs, e, ps) =
              make_packets_lem chunks svc start f.window_size 0 f.next_sequence_number f w.made_by
                w.starts (omega (arith, w.base_from, w.base_to)) w.top_to (omega arith) in
            rw (advance_round f inside e) (filled-IsWaiting segs f w t small room inside ps)
      ]

  abort_flow-Window :
      (f : Flow) → Window chunks svc start Got f → Window chunks svc start Got (abort_flow f)
  unfolding abort_flow change_state
  abort_flow-Window f w = record {
    made_by = w.made_by;
    starts = w.starts;
    base_from = w.base_from;
    base_to = w.base_to;
    top_to = w.top_to;
    flying = w.flying;
    gone = w.gone;
    wire = w.wire;
  }

  -- What an event tells the sender: an acknowledgement, that its number has arrived.
  abbrev pub Tells : Event → Type 0
  Tells (segment seg addr) = is_ack seg ≡ true → Got seg.sequence_number
  Tells (segment_timeout n) = Unit
  Tells abort = Unit

  waiting_on :
      (f g : Flow)
      → IsWaiting f
      → Window chunks svc start Got g × IsTight chunks svc start Got g
      → g.window_size ≡ f.window_size
      → length g.packets_in_flight ≤ length f.packets_in_flight
      → Keeps (advance chunks g)
  waiting_on f g w h same fewer =
      advance-Keeps g h.0 h.1 (omega (arith, w.small)) (omega (arith, w.some_room))

  on_segment-Keeps :
      (seg : Segment) (f : Flow)
      → IsWaiting f
      → (is_ack seg ≡ true → Got seg.sequence_number)
      → Keeps (on_segment chunks seg f)
  on_segment-Keeps seg f w told = elim (on_segment_cases chunks seg f) [
    | inl (inl (b, stop)) ↦ rw stop w.window
    | inl (inr (e, stop)) ↦ rw stop w.window
    | inr (inl same) ↦ rw same (waiting_on f f w (w.window, inr w.head) refl (omega arith))
    | inr (inr (ack, moved)) ↦
        let size = handle_ack_size seg f in
        rw moved (
          waiting_on f (handle_ack seg f) w
            (handle_ack-Window chunks svc start Got seg f w.window (inr w.head) (told ack)) size.0
            size.1)
  ]

  -- Every event keeps the window, and leaves the sender waiting with its oldest packet in flight or
  -- out of the loop.
  pub resume-Keeps : (e : Event) (f : Flow) → IsWaiting f → Tells e → Keeps (resume chunks e f)
  unfolding resume
  resume-Keeps (segment seg addr) f w told = on_segment-Keeps seg f w told
  resume-Keeps (segment_timeout n) f w told =
      let (same, kept) = handle_timeout_size n f in
      waiting_on f (handle_timeout n f) w
        (handle_timeout-Window chunks svc start Got n f w.window (inr w.head)) same
        (omega (arith, ap (λ d. length d) kept))
  resume-Keeps abort f w told = abort_flow-Window f w.window
