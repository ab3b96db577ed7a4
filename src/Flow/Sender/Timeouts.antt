-- ===== src/Flow/Sender/Timeouts.antt =====
-- flow_state.py and busy_wait_timer.py: each packet in flight has a timeout in the timer while the
-- sender waits.
use redes_hamelin.Base.{
  ℕ, zero, suc, ◌+◌, ◌-◌, ◌≡◌, ◌≢◌, ◌∙◌, refl, sym, ap, subst, inl, inr, some, List, [], ◌∷◌, arith,
  length, nat_Eq, Option-cases, Has, Result-cases,
}
use native.Mathlib.Decide.{dec_lt, ℕ_discrete}
use redes_hamelin.Base.Dict.{lookup, lookup_inserted, lookup_of_erase}
use redes_hamelin.Segment.{Segment, to_bytes}
use redes_hamelin.Service.{Service}
use redes_hamelin.Event.{Address, Event, segment, segment_timeout, abort, timeout_name, get_name}
use redes_hamelin.Timer.{Callback, Timer, rto}
use redes_hamelin.Timer.Deadlines.{schedule_puts, schedule_leaves, cancel_keeps}
use redes_hamelin.Context.{Context, send_to, schedule_timeout, cancel_timeout}
use redes_hamelin.Flow.{Flow}
use redes_hamelin.Flow.Sender.{
  Progress, waiting, make_window, send_window, handle_ack, handle_timeout, slide, advance, resume,
}
use redes_hamelin.Flow.Sender.Acks.{
  acked, handle_ack_known, handle_ack_unknown, handle_timeout_known, handle_timeout_unknown,
  ne_of_lookup, slide_zero, slide_go, slide_kept, slide_empty, transmit,
}
use redes_hamelin.Flow.Sender.Window.{Window, handle_ack-Window, handle_timeout-Window}
use redes_hamelin.Flow.Sender.Packets.{at_next, make_packets_lem}
use redes_hamelin.Flow.Sender.Rounds.{
  advance_round, advance_end, IsWaiting, Tells, on_segment_cases,
}

-- The timer holds a timeout of packet `n`.
abbrev pub IsArmed : ℕ → Context → Type 0
IsArmed n c = (x : Callback) × Has x c.timer.callbacks × (x.event ≡ segment_timeout n)

abbrev pub AllArmed : Flow → Type 0
AllArmed f = (n : ℕ) (seg : Segment) → lookup n f.packets_in_flight ≡ some seg → IsArmed n f.ctx

abbrev pub KeepsArmed : Progress → Type 0
KeepsArmed (waiting f) = AllArmed f
KeepsArmed _ = Unit

timer-send_to : (seg : Segment) (a : Address) (c : Context) → (send_to seg a c).timer ≡ c.timer
unfolding send_to
timer-send_to seg a c = elim (Result-cases (to_bytes seg)) [
  | inl (bytes, e) ↦ rw (e, send_to)
  | inr (x, e) ↦ rw (e, send_to)
]

-- A packet that is sent has its timeout, and the others keep theirs.
transmit-IsArmed : (seg : Segment) (c : Context) → IsArmed seg.sequence_number (transmit seg c)
unfolding schedule_timeout
transmit-IsArmed seg c =
    let sent = send_to seg c.peer_address c in
    (_, schedule_puts sent.now rto (segment_timeout seg.sequence_number) sent.timer, refl)

IsArmed-transmit : (n : ℕ) (seg : Segment) (c : Context) → IsArmed n c → IsArmed n (transmit seg c)
unfolding schedule_timeout
IsArmed-transmit n seg c (x, m, e) =
    let sent = send_to seg c.peer_address c in
    (
      x,
      schedule_leaves sent.now rto (segment_timeout seg.sequence_number) sent.timer
          (subst (λ (t : Timer). Has x t.callbacks) (sym (timer-send_to seg c.peer_address c)) m),
      e,
    )

number_of_name : {m n : ℕ} → timeout_name m ≡ timeout_name n → m ≡ n
number_of_name e = cc e

-- A timeout that is taken out leaves those of other packets.
IsArmed-cancel :
    (m n : ℕ) (c : Context) → m ≢ n → IsArmed n c → IsArmed n (cancel_timeout (segment_timeout m) c)
unfolding cancel_timeout get_name
IsArmed-cancel m n c other (x, there, e) = (
  x,
  (cancel_keeps (timeout_name m) c.timer x).1
      (there, λ same. other (number_of_name (sym same ∙ ap get_name e))),
  e,
)

send_window-AllArmed : (segs : List Segment) (f : Flow) → AllArmed f → AllArmed (send_window segs f)
unfolding send_window
send_window-AllArmed [] f a = a
send_window-AllArmed (seg ∷ segs) f a = send_window-AllArmed segs _ λ n s h.
    elim (lookup_inserted seg.sequence_number n seg f.packets_in_flight h) [
      | inl (here, same) ↦
          subst (λ k. IsArmed k (transmit seg f.ctx)) here (transmit-IsArmed seg f.ctx)
      | inr before ↦ IsArmed-transmit n seg f.ctx (a n s before)
    ]

ctx-slide :
    (fuel : ℕ) (f : Flow)
    → ((slide fuel f).ctx ≡ f.ctx) × ((slide fuel f).packets_in_flight ≡ f.packets_in_flight)
ctx-slide zero f = rw (slide_zero f) (refl, refl)
ctx-slide (suc fuel) f = elim (Option-cases (lookup f.base_number f.packets_in_flight)) [
  | inr (seg, e) ↦ rw (slide_kept fuel f seg e) (refl, refl)
  | inl e ↦ elim (dec_lt f.base_number f.next_sequence_number) [
    | no all ↦ rw (slide_empty fuel f all) (refl, refl)
    | yes more ↦
        rw (slide_go fuel f e more) (ctx-slide fuel (record f { base_number = f.base_number + 1 }))
  ]
]

acked-AllArmed : (seg : Segment) (f : Flow) → AllArmed f → AllArmed (acked seg f)
acked-AllArmed seg f a n s h =
    let (other, before) = lookup_of_erase seg.sequence_number n f.packets_in_flight h in
    IsArmed-cancel seg.sequence_number n f.ctx other (a n s before)

pub handle_ack-AllArmed : (seg : Segment) (f : Flow) → AllArmed f → AllArmed (handle_ack seg f)
handle_ack-AllArmed seg f a = elim (Option-cases (lookup seg.sequence_number f.packets_in_flight)) [
  | inl e ↦ subst AllArmed (sym (handle_ack_unknown seg f e)) a
  | inr (packet, e) ↦
      let left = f.next_sequence_number - f.base_number in
      let (same, flying) = ctx-slide left (acked seg f) in
      subst AllArmed (sym (handle_ack_known seg f e)) (λ n s h.
        subst (IsArmed n) (sym same)
          (acked-AllArmed seg f a n s (subst (λ d. lookup n d ≡ some s) flying h)))
]

-- What a timeout leaves when it comes from the timer, as `updateDeadlines` takes it out.
abbrev pub fired : Event → Flow → Flow
fired (segment_timeout n) f = record f { ctx = cancel_timeout (segment_timeout n) f.ctx }
fired _ f = f

handle_timeout-AllArmed :
    (n : ℕ) (f : Flow)
    → ((seg : Segment) → lookup n f.packets_in_flight ≡ some seg → seg.sequence_number ≡ n)
    → AllArmed f
    → AllArmed (handle_timeout n (fired (segment_timeout n) f))
handle_timeout-AllArmed n f numbered a =
    let g = fired (segment_timeout n) f in
    elim (Option-cases (lookup n f.packets_in_flight)) [
      | inl e ↦
          subst AllArmed (sym (handle_timeout_unknown n g e))
            λ k s h. IsArmed-cancel n k f.ctx (ne_of_lookup n k f.packets_in_flight e h) (a k s h)
      | inr (seg, e) ↦ subst AllArmed (sym (handle_timeout_known n g e)) λ k s h.
          elim (ℕ_discrete n k) [
            | yes same ↦
                subst (λ j. IsArmed j (transmit seg g.ctx)) (numbered seg e ∙ same)
                  (transmit-IsArmed seg g.ctx)
            | no other ↦ IsArmed-transmit k seg g.ctx (IsArmed-cancel n k f.ctx other (a k s h))
          ]
    ]

module _ (chunks : List (List ℕ)) (svc : Service) (start : ℕ) (Got : ℕ → Type 0) where
  numbered :
      (n : ℕ) (f : Flow)
      → Window chunks svc start Got f
      → (seg : Segment) → lookup n f.packets_in_flight ≡ some seg
      → seg.sequence_number ≡ n
  numbered n f w seg e =
      let (_, _, (payload, _, _, made)) = w.flying n seg e in
      ap (λ (x : Segment). x.sequence_number) made

  pub advance-KeepsArmed :
      (f : Flow) → Window chunks svc start Got f → AllArmed f → KeepsArmed (advance chunks f)
  unfolding make_window
  advance-KeepsArmed f w a =
      elim (dec_lt (f.base_number - f.initial_sequence_number) (length chunks)) [
        | no done ↦ rw (advance_end chunks svc start Got f done) tt
        | yes inside ↦
            let (segs, e, ps) =
              make_packets_lem chunks svc start f.window_size 0 f.next_sequence_number f w.made_by
                w.starts (omega (arith, w.base_from, w.base_to)) w.top_to (omega arith) in
            rw (advance_round chunks svc start Got f inside e)
              (send_window-AllArmed segs (at_next f (f.next_sequence_number + length segs)) a)
      ]

  fired-Window :
      (e : Event) (f : Flow)
      → Window chunks svc start Got f
      → Window chunks svc start Got (fired e f)
  unfolding cancel_timeout
  fired-Window (segment seg addr) f w = w
  fired-Window (segment_timeout n) f w = record {
    made_by = w.made_by;
    starts = w.starts;
    base_from = w.base_from;
    base_to = w.base_to;
    top_to = w.top_to;
    flying = w.flying;
    gone = w.gone;
    wire = w.wire;
  }
  fired-Window abort f w = w

  pub fired-IsWaiting :
      (e : Event) (f : Flow)
      → IsWaiting chunks svc start Got f
      → IsWaiting chunks svc start Got (fired e f)
  unfolding cancel_timeout
  fired-IsWaiting (segment seg addr) f w = w
  fired-IsWaiting (segment_timeout n) f w = record {
    window = fired-Window (segment_timeout n) f w.window;
    head = w.head;
    small = w.small;
    some_room = w.some_room;
  }
  fired-IsWaiting abort f w = w

  -- Every event that leaves the sender waiting leaves a timeout for each packet in flight.
  pub resume-KeepsArmed :
      (e : Event) (f : Flow)
      → IsWaiting chunks svc start Got f
      → Tells chunks svc start Got e
      → AllArmed f
      → KeepsArmed (resume chunks e (fired e f))
  unfolding resume
  resume-KeepsArmed (segment seg addr) f w told a = elim (on_segment_cases chunks seg f) [
    | inl (inl (b, stop)) ↦ rw stop tt
    | inl (inr (e, stop)) ↦ rw stop tt
    | inr (inl same) ↦ rw same (advance-KeepsArmed f w.window a)
    | inr (inr (ack, moved)) ↦ rw moved (
        advance-KeepsArmed (handle_ack seg f)
          (handle_ack-Window chunks svc start Got seg f w.window (inr w.head) (told ack)).0
          (handle_ack-AllArmed seg f a))
  ]
  resume-KeepsArmed (segment_timeout n) f w told a =
      let g = fired (segment_timeout n) f in
      advance-KeepsArmed (handle_timeout n g)
        (handle_timeout-Window chunks svc start Got n g
          (fired-Window (segment_timeout n) f w.window) (inr w.head)).0
        (handle_timeout-AllArmed n f (numbered n f w.window) a)
  resume-KeepsArmed abort f w told a = tt
