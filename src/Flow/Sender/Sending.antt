-- ===== src/Flow/Sender/Sending.antt =====
-- flow_state.py, `sendWindow`: the packets that it sends are in flight.
use redes_hamelin.Base.{
  ℕ, ◌+◌, ◌≤◌, ◌<◌, ◌≡◌, refl, sym, subst, ◌∙◌, inl, inr, some, List, [], ◌∷◌, arith, length,
  nat_Eq,
}
use mathlib.Core.Path.{subst₂}
use redes_hamelin.Base.Dict.{
  lookup, insert, length-insert, lookup-insert, still_in, lookup_inserted, lookup_not_inserted,
}
use redes_hamelin.Segment.{Segment}
use redes_hamelin.Service.{Service}
use redes_hamelin.Flow.{Flow}
use redes_hamelin.Flow.Sender.{send_window}
use redes_hamelin.Flow.Sender.Acks.{transmit}
use redes_hamelin.Flow.Sender.Window.{IsChunk, OnWire, WindowTo, service-transmit, sent-transmit}
use redes_hamelin.Flow.Sender.Packets.{at_next, AreChunksFrom}

send_window_nil : (f : Flow) → send_window [] f ≡ f
unfolding send_window
send_window_nil f = refl

send_window_cons :
    (seg : Segment) (segs : List Segment) (f : Flow)
    → send_window (seg ∷ segs) f
      ≡ send_window segs (record f {
        ctx = transmit seg f.ctx;
        packets_in_flight = insert seg.sequence_number seg f.packets_in_flight;
      })
unfolding send_window
send_window_cons seg segs f = refl

-- Sending packets one after another raises the top of the window past them.
module _ (chunks : List (List ℕ)) (svc : Service) (start : ℕ) (Got : ℕ → Type 0) where
  abbrev sent_one : Segment → Flow → Flow
  sent_one seg f = record f {
    ctx = transmit seg f.ctx;
    packets_in_flight = insert seg.sequence_number seg f.packets_in_flight;
  }

  sent_one-WindowTo :
      (n : ℕ) (seg : Segment) (f : Flow)
      → seg.sequence_number ≡ n
      → IsChunk chunks svc start n seg
      → n < start + length chunks
      → WindowTo chunks svc start Got n f
      → WindowTo chunks svc start Got (n + 1) (sent_one seg f)
  sent_one-WindowTo n seg f at is_chunk room w = record {
    made_by = service-transmit seg f.ctx ∙ w.made_by;
    starts = w.starts;
    base_from = w.base_from;
    base_to = omega (arith, w.base_to);
    top_to = omega arith;
    flying = λ m s h. elim (lookup_inserted seg.sequence_number m seg f.packets_in_flight h) [
      | inl (here, same) ↦ (
        omega (arith, w.base_to),
        omega arith,
        subst₂ (IsChunk chunks svc start) (sym at ∙ here) same is_chunk,
      )
      | inr before ↦ let fl = w.flying m s before in (fl.0, omega (arith, fl.1), fl.2)
    ];
    gone = λ m from to h.
        let (other, before) = lookup_not_inserted seg.sequence_number m seg f.packets_in_flight h in
        w.gone m from (omega arith) before;
    wire = sent-transmit (OnWire chunks svc start) seg f.ctx (λ d c. (n, seg, is_chunk, c)) w.wire;
  }

  pub send_window-WindowTo :
      (segs : List Segment) (n : ℕ) (f : Flow)
      → AreChunksFrom chunks svc start n segs
      → n + length segs ≤ start + length chunks
      → WindowTo chunks svc start Got n f
      → WindowTo chunks svc start Got (n + length segs) (send_window segs f)
  send_window-WindowTo [] n f cs room w =
      let e : n ≡ n + length {A = Segment} [] = omega arith in
      subst (λ k. WindowTo chunks svc start Got k (send_window [] f)) e (rw send_window_nil w)
  send_window-WindowTo (seg ∷ segs) n f cs room w =
      let e : n + 1 + length segs ≡ n + length (seg ∷ segs) = omega arith in
      subst (λ k. WindowTo chunks svc start Got k (send_window (seg ∷ segs) f)) e
        (rw send_window_cons (
          send_window-WindowTo segs (n + 1) (sent_one seg f) cs.2 (omega arith)
            (sent_one-WindowTo n seg f cs.0 cs.1 (omega arith) w)))

  pub next-send_window :
      (segs : List Segment) (f : Flow)
      → ((send_window segs f).next_sequence_number ≡ f.next_sequence_number)
        × ((send_window segs f).base_number ≡ f.base_number)
        × ((send_window segs f).window_size ≡ f.window_size)
        × (length (send_window segs f).packets_in_flight ≤ length f.packets_in_flight + length segs)
  unfolding send_window
  next-send_window [] f = (refl, refl, refl, omega arith)
  next-send_window (seg ∷ segs) f =
      let rest = next-send_window segs (sent_one seg f) in
      (
        rest.0,
        rest.1,
        rest.2,
        omega (arith, rest.3, length-insert seg.sequence_number seg f.packets_in_flight),
      )

  -- A packet that is in flight stays there while more are sent, and those sent are in flight.
  pub in_flight-send_window :
      (segs : List Segment) (f : Flow) (n : ℕ) {seg : Segment}
      → lookup n f.packets_in_flight ≡ some seg
      → (seg' : Segment) × (lookup n (send_window segs f).packets_in_flight ≡ some seg')
  unfolding send_window
  in_flight-send_window [] f n {seg} h = (seg, h)
  in_flight-send_window (x ∷ segs) f n h =
      let (_, kept) = still_in x.sequence_number n x f.packets_in_flight h in
      in_flight-send_window segs (sent_one x f) n kept

  pub first_in_flight :
      (segs : List Segment) (n : ℕ) (f : Flow)
      → AreChunksFrom chunks svc start n segs
      → 0 < length segs
      → f.base_number ≡ n
      → (seg : Segment) × (lookup f.base_number (send_window segs f).packets_in_flight ≡ some seg)
  first_in_flight [] n f cs h e = absurd (omega arith)
  first_in_flight (seg ∷ segs) n f cs h e = rw send_window_cons (
      in_flight-send_window segs (sent_one seg f) f.base_number {seg = seg} (
        ground
          (arith, cs.0, lookup-insert seg.sequence_number f.base_number seg f.packets_in_flight)))

  -- The window does not look at the next number.
  pub at_next-WindowTo :
      (top n : ℕ) (f : Flow)
      → WindowTo chunks svc start Got top f
      → WindowTo chunks svc start Got top (at_next f n)
  at_next-WindowTo top n f w = record {
    made_by = w.made_by;
    starts = w.starts;
    base_from = w.base_from;
    base_to = w.base_to;
    top_to = w.top_to;
    flying = w.flying;
    gone = w.gone;
    wire = w.wire;
  }
