-- ===== src/Transfer/Open.antt =====
-- A receiver that has got no FIN goes on receiving, and nothing that the sender sends brings one
-- (`downloadFile` of flow_state.py).
use redes_hamelin.Base.{
  ℕ, nat_Eq, ◌<◌, ◌≡◌, ◌∙◌, refl, sym, subst, inl, inr, false, List, arith, All, Option,
}
use redes_hamelin.Segment.{Segment}
use redes_hamelin.Service.{ClientType, ProtocolType, service}
use redes_hamelin.Event.{Address, Event, segment, segment_timeout}
use redes_hamelin.Files.Writer.{FileWriter}
use redes_hamelin.Flow.{Flow}
use redes_hamelin.Flow.Receiver.{
  Received, kept, failed, Download, receiving, receive, check_finished, handle_segment_received,
}
use redes_hamelin.Flow.Receiver.Answering.{flow_of, data-Same}
use redes_hamelin.Transfer.{
  Net, sender_flow, receiver_flow, Delivery, datagram, timer, late, stop, Step, sender_steps,
  receiver_steps, Reach, here, next,
}
use redes_hamelin.Transfer.Parts.{IsUnbroken, Keeps-wire}
use redes_hamelin.Transfer.Safety.{IsSafe, Reach-IsSafe}
use redes_hamelin.Transfer.Wire.{from_bytes-IsData}
use redes_hamelin.Event.{abort}
use redes_hamelin.Flow.Sender.Window.{OnWire}
use redes_hamelin.Flow.Sender.{abort_flow}
use redes_hamelin.Base.{All-has}

pub ctx-check_finished : (r : Received) → (receiver_flow (check_finished r)).ctx ≡ (flow_of r).ctx
unfolding check_finished
ctx-check_finished (kept f w) = ground arith
ctx-check_finished (failed e f w) = refl

window-check_finished :
    (r : Received)
    → (receiver_flow (check_finished r)).receive_window_size ≡ (flow_of r).receive_window_size
unfolding check_finished
window-check_finished (kept f w) = ground arith
window-check_finished (failed e f w) = refl

fin-check_finished :
    (r : Received) → (receiver_flow (check_finished r)).fin_received ≡ (flow_of r).fin_received
unfolding check_finished
fin-check_finished (kept f w) = ground arith
fin-check_finished (failed e f w) = refl

-- Without a FIN the receiver goes on.
goes_on :
    (r : Received)
    → (flow_of r).fin_received ≡ false
    → IsUnbroken (check_finished r)
    → (g : Flow) × (w : FileWriter) × (check_finished r ≡ receiving g w)
unfolding check_finished
goes_on (kept f w) h u = (f, w, ground (arith, h))
goes_on (failed e f w) h u = absurd u

pub still_receives :
    (seg : Segment) (addr : Option Address) (f : Flow) (w : FileWriter)
    → (receiver_flow (receive (segment seg addr) f w)).fin_received ≡ false
    → IsUnbroken (receive (segment seg addr) f w)
    → (g : Flow) × (v : FileWriter) × (receive (segment seg addr) f w ≡ receiving g v)
unfolding receive
still_receives seg addr f w h u =
    let r = handle_segment_received seg f w in goes_on r (sym (fin-check_finished r) ∙ h) u

pub Reach-trans :
    {chunks : List (List ℕ)} {s t u : Net} → Reach chunks s t → Reach chunks t u → Reach chunks s u
Reach-trans r here = r
Reach-trans r (next q st) = next (Reach-trans r q) st

-- A receiver that has room in its window and has got no FIN.
abbrev pub IsOpen : Download → Type 0
IsOpen d = (0 < (receiver_flow d).receive_window_size) × ((receiver_flow d).fin_received ≡ false)

module _ (chunks : List (List ℕ)) (c : ClientType) (p : ProtocolType) (start : ℕ) where
  -- An event of the network neither changes the size of the receive window nor brings a FIN.
  receive-Same :
      (e : Event) (f : Flow) (w : FileWriter) (sent : List (List ℕ × Address))
      → All (OnWire chunks (service c p) start) sent
      → Delivery f sent e
      → ((receiver_flow (receive e f w)).receive_window_size ≡ f.receive_window_size)
        × ((receiver_flow (receive e f w)).fin_received ≡ f.fin_received)
  unfolding receive abort_flow
  receive-Same (segment seg addr) f w sent wire (datagram {d = d} a m fits read) =
      let (plain, _, _) =
        from_bytes-IsData chunks c p start d (All-has (OnWire chunks (service c p) start) wire m)
          read in
      let r = handle_segment_received seg f w in
      elim (data-Same seg f w plain) [
        | inl same ↦ (window-check_finished r ∙ same.1, fin-check_finished r ∙ same.2)
        | inr same ↦ (window-check_finished r ∙ same.1, fin-check_finished r ∙ same.2)
      ]
  receive-Same (segment_timeout n) f w sent wire (timer m armed) = (refl, refl)
  receive-Same (segment_timeout n) f w sent wire (late m gone) = (refl, refl)
  receive-Same abort f w sent wire stop = (refl, refl)

  pub Step-IsOpen :
      {s t : Net}
      → Step chunks s t
      → IsSafe chunks c p start s
      → IsOpen s.receiver
      → IsOpen t.receiver
  Step-IsOpen {s} (sender_steps f e at d made) safe open_so =
      subst (λ (x : Net). IsOpen x.receiver) (sym made) open_so
  Step-IsOpen {s} (receiver_steps f w e at d made) safe open_so =
      let (window, fin) =
        receive-Same e f w (sender_flow s.sender).ctx.sent
          (Keeps-wire chunks (service c p) start _ s.sender safe.sending) d in
      let before = subst IsOpen at open_so in
      subst (λ (x : Net). IsOpen x.receiver) (sym made)
        (omega (arith, window, before.0), fin ∙ before.1)

  pub Reach-IsOpen :
      {s t : Net}
      → IsSafe chunks c p start s
      → IsOpen s.receiver
      → Reach chunks s t
      → IsOpen t.receiver
  Reach-IsOpen safe open_so here = open_so
  Reach-IsOpen safe open_so (next r st) =
      Step-IsOpen st (Reach-IsSafe chunks c p start safe r) (Reach-IsOpen safe open_so r)
