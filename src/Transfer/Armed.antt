-- ===== src/Transfer/Armed.antt =====
-- In a transfer the sender that waits has a timeout for each packet in flight (flow_state.py,
-- busy_wait_timer.py).
use redes_hamelin.Base.{ℕ, sym, subst, List, nat_Eq}
use redes_hamelin.Service.{ClientType, ProtocolType, service}
use redes_hamelin.Event.{FileDetails}
use redes_hamelin.Context.{Context}
use redes_hamelin.Files.Writer.{FileWriter}
use redes_hamelin.Flow.{create, flow_state}
use redes_hamelin.Flow.Sender.Rounds.{Keeps}
use redes_hamelin.Flow.Sender.Timeouts.{KeepsArmed, advance-KeepsArmed, resume-KeepsArmed}
use redes_hamelin.Flow.Receiver.Buffer.{Arrived}
use redes_hamelin.Transfer.{
  Net, receiver_flow, Step, sender_steps, receiver_steps, Reach, here, next,
}
use redes_hamelin.Transfer.Parts.{delivery-Tells}
use redes_hamelin.Transfer.Safety.{IsSafe, Reach-IsSafe}
use redes_hamelin.Transfer.Outcome.{Begins, begin, create-Window, none_there}

module _ (chunks : List (List ℕ)) (c : ClientType) (p : ProtocolType) (start : ℕ) where
  Step-KeepsArmed :
      {s t : Net}
      → Step chunks s t
      → IsSafe chunks c p start s
      → KeepsArmed s.sender
      → KeepsArmed t.sender
  Step-KeepsArmed {s} (sender_steps f e at d made) safe armed =
      let Got = Arrived chunks (service c p) start (receiver_flow s.receiver) in
      subst (λ (x : Net). KeepsArmed x.sender) (sym made)
        (resume-KeepsArmed chunks (service c p) start Got e f
          (subst (Keeps chunks (service c p) start Got) at safe.sending)
          (delivery-Tells chunks c p start Got e (receiver_flow s.receiver).ctx.sent
            safe.in_order.acks d)
          (subst KeepsArmed at armed))
  Step-KeepsArmed {s} (receiver_steps f w e at d made) safe armed =
      subst (λ (x : Net). KeepsArmed x.sender) (sym made) armed

  pub Reach-KeepsArmed :
      {s t : Net}
      → IsSafe chunks c p start s
      → KeepsArmed s.sender
      → Reach chunks s t
      → KeepsArmed t.sender
  Reach-KeepsArmed safe armed here = armed
  Reach-KeepsArmed safe armed (next r st) =
      Step-KeepsArmed st (Reach-IsSafe chunks c p start safe r) (Reach-KeepsArmed safe armed r)

  pub begin-KeepsArmed :
      {ctx_s ctx_r : Context} (w : FileWriter) (details_s details_r : FileDetails)
      → Begins c p ctx_s ctx_r
      → KeepsArmed (begin chunks ctx_s ctx_r details_s details_r start w).sender
  unfolding begin create flow_state
  begin-KeepsArmed {ctx_s} {ctx_r} w details_s details_r b =
      advance-KeepsArmed chunks (service c p) start (λ n. Unit) (create ctx_s details_s start)
        (create-Window chunks c p start (λ n. Unit) ctx_s details_s b.sender_service b.sender_quiet)
        (λ n seg h. absurd (none_there n h))
