-- ===== src/Transfer/Safety.antt =====
-- The invariant of a transfer: what the sender may forget has arrived, and what has arrived is
-- written in order. It holds at the start and is kept by every step.
use redes_hamelin.Base.{ℕ, sym, subst, List}
use redes_hamelin.Service.{ClientType, ProtocolType, service}
use redes_hamelin.Flow.Sender.Rounds.{Keeps, resume-Keeps}
use redes_hamelin.Flow.Sender.Timeouts.{fired, fired-IsWaiting}
use redes_hamelin.Flow.Receiver.Buffer.{Arrived, InOrder}
use redes_hamelin.Transfer.{
  Net, sender_flow, receiver_flow, receiver_file, Step, sender_steps, receiver_steps, Reach, here,
  next,
}
use redes_hamelin.Transfer.Parts.{
  Keeps-mono, Keeps-wire, IsUnbroken, receive-Downloads, delivery-Tells,
}

module _ (chunks : List (List ℕ)) (c : ClientType) (p : ProtocolType) (start : ℕ) where
  pub record IsSafe (s : Net) : Type 0 where
    pub sending :
        Keeps chunks
          (service c p)
          start
          (Arrived chunks (service c p) start (receiver_flow s.receiver))
          s.sender
    pub in_order :
        InOrder chunks (service c p) start (receiver_flow s.receiver) (receiver_file s.receiver)
    pub unbroken : IsUnbroken s.receiver

  -- Every step of the network keeps the invariant.
  pub Step-IsSafe : {s t : Net} → Step chunks s t → IsSafe s → IsSafe t
  Step-IsSafe {s} {t} (sender_steps f e at d made) safe = subst IsSafe (sym made) (record {
    sending =
        resume-Keeps chunks (service c p) start Got e (fired e f)
          (fired-IsWaiting chunks (service c p) start Got e f
            (subst (Keeps chunks (service c p) start Got) at safe.sending))
          (delivery-Tells chunks c p start Got e (receiver_flow s.receiver).ctx.sent
            safe.in_order.acks d);
    in_order = safe.in_order;
    unbroken = safe.unbroken;
  })
    where
      Got : ℕ → Type 0
      Got = Arrived chunks (service c p) start (receiver_flow s.receiver)
  Step-IsSafe {s} {t} (receiver_steps f w e at d made) safe =
      let arrives =
        receive-Downloads chunks c p start f w e (sender_flow s.sender).ctx.sent
          (subst (λ r. InOrder chunks (service c p) start (receiver_flow r) (receiver_file r)) at
            safe.in_order)
          (Keeps-wire chunks (service c p) start _ s.sender safe.sending) d in
      subst IsSafe (sym made) (record {
        sending = Keeps-mono chunks (service c p) start s.sender arrives.still (
            subst
              (λ r.
                Keeps chunks (service c p) start
                  (Arrived chunks (service c p) start (receiver_flow r)) s.sender)
              at safe.sending);
        in_order = arrives.in_order;
        unbroken = arrives.unbroken;
      })

  pub Reach-IsSafe : {s t : Net} → IsSafe s → Reach chunks s t → IsSafe t
  Reach-IsSafe h here = h
  Reach-IsSafe h (next r st) = Step-IsSafe st (Reach-IsSafe h r)
