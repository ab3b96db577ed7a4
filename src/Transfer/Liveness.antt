-- ===== src/Transfer/Liveness.antt =====
-- The sender can always finish: a timeout, the packet and its acknowledgement make a round that
-- moves its base (the loops of sendFile and downloadFile in flow_state.py).
use redes_hamelin.Base.{ℕ, nat_Eq, ◌+◌, ◌<◌, ◌≡◌, false, List, length, ◌⊎◌}
use redes_hamelin.Service.{ClientType, ProtocolType}
use redes_hamelin.Context.{Context}
use redes_hamelin.Files.Writer.{FileWriter}
use redes_hamelin.Flow.{Flow}
use redes_hamelin.Flow.Sender.{Progress, waiting, left}
use redes_hamelin.Flow.Sender.Window.{Window}
use redes_hamelin.Flow.Receiver.{receiving}
use redes_hamelin.Transfer.{Net, sender_flow, Reach}

module _ (chunks : List (List ℕ)) (c : ClientType) (p : ProtocolType) (start : ℕ) where
  -- The sender waits, or has left the loop with every chunk acknowledged.
  abbrev IsOnItsWay : Progress → Type 0
  IsOnItsWay q =
      ((h : Flow) × (q ≡ waiting h))
      ⊎ ((h : Flow) × (q ≡ left false h) × (h.base_number ≡ start + length chunks))

  -- One round: timeout, packet and acknowledgement.
  pub record Round (s : Net) (n : ℕ) : Type 0 where
    pub net : Net
    pub run : Reach chunks s net
    pub more : n < (sender_flow net.sender).base_number
    pub sending : IsOnItsWay net.sender
    pub receives : (g : Flow) × (v : FileWriter) × (net.receiver ≡ receiving g v)
