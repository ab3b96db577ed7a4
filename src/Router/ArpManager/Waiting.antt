-- ===== src/Router/ArpManager/Waiting.antt =====
-- arp_manager.py: packets wait for an address in their order, and a learned address is known.
use redes_hamelin.Base.{
  ℕ, ◌≡◌, refl, sym, ap, ◌∙◌, Bool, some, List, [], ◌∷◌, ◌++◌, append_assoc, append-nil, arith,
  ◌==◌, if◌then◌else◌, nat_Eq, Option-cases, inl, inr,
}
use redes_hamelin.Base.Dict.{lookup, insert, lookup-insert}
use redes_hamelin.Router.ArpManager.{
  ArpManager, PendingPacket, waiting_for, queue_pending, pop_pending, learn, lookup_mac,
  update_entry, new_entry,
}

-- Packets that come one after another.
pub queue_all : ℕ → List PendingPacket → ArpManager → ArpManager
queue_all ip [] m = m
queue_all ip (p ∷ ps) m = queue_all ip ps (queue_pending ip p m).1

pop-queue_pending :
    (ip : ℕ) (p : PendingPacket) (m : ArpManager)
    → (pop_pending ip (queue_pending ip p m).1).0 ≡ (pop_pending ip m).0 ++ p ∷ []
unfolding pop_pending queue_pending waiting_for
pop-queue_pending ip p m =
    let found : lookup ip (insert ip (waiting_for (lookup ip m.pending) ++ p ∷ []) m.pending)
        ≡ some (waiting_for (lookup ip m.pending) ++ p ∷ []) =
      ground (arith, lookup-insert ip ip (waiting_for (lookup ip m.pending) ++ p ∷ []) m.pending) in
    rw found refl

-- What `pop_pending` hands out for an address after packets were queued for it: those that had
-- waited, then the new ones, in order.
pub pop-queue_all :
    (ip : ℕ) (ps : List PendingPacket) (m : ArpManager)
    → (pop_pending ip (queue_all ip ps m)).0 ≡ (pop_pending ip m).0 ++ ps
unfolding queue_all
pop-queue_all ip [] m = sym (append-nil (pop_pending ip m).0)
pop-queue_all ip (p ∷ ps) m =
    pop-queue_all ip ps (queue_pending ip p m).1
    ∙ ap (λ w. w ++ ps) (pop-queue_pending ip p m)
    ∙ append_assoc (pop_pending ip m).0 (p ∷ []) ps

-- After `learn`, the address has the entry that `learn` returns, with the MAC and the port that it
-- was given, and no other address has changed.
pub lookup-learn :
    (in_network : ℕ → Bool) (now ip mac port : ℕ) (m : ArpManager) (other : ℕ)
    → let ((entry, _), m') = learn in_network now ip mac port m in
      (lookup_mac other m' ≡ (if ip == other then some entry else lookup_mac other m))
      × (entry.mac ≡ mac)
      × (entry.switch_openflow_port ≡ port)
unfolding learn lookup_mac update_entry new_entry
lookup-learn in_network now ip mac port m other = elim (Option-cases (lookup ip m.table)) [
  | inl e ↦ rw (e, learn) (lookup-insert ip other _ m.table, refl, refl)
  | inr (x, e) ↦ rw (e, learn) (lookup-insert ip other _ m.table, refl, refl)
]
