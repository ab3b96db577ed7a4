-- ===== src/Router/NatManager/Keys.antt =====
-- nat_manager.py: the entry under a port has that port, so that the entry found by its flow is removed
-- under its own port.
use redes_hamelin.Base.{
  ℕ, ◌≤◌, ◌<◌, ◌≡◌, sym, ap, ◌∙◌, Bool, true, false, some, [], ◌∷◌, arith, nat_Eq, Bool-cases, inl,
  inr, All,
}
use redes_hamelin.Base.Dict.{Dict, lookup}
use redes_hamelin.Router.NatEntry.{Protocol, NatEntry, outgoing}
use redes_hamelin.Router.NatManager.{
  NatManager, find_first, find_outgoing, handle_flow_removed_outgoing,
}
use redes_hamelin.Router.NatManager.Ports.{uses, Allots}
use redes_hamelin.Router.NatManager.Removal.{flow_removed-Allots, on_entry-keeps}

abbrev pub IsOwn : Dict ℕ NatEntry → ℕ × ℕ → Type 0
IsOwn store (port, ref) = (e : NatEntry) × (lookup ref store ≡ some e) × (e.nat_public_port ≡ port)

-- Every entry of the table is in the store and has the port that it stands under; references that
-- are still to be given out are not in the store.
pub record Keyed (m : NatManager) : Type 0 where
  pub own : All (IsOwn m.store) m.entries
  pub below : (ref : ℕ) (e : NatEntry) → lookup ref m.store ≡ some e → ref < m.next_ref

find_first_here :
    (p : NatEntry → Bool) (store : Dict ℕ NatEntry) (port r : ℕ) (d : Dict ℕ ℕ) {x : NatEntry}
    → lookup r store ≡ some x
    → p x ≡ true
    → find_first p store ((port, r) ∷ d) ≡ some r
unfolding find_first
find_first_here p store port r d at passes = rw (at, passes, find_first)

find_first_later :
    (p : NatEntry → Bool) (store : Dict ℕ NatEntry) (port r : ℕ) (d : Dict ℕ ℕ) {x : NatEntry}
    → lookup r store ≡ some x
    → p x ≡ false
    → find_first p store ((port, r) ∷ d) ≡ find_first p store d
unfolding find_first
find_first_later p store port r d at fails = rw (at, fails, find_first)

uses_first : (p port r : ℕ) (d : Dict ℕ ℕ) → port ≡ p → 1 ≤ uses p ((port, r) ∷ d)
uses_first p port r d e = ground (arith)

uses_later : (p port r : ℕ) (d : Dict ℕ ℕ) → 1 ≤ uses p d → 1 ≤ uses p ((port, r) ∷ d)
uses_later p port r d h = ground (arith)

find_first-uses :
    (p : NatEntry → Bool) (store : Dict ℕ NatEntry) (d : Dict ℕ ℕ) (ref : ℕ) (e : NatEntry)
    → All (IsOwn store) d
    → find_first p store d ≡ some ref
    → lookup ref store ≡ some e
    → 1 ≤ uses e.nat_public_port d
unfolding find_first
find_first-uses p store [] ref e own found there = absurd (cc found)
find_first-uses p store ((port, r) ∷ d) ref e ((x, at, same), own) found there =
    elim (Bool-cases (p x)) [
      | inl yes' ↦
          let found_here = find_first_here p store port r d at yes' in
          let the_entry : x ≡ e = cc in
          uses_first e.nat_public_port port r d
            (sym same ∙ ap (λ (y : NatEntry). y.nat_public_port) the_entry)
      | inr no' ↦ uses_later e.nat_public_port port r d (
          find_first-uses p store d ref e own
            (sym (find_first_later p store port r d at no') ∙ found) there)
    ]

-- A removed outgoing flow keeps the allotment, whether its entry stays or goes.
pub handle_flow_removed_outgoing-Allots :
    (init : ℕ) (protocol : Protocol) (private_ip private_port public_ip public_port : ℕ)
    (m : NatManager)
    → Keyed m
    → Allots init m
    → Allots init
        (handle_flow_removed_outgoing protocol private_ip private_port public_ip public_port m)
unfolding handle_flow_removed_outgoing find_outgoing
handle_flow_removed_outgoing-Allots init protocol private_ip private_port public_ip public_port m k
      a =
    on_entry-keeps (Allots init)
      (find_outgoing protocol private_ip private_port public_ip public_port m) _ m a
      λ ref e found there.
        flow_removed-Allots init e.nat_public_port ref outgoing e m
          (find_first-uses _ m.store m.entries ref e k.own found there) a
