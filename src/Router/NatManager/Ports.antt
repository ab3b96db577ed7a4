-- ===== src/Router/NatManager/Ports.antt =====
-- nat_manager.py: every public port that was ever handed out is either under one entry of the table
-- or free, and none is both.
use redes_hamelin.Base.{
  ℕ, ◌+◌, ◌≤◌, ◌≡◌, ◌⊎◌, refl, ap, ◌&&◌, some, List, [], ◌∷◌, arith, ltb, leb, ◌==◌, if◌then◌else◌,
  nat_Eq, Option-cases, inl, inr,
}
use redes_hamelin.Base.Dict.{Dict, lookup, insert, erase}
use redes_hamelin.Router.NatEntry.{
  FlowInfo, NatEntry, Direction, incoming, is_stale, mark_flow_removed,
}
use redes_hamelin.Router.NatEntry
use redes_hamelin.Router.NatManager.{
  NatManager, create, find_outgoing, remove_entry, assign_public_port, expired_ports, remove_all,
  evict_stale_entries, add_entry, get_or_create_outgoing_entry,
}

-- How often a port stands in a list, and under how many entries.
abbrev pub count : ℕ → List ℕ → ℕ
count p [] = 0
count p (q ∷ qs) = if q == p then count p qs + 1 else count p qs

abbrev pub uses : ℕ → Dict ℕ ℕ → ℕ
uses p [] = 0
uses p ((q, _) ∷ d) = if q == p then uses p d + 1 else uses p d

uses-erase : (p q : ℕ) (d : Dict ℕ ℕ) → uses p (erase q d) ≡ (if q == p then 0 else uses p d)
unfolding erase
uses-erase p q [] = ground arith
uses-erase p q ((r, v) ∷ d) = ground (arith, uses-erase p q d)

uses-insert :
    (p q v : ℕ) (d : Dict ℕ ℕ)
    → uses q d ≡ 0
    → uses p (insert q v d) ≡ (if q == p then uses p d + 1 else uses p d)
unfolding insert
uses-insert p q v [] h = ground arith
uses-insert p q v ((r, w) ∷ d) h = ground (arith, uses-insert p q v d)

pub lookup-uses : (p : ℕ) (d : Dict ℕ ℕ) {ref : ℕ} → lookup p d ≡ some ref → 1 ≤ uses p d
unfolding lookup
lookup-uses p [] h = absurd (cc h)
lookup-uses p ((q, v) ∷ d) {ref} h = ground (arith, lookup-uses p d {ref = ref})

expired_uses :
    (now p : ℕ) (store : Dict ℕ NatEntry) (d : Dict ℕ ℕ)
    → count p (expired_ports now store d) ≤ uses p d
unfolding expired_ports
expired_uses now p store [] = omega arith
expired_uses now p store ((q, ref) ∷ d) = ground (arith, expired_uses now p store d)

-- Each port from the initial one up to the next new one is under one entry or free, once; no other
-- port is either.
abbrev pub Allots : ℕ → NatManager → Type 0
Allots init m =
    (init ≤ m.next_port)
    × ((p : ℕ)
        → uses p m.entries + count p m.free_ports
          ≡ (if leb init p && ltb p m.next_port then 1 else 0))

pub create-Allots : (init : ℕ) → Allots init (create init)
unfolding create
create-Allots init = (omega arith, λ p. ground arith)

pub remove_entry-Allots :
    (init q : ℕ) (m : NatManager)
    → 1 ≤ uses q m.entries
    → Allots init m
    → Allots init (remove_entry q m)
unfolding remove_entry
remove_entry-Allots init q m here (top, all) =
    (top, λ p. ground (arith, uses-erase p q m.entries, all p, all q))

remove_all-Allots :
    (init : ℕ) (ports : List ℕ) (m : NatManager)
    → ((p : ℕ) → count p ports ≤ uses p m.entries)
    → Allots init m
    → Allots init (remove_all ports m)
unfolding remove_all remove_entry
remove_all-Allots init [] m within a = a
remove_all-Allots init (q ∷ ports) m within a =
    remove_all-Allots init ports (remove_entry q m)
      (λ p. ground (arith, within p, uses-erase p q m.entries, a.1 p))
      (remove_entry-Allots init q m (ground (arith, within q)) a)

-- Evicting the stale entries frees their ports and keeps the allotment.
pub evict-Allots :
    (init now : ℕ) (m : NatManager) → Allots init m → Allots init (evict_stale_entries now m).1
unfolding evict_stale_entries
evict-Allots init now m a =
    remove_all-Allots init (expired_ports now m.store m.entries) m
      (λ p. expired_uses now p m.store m.entries) a

-- What is left of the allotment while a port is on its way into the table.
abbrev Lacks : ℕ → ℕ → NatManager → Type 0
Lacks init q m =
    (uses q m.entries ≡ 0)
    × (init ≤ m.next_port)
    × ((p : ℕ)
        → uses p m.entries + count p m.free_ports + (if q == p then 1 else 0)
          ≡ (if leb init p && ltb p m.next_port then 1 else 0))

List-cases : (xs : List ℕ) → (xs ≡ []) ⊎ ((y : ℕ) × (ys : List ℕ) × (xs ≡ y ∷ ys))
List-cases [] = inl refl
List-cases (y ∷ ys) = inr (y, ys, refl)

assign_new :
    (m : NatManager)
    → m.free_ports ≡ []
    → assign_public_port m ≡ (m.next_port, record m { next_port = m.next_port + 1 })
unfolding assign_public_port
assign_new m e = rw e

assign_again :
    (m : NatManager) {q : ℕ} {ports : List ℕ}
    → m.free_ports ≡ q ∷ ports
    → assign_public_port m ≡ (q, record m { free_ports = ports })
unfolding assign_public_port
assign_again m e = rw e

pub assign_cases :
    (m : NatManager)
    → (assign_public_port m ≡ (m.next_port, record m { next_port = m.next_port + 1 }))
      ⊎ ((q : ℕ) × (ports : List ℕ) × (assign_public_port m ≡ (q, record m { free_ports = ports })))
assign_cases m = elim (List-cases m.free_ports) [
  | inl e ↦ inl (assign_new m e)
  | inr (q, ports, e) ↦ inr (q, ports, assign_again m e)
]

-- A port that is handed out is under no entry, and no longer free.
assign-Lacks :
    (init : ℕ) (m : NatManager)
    → Allots init m
    → Lacks init (assign_public_port m).0 (assign_public_port m).1
assign-Lacks init m (top, all) = elim (List-cases m.free_ports) [
  | inl e ↦
      rw (assign_new m e)
        (ground (arith, all m.next_port), omega arith, λ p. ground (arith, all p, ap (count p) e))
  | inr (q, ports, e) ↦
      rw (assign_again m e)
        (ground (arith, all q, ap (count q) e), top, λ p. ground (arith, all p, ap (count p) e))
]

insert-Allots :
    (init q ref next : ℕ) (store : Dict ℕ NatEntry) (m : NatManager)
    → Lacks init q m
    → Allots init (record m { entries = insert q ref m.entries; store = store; next_ref = next })
insert-Allots init q ref next store m (fresh, top, all) =
    (top, λ p. ground (arith, uses-insert p q ref m.entries fresh, all p))

pub add_entry-Allots :
    (init now : ℕ) (flow : FlowInfo) (m : NatManager)
    → Allots init m
    → Allots init (add_entry now flow m).1
unfolding add_entry
add_entry-Allots init now flow m a =
    insert-Allots init (assign_public_port m).0 (assign_public_port m).1.next_ref
      ((assign_public_port m).1.next_ref + 1)
      (insert (assign_public_port m).1.next_ref (NatEntry.new now flow (assign_public_port m).0)
        (assign_public_port m).1.store)
      (assign_public_port m).1 (assign-Lacks init m a)

-- An outgoing packet's flow finds its entry or gets a new one, and the allotment stays: the new
-- entry's port was under no other entry.
pub get_or_create-Allots :
    (init now : ℕ) (flow : FlowInfo) (m : NatManager)
    → Allots init m
    → Allots init (get_or_create_outgoing_entry now flow m).1
unfolding get_or_create_outgoing_entry
get_or_create-Allots init now flow m a =
    elim (Option-cases (
      find_outgoing flow.protocol flow.host_private_ip flow.host_private_port flow.host_public_ip
        flow.host_public_port (evict_stale_entries now m).1)) [
          | inl e ↦
              rw (e, get_or_create_outgoing_entry)
                (add_entry-Allots init now flow _ (evict-Allots init now m a))
          | inr (ref, e) ↦ rw (e, get_or_create_outgoing_entry) (evict-Allots init now m a)
        ]
