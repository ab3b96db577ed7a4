-- ===== src/Router/NatManager.antt =====
-- TP 2 ARP-NAT/pox/ext/protorouter_lib/managers/nat_manager.py: the table of translations and the
-- public ports. Entries are objects that a PendingPacket shares with the table, so they lie in a
-- store under a reference, and the table holds references. `_free_ports` is newest first.
pub mod Ports
pub mod Removal
pub mod Keys
pub mod Entries
pub mod Calls
use redes_hamelin.Base.{
  ℕ, ◌+◌, Bool, true, false, ◌&&◌, Option, none, some, List, [], ◌∷◌, ◌==◌, if◌then◌else◌, nat_Eq,
}
use redes_hamelin.Base.Dict.{Dict, lookup, insert, erase}
use redes_hamelin.Router.NatEntry.{
  Protocol, tcp, udp, EntryState, installed, FlowInfo, NatEntry, Direction, outgoing, incoming,
  touch, mark_flow_removed, is_stale,
}
use redes_hamelin.Router.NatEntry

pub record NatManager : Type 0 where
  pub next_port : ℕ
  pub free_ports : List ℕ
  pub entries : Dict ℕ ℕ
  pub store : Dict ℕ NatEntry
  pub next_ref : ℕ

-- `NatManager(initial_port)`
unfoldable pub create : ℕ → NatManager
create port = record { next_port = port; free_ports = []; entries = []; store = []; next_ref = 0 }

abbrev protocol_eq : Protocol → Protocol → Bool
protocol_eq tcp tcp = true
protocol_eq udp udp = true
protocol_eq _ _ = false

-- The five comparisons of `_find_outgoing`.
pub is_flow : Protocol → ℕ → ℕ → ℕ → ℕ → NatEntry → Bool
is_flow protocol private_ip private_port public_ip public_port e =
    protocol_eq e.flow.protocol protocol
    && (e.flow.host_private_ip == private_ip
        && (e.flow.host_private_port == private_port
            && (e.flow.host_public_ip == public_ip && e.flow.host_public_port == public_port)))

-- The first entry of the table that passes a test, by its reference.
pub find_first : (NatEntry → Bool) → Dict ℕ NatEntry → Dict ℕ ℕ → Option ℕ
find_first p store [] = none
find_first p store ((_, ref) ∷ d) =
    let rest = find_first p store d in
    elim (lookup ref store) [ none ↦ rest | some e ↦ if p e then some ref else rest ]

unfoldable pub find_outgoing : Protocol → ℕ → ℕ → ℕ → ℕ → NatManager → Option ℕ
unfolding find_first is_flow
find_outgoing protocol private_ip private_port public_ip public_port m =
    find_first (is_flow protocol private_ip private_port public_ip public_port) m.store m.entries

-- `_release_port` and `_remove_entry`
pub remove_entry : ℕ → NatManager → NatManager
remove_entry port m = record m { entries = erase port m.entries; free_ports = port ∷ m.free_ports }

pub assign_public_port : NatManager → ℕ × NatManager
assign_public_port m = elim m.free_ports [
  | p ∷ ps ↦ (p, record m { free_ports = ps })
  | [] ↦ (m.next_port, record m { next_port = m.next_port + 1 })
]

pub expired_ports : ℕ → Dict ℕ NatEntry → Dict ℕ ℕ → List ℕ
expired_ports now store [] = []
expired_ports now store ((port, ref) ∷ d) =
    let rest = expired_ports now store d in
    elim (lookup ref store) [ none ↦ rest | some e ↦ if is_stale now e then port ∷ rest else rest ]

pub remove_all : List ℕ → NatManager → NatManager
remove_all [] m = m
remove_all (port ∷ ports) m = remove_all ports (remove_entry port m)

unfoldable pub evict_stale_entries : ℕ → NatManager → List ℕ × NatManager
unfolding expired_ports remove_all
evict_stale_entries now m =
    let ports = expired_ports now m.store m.entries in (ports, remove_all ports m)

-- The new entry goes into the store and into the table under its port.
pub add_entry : ℕ → FlowInfo → NatManager → ℕ × NatManager
unfolding assign_public_port
add_entry now flow m =
    let (port, m') = assign_public_port m in
    (
      m'.next_ref,
      record m' {
        entries = insert port m'.next_ref m'.entries;
        store = insert m'.next_ref (NatEntry.new now flow port) m'.store;
        next_ref = m'.next_ref + 1;
      },
    )

-- The reference of the entry, whether it is new, and the manager.
pub get_or_create_outgoing_entry : ℕ → FlowInfo → NatManager → (ℕ × Bool) × NatManager
unfolding evict_stale_entries find_outgoing add_entry
get_or_create_outgoing_entry now flow m =
    let (_, m') = evict_stale_entries now m in
    elim (find_outgoing flow.protocol flow.host_private_ip flow.host_private_port
      flow.host_public_ip flow.host_public_port m') [
        | some ref ↦ ((ref, false), m')
        | none ↦ let (ref, m'') = add_entry now flow m' in ((ref, true), m'')
      ]

pub lookup_by_incoming : ℕ → ℕ → NatManager → Option ℕ × NatManager
unfolding evict_stale_entries
lookup_by_incoming now port m =
    let (_, m') = evict_stale_entries now m in (lookup port m'.entries, m')

-- A change of one entry, seen by all that hold it.
pub update : ℕ → (NatEntry → NatEntry) → NatManager → NatManager
update ref change m = elim (lookup ref m.store) [
  | none ↦ m
  | some e ↦ record m { store = insert ref (change e) m.store }
]

pub mark_installed : ℕ → ℕ → ℕ → ℕ → NatManager → NatManager
unfolding update touch
mark_installed now ref mac port m =
    update ref
      (λ e. touch now (record e {
        host_public_mac = some mac;
        public_openflow_port = some port;
        state = installed;
      }))
      m

-- One of the flows of an entry is gone; with the second, the entry under a port goes too.
pub flow_removed : Direction → ℕ → ℕ → NatEntry → NatManager → NatManager
unfolding update mark_flow_removed remove_entry
flow_removed direction port ref e m =
    let m' = update ref (λ x. (mark_flow_removed direction x).0) m in
    if (mark_flow_removed direction e).1 then remove_entry port m' else m'

abbrev pub on_entry : Option ℕ → (ℕ → NatEntry → NatManager) → NatManager → NatManager
on_entry none change m = m
on_entry (some ref) change m = elim (lookup ref m.store) [ none ↦ m | some e ↦ change ref e ]

pub handle_flow_removed_outgoing : Protocol → ℕ → ℕ → ℕ → ℕ → NatManager → NatManager
unfolding find_outgoing flow_removed
handle_flow_removed_outgoing protocol private_ip private_port public_ip public_port m =
    on_entry (find_outgoing protocol private_ip private_port public_ip public_port m)
      (λ ref e. flow_removed outgoing e.nat_public_port ref e m) m

pub handle_flow_removed_incoming : ℕ → NatManager → NatManager
unfolding flow_removed
handle_flow_removed_incoming port m =
    on_entry (lookup port m.entries) (λ ref e. flow_removed incoming port ref e m) m
