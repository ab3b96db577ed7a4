-- ===== src/Router/ArpManager.antt =====
-- TP 2 ARP-NAT/pox/ext/protorouter_lib/managers/arp_manager.py, models/arp_entry.py and
-- models/pending_packet.py: what the router knows of addresses, and the packets that wait for one.
-- `inNetwork`, of the POX library, is a parameter; a reference stands for the entry that a pending
-- packet shares with the NAT table.
pub mod Waiting
use redes_hamelin.Base.{
  ℕ, ◌-◌, ◌*◌, Bool, true, false, not, Option, none, some, List, [], ◌∷◌, ◌++◌, ltb, if◌then◌else◌,
  keep, nat_Eq,
}
use redes_hamelin.Base.Dict.{Dict, lookup, contains, insert, erase}
use redes_hamelin.Router.NatEntry.{time_out, seconds}

pub data PortType : Type 0 where
  private public : PortType

pub record ArpEntry : Type 0 where
  pub mac : ℕ
  pub switch_openflow_port : ℕ
  pub port_type : PortType
  pub last_seen : ℕ
  pub idle_timeout : ℕ

pub record PendingPacket : Type 0 where
  pub in_port : ℕ
  pub raw_packet : List ℕ
  pub nat_entry : ℕ
  pub created_at : ℕ

pub record ArpManager : Type 0 where
  pub table : Dict ℕ ArpEntry
  pub pending : Dict ℕ (List PendingPacket)

unfoldable pub new_entry : ℕ → ℕ → ℕ → PortType → ArpEntry
new_entry now mac port kind = record {
  mac = mac;
  switch_openflow_port = port;
  port_type = kind;
  last_seen = now;
  idle_timeout = time_out * 2;
}

unfoldable pub update_entry : ℕ → ℕ → ℕ → PortType → ArpEntry → ArpEntry
update_entry now mac port kind e = record e {
  mac = mac;
  switch_openflow_port = port;
  port_type = kind;
  last_seen = now;
}

unfoldable pub is_stale : ℕ → ArpEntry → Bool
is_stale now e = ltb (seconds e.idle_timeout) (now - e.last_seen)

abbrev pub is_fresh : ℕ → ℕ × ArpEntry → Bool
is_fresh now (_, e) = not (is_stale now e)

abbrev pub is_expired : ℕ → ℕ × ArpEntry → Bool
is_expired now (_, e) = is_stale now e

unfoldable pub knows : ℕ → ArpManager → Bool
knows ip m = contains ip m.table

unfoldable pub lookup_mac : ℕ → ArpManager → Option ArpEntry
lookup_mac ip m = lookup ip m.table

-- The loop that pops each expired address.
pub pop_all : Dict ℕ ArpEntry → Dict ℕ ArpEntry → Dict ℕ ArpEntry
pop_all [] table = table
pop_all ((ip, _) ∷ expired) table = pop_all expired (erase ip table)

unfoldable pub evict_stale_entries : ℕ → ArpManager → Dict ℕ ArpEntry × ArpManager
unfolding pop_all is_stale
evict_stale_entries now m =
    let expired = keep (is_expired now) m.table in
    (expired, record m { table = pop_all expired m.table })

-- The learned entry, whether it is new, and the manager.
unfoldable pub learn : (ℕ → Bool) → ℕ → ℕ → ℕ → ℕ → ArpManager → (ArpEntry × Bool) × ArpManager
unfolding new_entry update_entry
learn in_network now ip mac port m =
    let kind = (if in_network ip then private else public) in
    elim (lookup ip m.table) [
      | some e ↦
          let e' = update_entry now mac port kind e in
          ((e', false), record m { table = insert ip e' m.table })
      | none ↦
          let e' = new_entry now mac port kind in
          ((e', true), record m { table = insert ip e' m.table })
    ]

pub waiting_for : Option (List PendingPacket) → List PendingPacket
waiting_for none = []
waiting_for (some ps) = ps

-- Whether this is the first packet for the address, and the manager.
pub queue_pending : ℕ → PendingPacket → ArpManager → Bool × ArpManager
unfolding waiting_for
queue_pending ip p m = (
  not (contains ip m.pending),
  record m { pending = insert ip (waiting_for (lookup ip m.pending) ++ p ∷ []) m.pending },
)

pub pop_pending : ℕ → ArpManager → List PendingPacket × ArpManager
unfolding waiting_for
pop_pending ip m = (waiting_for (lookup ip m.pending), record m { pending = erase ip m.pending })

unfoldable pub has_pending : ℕ → ArpManager → Bool
has_pending ip m = contains ip m.pending
