-- ===== src/Router/NatEntry.antt =====
-- TP 2 ARP-NAT/pox/ext/protorouter_lib/models/nat_entry.py, constants.py and the FlowInfo of
-- protorouter.py. Addresses of all kinds are numbers; times are readings of
-- `time.monotonic()` in nanoseconds, and time-outs are in seconds.
use redes_hamelin.Base.{ℕ, ◌-◌, ◌*◌, Bool, true, false, Option, none, ltb}

pub data Protocol : Type 0 where
  tcp udp : Protocol

pub data EntryState : Type 0 where
  pending_arp installed : EntryState

abbrev pub time_out : ℕ
time_out = 30

abbrev pub seconds : ℕ → ℕ
seconds n = n * 1000000000

abbrev pub initial_assigned_port : ℕ
initial_assigned_port = 10000

pub record FlowInfo : Type 0 where
  pub protocol : Protocol
  pub host_private_ip : ℕ
  pub host_private_port : ℕ
  pub host_private_mac : ℕ
  pub private_openflow_port : ℕ
  pub host_public_ip : ℕ
  pub host_public_port : ℕ

pub record NatEntry : Type 0 where
  pub flow : FlowInfo
  pub nat_public_port : ℕ
  pub host_public_mac : Option ℕ
  pub public_openflow_port : Option ℕ
  pub last_seen : ℕ
  pub idle_timeout : ℕ
  pub state : EntryState
  pub outgoing_flow_removed : Bool
  pub incoming_flow_removed : Bool

-- `NatEntry(...)` with no public MAC and port yet.
unfoldable pub new : ℕ → FlowInfo → ℕ → NatEntry
new now flow port = record {
  flow = flow;
  nat_public_port = port;
  host_public_mac = none;
  public_openflow_port = none;
  last_seen = now;
  idle_timeout = time_out;
  state = pending_arp;
  outgoing_flow_removed = false;
  incoming_flow_removed = false;
}

unfoldable pub touch : ℕ → NatEntry → NatEntry
touch now e = record e { last_seen = now }

pub data Direction : Type 0 where
  outgoing incoming : Direction

-- `mark_flow_removed`: the entry, and whether both of its flows are gone.
unfoldable pub mark_flow_removed : Direction → NatEntry → NatEntry × Bool
mark_flow_removed outgoing e = (record e { outgoing_flow_removed = true }, e.incoming_flow_removed)
mark_flow_removed incoming e = (record e { incoming_flow_removed = true }, e.outgoing_flow_removed)

unfoldable pub is_stale : ℕ → NatEntry → Bool
is_stale now e = elim e.state [
  | installed ↦ false
  | pending_arp ↦ ltb (seconds e.idle_timeout) (now - e.last_seen)
]
