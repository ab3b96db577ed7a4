-- ===== src/Router/NatManager/Calls.antt =====
-- nat_manager.py: any sequence of calls, from a new manager on.
use redes_hamelin.Base.{ℕ, ◌+◌, ◌≡◌, List, [], ◌∷◌, nat_Eq, ltb, leb, if◌then◌else◌, ◌&&◌}
use redes_hamelin.Base.Dict.{lookup, lookup-nil}
use redes_hamelin.Router.NatEntry.{Protocol, FlowInfo, NatEntry, outgoing, incoming}
use redes_hamelin.Router.NatManager.{
  NatManager, create, mark_installed, find_outgoing, get_or_create_outgoing_entry,
  handle_flow_removed_outgoing, handle_flow_removed_incoming, lookup_by_incoming,
}
use redes_hamelin.Router.NatManager.Ports.{
  uses, count, Allots, create-Allots, evict-Allots, get_or_create-Allots,
}
use redes_hamelin.Router.NatManager.Removal.{
  on_entry-keeps, mark_installed-Allots, handle_flow_removed_incoming-Allots,
}
use redes_hamelin.Router.NatManager.Keys.{Keyed, handle_flow_removed_outgoing-Allots}
use redes_hamelin.Router.NatManager.Entries.{
  evict-Keyed, get_or_create-Keyed, mark_installed-Keyed, flow_removed-Keyed,
}

-- The calls that change a manager, with the time where the code reads it.
pub data Call : Type 0 where
  outgoing_packet : ℕ → FlowInfo → Call
  incoming_packet : ℕ → ℕ → Call
  install : ℕ → ℕ → ℕ → ℕ → Call
  outgoing_removed : Protocol → ℕ → ℕ → ℕ → ℕ → Call
  incoming_removed : ℕ → Call

pub call : Call → NatManager → NatManager
call (outgoing_packet now flow) m = (get_or_create_outgoing_entry now flow m).1
call (incoming_packet now port) m = (lookup_by_incoming now port m).1
call (install now ref mac port) m = mark_installed now ref mac port m
call (outgoing_removed protocol private_ip private_port public_ip public_port) m =
    handle_flow_removed_outgoing protocol private_ip private_port public_ip public_port m
call (incoming_removed port) m = handle_flow_removed_incoming port m

pub call_all : List Call → NatManager → NatManager
unfolding call
call_all [] m = m
call_all (c ∷ cs) m = call_all cs (call c m)

create-Keyed : (init : ℕ) → Keyed (create init)
unfolding create
create-Keyed init = record {
  own = tt;
  below = λ ref e at. absurd (cc (lookup-nil {V = NatEntry} ref));
}

call-Keyed : (c : Call) (m : NatManager) → Keyed m → Keyed (call c m)
unfolding call lookup_by_incoming handle_flow_removed_outgoing handle_flow_removed_incoming
call-Keyed (outgoing_packet now flow) m k = get_or_create-Keyed now flow m k
call-Keyed (incoming_packet now port) m k = evict-Keyed now m k
call-Keyed (install now ref mac port) m k = mark_installed-Keyed now ref mac port m k
call-Keyed (outgoing_removed protocol private_ip private_port public_ip public_port) m k =
    on_entry-keeps Keyed (find_outgoing protocol private_ip private_port public_ip public_port m) _
      m k λ ref e found there. flow_removed-Keyed outgoing e.nat_public_port ref e m k
call-Keyed (incoming_removed port) m k =
    on_entry-keeps Keyed (lookup port m.entries) _ m k
      λ ref e found there. flow_removed-Keyed incoming port ref e m k

call-Allots :
    (init : ℕ) (c : Call) (m : NatManager) → Keyed m → Allots init m → Allots init (call c m)
unfolding call lookup_by_incoming
call-Allots init (outgoing_packet now flow) m k a = get_or_create-Allots init now flow m a
call-Allots init (incoming_packet now port) m k a = evict-Allots init now m a
call-Allots init (install now ref mac port) m k a = mark_installed-Allots init now ref mac port m a
call-Allots init (outgoing_removed protocol private_ip private_port public_ip public_port) m k a =
    handle_flow_removed_outgoing-Allots init protocol private_ip private_port public_ip public_port
      m k a
call-Allots init (incoming_removed port) m k a = handle_flow_removed_incoming-Allots init port m a

-- Entries stand under their own ports, and ports are allotted.
abbrev pub IsSound : ℕ → NatManager → Type 0
IsSound init m = Keyed m × Allots init m

pub call-IsSound : (init : ℕ) (c : Call) (m : NatManager) → IsSound init m → IsSound init (call c m)
call-IsSound init c m (k, a) = (call-Keyed c m k, call-Allots init c m k a)

pub create-IsSound : (init : ℕ) → IsSound init (create init)
create-IsSound init = (create-Keyed init, create-Allots init)

call_all-IsSound :
    (init : ℕ) (cs : List Call) (m : NatManager) → IsSound init m → IsSound init (call_all cs m)
unfolding call_all
call_all-IsSound init [] m s = s
call_all-IsSound init (c ∷ cs) m s = call_all-IsSound init cs (call c m) (call-IsSound init c m s)

-- After any calls on a new manager, each port from the initial one up to the next new one is under
-- exactly one entry of the table or exactly once among the free ports, never both; and no other
-- port is under an entry or free.
pub ports_allotted :
    (init : ℕ) (cs : List Call) (p : ℕ)
    → uses p (call_all cs (create init)).entries + count p (call_all cs (create init)).free_ports
      ≡ (if leb init p && ltb p (call_all cs (create init)).next_port then 1 else 0)
ports_allotted init cs p = (call_all-IsSound init cs (create init) (create-IsSound init)).1.1 p

-- The calls by name, for a client that cannot compute with `call`.
module _ (init now : ℕ) (m : NatManager) (s : IsSound init m) where
  pub get_or_create-IsSound :
      (flow : FlowInfo) → IsSound init (get_or_create_outgoing_entry now flow m).1
  unfolding call
  get_or_create-IsSound flow = call-IsSound init (outgoing_packet now flow) m s

  pub mark_installed-IsSound : (ref mac port : ℕ) → IsSound init (mark_installed now ref mac port m)
  unfolding call
  mark_installed-IsSound ref mac port = call-IsSound init (install now ref mac port) m s

module _ (init : ℕ) (m : NatManager) (s : IsSound init m) where
  pub outgoing_removed-IsSound :
      (protocol : Protocol) (private_ip private_port public_ip public_port : ℕ)
      → IsSound init
          (handle_flow_removed_outgoing protocol private_ip private_port public_ip public_port m)
  unfolding call
  outgoing_removed-IsSound protocol private_ip private_port public_ip public_port =
      call-IsSound init (outgoing_removed protocol private_ip private_port public_ip public_port) m
        s

  pub incoming_removed-IsSound : (port : ℕ) → IsSound init (handle_flow_removed_incoming port m)
  unfolding call
  incoming_removed-IsSound port = call-IsSound init (incoming_removed port) m s
