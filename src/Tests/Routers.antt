-- ===== src/Tests/Routers.antt =====
-- A router that sees two flows, the second after the first has gone stale, and a file of three bytes.
use redes_hamelin.Base.{
  ℕ, ◌+◌, ◌≤◌, ◌<◌, ◌≡◌, ◌&&◌, some, List, [], ◌∷◌, ◌++◌, ltb, leb, ◌==◌, if◌then◌else◌, length,
  All, arith,
}
use redes_hamelin.Files.Writer.{concat}
use redes_hamelin.Files.Reader.{open_reader, read_all_chunks}
use redes_hamelin.Files.Reader.Chunks.{read_all_chunks_lem}
use redes_hamelin.Router.NatEntry.{FlowInfo, tcp, udp}
use redes_hamelin.Router.NatManager.{create}
use redes_hamelin.Router.NatManager.Ports.{uses, count}
use redes_hamelin.Router.NatManager.Calls.{Call, outgoing_packet, call_all, ports_allotted}
use redes_hamelin.Router.ArpManager.{ArpManager, PendingPacket, pop_pending, learn, lookup_mac}
use redes_hamelin.Router.ArpManager.Waiting.{queue_all, pop-queue_all, lookup-learn}

abbrev flow : FlowInfo
flow = record {
  protocol = tcp;
  host_private_ip = 10;
  host_private_port = 5000;
  host_private_mac = 77;
  private_openflow_port = 2;
  host_public_ip = 20;
  host_public_port = 80;
}

abbrev calls : List Call
calls =
    outgoing_packet 0 flow
    ∷ outgoing_packet 40 (record flow { protocol = udp; host_private_port = 5001 })
    ∷ []

ports_allotted_example :
    uses 10000 (call_all calls (create 10000)).entries
      + count 10000 (call_all calls (create 10000)).free_ports
    ≡ (if leb 10000 10000 && ltb 10000 (call_all calls (create 10000)).next_port then 1 else 0)
ports_allotted_example = ports_allotted 10000 calls 10000

abbrev packet : ℕ → PendingPacket
packet n = record { in_port = 2; raw_packet = n ∷ []; nat_entry = n; created_at = 0 }

abbrev empty : ArpManager
empty = record { table = []; pending = [] }

pop-queue_all_example :
    (pop_pending 20 (queue_all 20 (packet 1 ∷ packet 2 ∷ []) empty)).0
    ≡ (pop_pending 20 empty).0 ++ (packet 1 ∷ packet 2 ∷ [])
pop-queue_all_example = pop-queue_all 20 (packet 1 ∷ packet 2 ∷ []) empty

lookup-learn_example :
    let ((entry, _), m') = learn (λ ip. ltb ip 16) 0 20 99 1 empty in
    (lookup_mac 20 m' ≡ (if 20 == 20 then some entry else lookup_mac 20 empty))
    × (entry.mac ≡ 99)
    × (entry.switch_openflow_port ≡ 1)
lookup-learn_example = lookup-learn (λ ip. ltb ip 16) 0 20 99 1 empty 20

read_all_chunks_lem_example :
    (concat (read_all_chunks 2 (open_reader (7 ∷ 8 ∷ 9 ∷ []))) ≡ 7 ∷ 8 ∷ 9 ∷ [])
    × All (λ c. (0 < length c) × (length c ≤ 2)) (read_all_chunks 2 (open_reader (7 ∷ 8 ∷ 9 ∷ [])))
read_all_chunks_lem_example = read_all_chunks_lem 2 (7 ∷ 8 ∷ 9 ∷ []) (omega arith)
