-- ===== src/Router/ProtoRouter.antt =====
-- TP 2 ARP-NAT/pox/ext/protorouter.py: the handlers of the packets and the removed flows that the
-- switch reports. POX's parsing is done before: a packet is what its parsed headers say. The
-- messages sent are newest first; `inNetwork` is a parameter, for the private network.
pub mod Handlers
use redes_hamelin.Base.{
  ℕ, ◌+◌, Bool, true, false, not, ◌||◌, Option, none, some, List, [], ◌∷◌, ◌==◌, if◌then◌else◌,
  nat_Eq,
}
use redes_hamelin.Base.Dict.{lookup}
use redes_hamelin.Router.NatEntry.{Protocol, tcp, udp, FlowInfo, NatEntry, initial_assigned_port}
use redes_hamelin.Router.NatManager.{
  NatManager, get_or_create_outgoing_entry, mark_installed, handle_flow_removed_incoming,
  handle_flow_removed_outgoing,
}
use redes_hamelin.Router.NatManager
use redes_hamelin.Router.ArpManager.{
  ArpManager, PendingPacket, knows, lookup_mac, learn, queue_pending, pop_pending,
  evict_stale_entries,
}
use redes_hamelin.Router.OpenFlow.{
  Arp, Opcode, request, reply, other_opcode, PacketData, Action, set_dl_src, set_dl_dst, output,
  set_nw_src, set_nw_dst, set_tp_src, set_tp_dst, Match, FlowMod, Message, flow_mod,
  make_an_arp_reply, make_an_arp_request, forward_of_data,
}

-- 192.168.1.254, 200.0.0.254, 00:00:00:aa:aa:aa and 00:00:00:bb:bb:bb
abbrev pub nat_private_ip : ℕ
nat_private_ip = 3232235774

abbrev pub nat_public_ip : ℕ
nat_public_ip = 3355443454

abbrev pub nat_public_mac : ℕ
nat_public_mac = 0xAAAAAA

abbrev pub nat_private_mac : ℕ
nat_private_mac = 0xBBBBBB

abbrev pub public_port : ℕ
public_port = 1

-- The ports of a TCP or UDP header.
pub record Ports : Type 0 where
  pub srcport : ℕ
  pub dstport : ℕ

-- What `find("udp")` and `find("tcp")` give stands with the IP packet.
pub record IpPacket : Type 0 where
  pub protocol : ℕ
  pub srcip : ℕ
  pub dstip : ℕ
  pub udp_packet : Option Ports
  pub tcp_packet : Option Ports

pub data Payload : Type 0 where
  ip : IpPacket → Payload
  arp : Arp → Payload
  other_type : ℕ → Payload

pub record PacketIn : Type 0 where
  pub parsed : Bool
  pub src : ℕ
  pub payload : Payload
  pub port : ℕ
  pub raw_data : List ℕ

pub record ProtoRouter : Type 0 where
  pub arp_manager : ArpManager
  pub nat_manager : NatManager
  pub global_counter : ℕ
  pub sent : List Message

unfoldable pub create : ProtoRouter
create = record {
  arp_manager = record { table = []; pending = [] };
  nat_manager = NatManager.create initial_assigned_port;
  global_counter = 1;
  sent = [];
}

unfoldable pub send : Message → ProtoRouter → ProtoRouter
send message r = record r { sent = message ∷ r.sent }

abbrev pub ip_number : Protocol → ℕ
ip_number tcp = 6
ip_number udp = 17

-- The two flows of `install_flows`.
unfoldable pub outgoing_flow : NatEntry → FlowMod
outgoing_flow e = record {
  idle_timeout = e.idle_timeout;
  send_flow_removed = true;
  filter = record {
    in_port = some e.flow.private_openflow_port;
    nw_proto = ip_number e.flow.protocol;
    nw_src = e.flow.host_private_ip;
    nw_dst = e.flow.host_public_ip;
    tp_src = e.flow.host_private_port;
    tp_dst = e.flow.host_public_port;
  };
  actions =
      set_dl_src (some nat_public_mac)
      ∷ set_dl_dst e.host_public_mac
      ∷ set_nw_src nat_public_ip
      ∷ set_tp_src e.nat_public_port
      ∷ output e.public_openflow_port
      ∷ [];
}

unfoldable pub incoming_flow : NatEntry → FlowMod
incoming_flow e = record {
  idle_timeout = e.idle_timeout;
  send_flow_removed = true;
  filter = record {
    in_port = e.public_openflow_port;
    nw_proto = ip_number e.flow.protocol;
    nw_src = e.flow.host_public_ip;
    nw_dst = nat_public_ip;
    tp_src = e.flow.host_public_port;
    tp_dst = e.nat_public_port;
  };
  actions =
      set_dl_src (some nat_private_mac)
      ∷ set_dl_dst (some e.flow.host_private_mac)
      ∷ set_nw_dst e.flow.host_private_ip
      ∷ set_tp_dst e.flow.host_private_port
      ∷ output (some e.flow.private_openflow_port)
      ∷ [];
}

-- Every entry's protocol has a number, so `install_flows` never gives up.
unfoldable pub install_flows : NatEntry → ProtoRouter → ProtoRouter
unfolding send outgoing_flow incoming_flow
install_flows e r = send (flow_mod (incoming_flow e)) (send (flow_mod (outgoing_flow e)) r)

-- The entry as `mark_installed` has left it.
pub forward_entry : Option NatEntry → List ℕ → ProtoRouter → ProtoRouter
forward_entry none bytes r = r
forward_entry (some e) bytes r =
    send
      (forward_of_data bytes nat_public_mac nat_public_ip e.nat_public_port e.public_openflow_port
        e.host_public_mac)
      (install_flows e r)

unfoldable pub complete_and_forward : ℕ → ℕ → ℕ → ℕ → List ℕ → ProtoRouter → ProtoRouter
unfolding forward_entry
complete_and_forward now ref mac port bytes r =
    let m = mark_installed now ref mac port r.nat_manager in
    forward_entry (lookup ref m.store) bytes (record r { nat_manager = m })

unfoldable pub add_pending_packet : ℕ → PendingPacket → ProtoRouter → ProtoRouter
unfolding send
add_pending_packet target_ip p r =
    let (first, arp_manager) = queue_pending target_ip p r.arp_manager in
    let r' = record r { arp_manager = arp_manager } in
    if first
    then send (make_an_arp_request target_ip public_port nat_public_mac nat_public_ip) r'
    else r'

-- What runs for each packet that waited for the address.
pub forward_all : ℕ → ℕ → ℕ → List PendingPacket → ProtoRouter → ProtoRouter
unfolding complete_and_forward
forward_all now mac port [] r = r
forward_all now mac port (p ∷ ps) r =
    forward_all now mac port ps (complete_and_forward now p.nat_entry mac port p.raw_packet r)

module _ (in_network : ℕ → Bool) where
  unfoldable pub learn_arp_entry : ℕ → ℕ → ℕ → ℕ → ProtoRouter → ProtoRouter
  learn_arp_entry now in_port ip_addr mac r = record r {
    arp_manager = (learn in_network now ip_addr mac in_port r.arp_manager).1;
  }

  unfoldable pub handle_packet_arp_reply : ℕ → Arp → PacketIn → ProtoRouter → ProtoRouter
  unfolding learn_arp_entry forward_all
  handle_packet_arp_reply now a e r =
      let r' = learn_arp_entry now e.port a.protosrc a.hwsrc r in
      let (waiting, arp_manager) = pop_pending a.protosrc r'.arp_manager in
      forward_all now a.hwsrc e.port waiting (record r' { arp_manager = arp_manager })

  unfoldable pub handle_packet_arp_request : ℕ → Arp → PacketIn → ProtoRouter → ProtoRouter
  unfolding learn_arp_entry send
  handle_packet_arp_request now a e r =
      let r' = learn_arp_entry now e.port a.protosrc a.hwsrc r in
      if a.protodst == nat_private_ip
      then send (make_an_arp_reply a nat_private_mac a.protodst e.port) r'
      else if a.protodst == nat_public_ip
      then send (make_an_arp_reply a nat_public_mac a.protodst e.port) r'
      else r'

  pub by_opcode : Opcode → ℕ → Arp → PacketIn → ProtoRouter → ProtoRouter
  unfolding handle_packet_arp_reply handle_packet_arp_request
  by_opcode request now a e r = handle_packet_arp_request now a e r
  by_opcode reply now a e r = handle_packet_arp_reply now a e r
  by_opcode (other_opcode n) now a e r = r

  unfoldable pub handle_arp_type : ℕ → Arp → PacketIn → ProtoRouter → ProtoRouter
  unfolding by_opcode
  handle_arp_type now a e r = by_opcode a.opcode now a e r

  flow_info : Protocol → Ports → IpPacket → PacketIn → FlowInfo
  flow_info protocol t p e = record {
    protocol = protocol;
    host_private_ip = p.srcip;
    host_private_port = t.srcport;
    host_private_mac = e.src;
    private_openflow_port = e.port;
    host_public_ip = p.dstip;
    host_public_port = t.dstport;
  }

  unfoldable pub extract_flow_info : IpPacket → PacketIn → Option FlowInfo
  unfolding flow_info
  extract_flow_info p e =
      if in_network p.srcip
      then elim p.udp_packet [
        | some t ↦ some (flow_info udp t p e)
        | none ↦ elim p.tcp_packet [ some t ↦ some (flow_info tcp t p e) | none ↦ none ]
      ]
      else none

  -- A new entry waits for the MAC; a packet of an entry that is there already is dropped.
  unfoldable pub ask_for_mac_to_public_host : ℕ → IpPacket → PacketIn → ProtoRouter → ProtoRouter
  unfolding extract_flow_info add_pending_packet
  ask_for_mac_to_public_host now p e r =
      if in_network p.dstip then r else elim (extract_flow_info p e) [
        | none ↦ r
        | some flow ↦
            let ((ref, is_new), m) = get_or_create_outgoing_entry now flow r.nat_manager in
            let r' = record r { nat_manager = m } in
            if is_new
            then add_pending_packet p.dstip
                (record {
                  in_port = e.port;
                  raw_packet = e.raw_data;
                  nat_entry = ref;
                  created_at = now;
                })
                r'
            else r'
      ]

  unfoldable pub forward_with_known_mac : ℕ → IpPacket → PacketIn → ProtoRouter → ProtoRouter
  unfolding ask_for_mac_to_public_host extract_flow_info complete_and_forward
  forward_with_known_mac now p e r = elim (lookup_mac p.dstip r.arp_manager) [
    | none ↦ ask_for_mac_to_public_host now p e r
    | some known ↦ elim (extract_flow_info p e) [
      | none ↦ r
      | some flow ↦
          let ((ref, is_new), m) = get_or_create_outgoing_entry now flow r.nat_manager in
          let r' = record r { nat_manager = m } in
          if is_new
          then complete_and_forward now ref known.mac known.switch_openflow_port e.raw_data r'
          else r'
    ]
  ]

  -- The end of `handle_ip`, for a packet of the private network.
  pub route_private : ℕ → IpPacket → PacketIn → ProtoRouter → ProtoRouter
  unfolding forward_with_known_mac ask_for_mac_to_public_host
  route_private now p e r =
      if knows p.dstip r.arp_manager
      then forward_with_known_mac now p e r
      else ask_for_mac_to_public_host now p e r

  unfoldable pub handle_ip : ℕ → IpPacket → PacketIn → ProtoRouter → ProtoRouter
  unfolding route_private
  handle_ip now p e r =
      if not (p.protocol == 6 || p.protocol == 17)
      then r
      else if in_network p.srcip
      then route_private now p e r
      else r

  pub by_payload : Payload → ℕ → PacketIn → ProtoRouter → ProtoRouter
  unfolding handle_ip handle_arp_type
  by_payload (ip p) now e r = handle_ip now p e r
  by_payload (arp a) now e r = handle_arp_type now a e r
  by_payload (other_type n) now e r = r

  -- `_handle_PacketIn`
  unfoldable pub handle_packet_in : ℕ → PacketIn → ProtoRouter → ProtoRouter
  unfolding by_payload
  handle_packet_in now e r =
      let r' = record r { global_counter = r.global_counter + 1 } in
      if e.parsed then by_payload e.payload now e r' else r'

-- `IP_NUMBER_TO_PROTO`
unfoldable pub protocol_of : ℕ → Option Protocol
protocol_of n = if n == 6 then some tcp else if n == 17 then some udp else none

-- `_handle_FlowRemoved`, with the filter of the flow.
unfoldable pub handle_flow_removed : Match → ProtoRouter → ProtoRouter
unfolding protocol_of
handle_flow_removed f r =
    if f.nw_dst == nat_public_ip
    then record r { nat_manager = handle_flow_removed_incoming f.tp_dst r.nat_manager }
    else elim (protocol_of f.nw_proto) [
      | none ↦ r
      | some protocol ↦ record r {
        nat_manager =
            handle_flow_removed_outgoing protocol f.nw_src f.tp_src f.nw_dst f.tp_dst r.nat_manager;
      }
    ]

unfoldable pub cleanup_arp_table : ℕ → ProtoRouter → ProtoRouter
cleanup_arp_table now r = record r { arp_manager = (evict_stale_entries now r.arp_manager).1 }
