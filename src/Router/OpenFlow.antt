-- ===== src/Router/OpenFlow.antt =====
-- TP 2 ARP-NAT/pox/ext/protorouter_lib/openflow_sender.py: the messages that the router sends to the
-- switch. The classes of POX hold what is set in them; their packing into bytes is POX's.
use redes_hamelin.Base.{ℕ, Bool, Option, some, List, [], ◌∷◌}

pub data Opcode : Type 0 where
  request reply : Opcode
  other_opcode : ℕ → Opcode

pub record Arp : Type 0 where
  pub hwtype : ℕ
  pub prototype : ℕ
  pub hwlen : ℕ
  pub protolen : ℕ
  pub opcode : Opcode
  pub hwsrc : ℕ
  pub hwdst : ℕ
  pub protosrc : ℕ
  pub protodst : ℕ

-- An Ethernet frame with an ARP packet.
pub record ArpFrame : Type 0 where
  pub dst : ℕ
  pub src : ℕ
  pub payload : Arp

-- The data of a packet that goes out: a frame that POX packs, or bytes that came from the switch.
pub data PacketData : Type 0 where
  frame : ArpFrame → PacketData
  raw : List ℕ → PacketData

-- `None` where an entry has no MAC or port yet.
pub data Action : Type 0 where
  set_dl_src set_dl_dst output : Option ℕ → Action
  set_nw_src set_nw_dst set_tp_src set_tp_dst : ℕ → Action

-- The filter of a flow over IPv4; a port `None` is a wildcard.
pub record Match : Type 0 where
  pub in_port : Option ℕ
  pub nw_proto : ℕ
  pub nw_src : ℕ
  pub nw_dst : ℕ
  pub tp_src : ℕ
  pub tp_dst : ℕ

pub record FlowMod : Type 0 where
  pub idle_timeout : ℕ
  pub send_flow_removed : Bool
  pub filter : Match
  pub actions : List Action

pub data Message : Type 0 where
  packet_out : PacketData → List Action → Message
  flow_mod : FlowMod → Message

abbrev pub mac_ether_length : ℕ
mac_ether_length = 6

abbrev pub ip_addr_length : ℕ
ip_addr_length = 4

abbrev pub mac_unknown : ℕ
mac_unknown = 0

abbrev pub ether_broadcast : ℕ
ether_broadcast = 0xFFFFFFFFFFFF

-- `arp.HW_TYPE_ETHERNET` and `arp.PROTO_TYPE_IP`
abbrev pub hw_type_ethernet : ℕ
hw_type_ethernet = 1

abbrev pub proto_type_ip : ℕ
proto_type_ip = 0x800

unfoldable pub make_an_arp_reply : Arp → ℕ → ℕ → ℕ → Message
make_an_arp_reply asked mac addr outport =
    packet_out
      (frame (record {
        dst = asked.hwsrc;
        src = mac;
        payload = record {
          hwtype = asked.hwtype;
          prototype = asked.prototype;
          hwlen = asked.hwlen;
          protolen = asked.protolen;
          opcode = reply;
          hwsrc = mac;
          hwdst = asked.hwsrc;
          protosrc = addr;
          protodst = asked.protosrc;
        };
      }))
      (output (some outport) ∷ [])

unfoldable pub make_an_arp_request : ℕ → ℕ → ℕ → ℕ → Message
make_an_arp_request target_ip outport public_mac public_ip =
    packet_out
      (frame (record {
        dst = ether_broadcast;
        src = public_mac;
        payload = record {
          hwtype = hw_type_ethernet;
          prototype = proto_type_ip;
          hwlen = mac_ether_length;
          protolen = ip_addr_length;
          opcode = request;
          hwsrc = public_mac;
          hwdst = mac_unknown;
          protosrc = public_ip;
          protodst = target_ip;
        };
      }))
      (output (some outport) ∷ [])

-- The other arguments of `forward_of_data` only go to the log.
unfoldable pub forward_of_data : List ℕ → ℕ → ℕ → ℕ → Option ℕ → Option ℕ → Message
forward_of_data bytes public_mac public_ip public_port outport host_public_mac =
    packet_out (raw bytes) (
      set_dl_src (some public_mac)
      ∷ set_dl_dst host_public_mac
      ∷ set_nw_src public_ip
      ∷ set_tp_src public_port
      ∷ output outport
      ∷ [])
