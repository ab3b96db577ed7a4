-- ===== src/Router/ProtoRouter/Handlers.antt =====
-- protorouter.py: every handler keeps the translations sound, whatever packets come.
use redes_hamelin.Base.{
  ℕ, ◌+◌, ◌≡◌, refl, Bool, not, ◌||◌, ◌&&◌, Option, none, some, List, [], ◌∷◌, ◌==◌, if◌then◌else◌,
  leb, ltb, nat_Eq, if-keeps, Bool-cases, Option-cases, inl, inr,
}
use redes_hamelin.Router.NatEntry.{NatEntry, initial_assigned_port}
use redes_hamelin.Router.NatManager.{get_or_create_outgoing_entry}
use redes_hamelin.Router.NatManager.Ports.{uses, count}
use redes_hamelin.Router.NatManager.Calls.{
  IsSound, create-IsSound, get_or_create-IsSound, mark_installed-IsSound, outgoing_removed-IsSound,
  incoming_removed-IsSound,
}
use redes_hamelin.Router.ArpManager.{PendingPacket, knows, lookup_mac, queue_pending, pop_pending}
use redes_hamelin.Router.OpenFlow.{
  Arp, Opcode, make_an_arp_reply, request, reply, other_opcode, Match,
}
use redes_hamelin.Router.ProtoRouter.{
  ProtoRouter, PacketIn, IpPacket, Payload, ip, arp, other_type, create, send, install_flows,
  forward_entry, complete_and_forward, add_pending_packet, forward_all, learn_arp_entry,
  handle_packet_arp_reply, handle_packet_arp_request, handle_arp_type, by_opcode, by_payload,
  route_private, extract_flow_info, ask_for_mac_to_public_host, forward_with_known_mac, handle_ip,
  handle_packet_in, protocol_of, handle_flow_removed, cleanup_arp_table, nat_private_ip,
  nat_public_ip, nat_public_mac, nat_private_mac,
}

abbrev init : ℕ
init = initial_assigned_port

abbrev Sound : ProtoRouter → Type 0
Sound r = IsSound init r.nat_manager

nat-forward_entry :
    (found : Option NatEntry) (bytes : List ℕ) (r : ProtoRouter)
    → (forward_entry found bytes r).nat_manager ≡ r.nat_manager
unfolding forward_entry send install_flows
nat-forward_entry none bytes r = refl
nat-forward_entry (some e) bytes r = refl

complete_and_forward-Sound :
    (now ref mac port : ℕ) (bytes : List ℕ) (r : ProtoRouter)
    → Sound r
    → Sound (complete_and_forward now ref mac port bytes r)
unfolding complete_and_forward
complete_and_forward-Sound now ref mac port bytes r s =
    rw nat-forward_entry (mark_installed-IsSound init now r.nat_manager s ref mac port)

forward_all-Sound :
    (now mac port : ℕ) (ps : List PendingPacket) (r : ProtoRouter)
    → Sound r
    → Sound (forward_all now mac port ps r)
unfolding forward_all
forward_all-Sound now mac port [] r s = s
forward_all-Sound now mac port (p ∷ ps) r s =
    forward_all-Sound now mac port ps (complete_and_forward now p.nat_entry mac port p.raw_packet r)
      (complete_and_forward-Sound now p.nat_entry mac port p.raw_packet r s)

nat-add_pending_packet :
    (target_ip : ℕ) (p : PendingPacket) (r : ProtoRouter)
    → (add_pending_packet target_ip p r).nat_manager ≡ r.nat_manager
unfolding add_pending_packet send
nat-add_pending_packet target_ip p r =
    elim (Bool-cases (queue_pending target_ip p r.arp_manager).0) [
      | inl e ↦ rw (e, add_pending_packet) refl
      | inr e ↦ rw (e, add_pending_packet) refl
    ]

module _ (in_network : ℕ → Bool) (now : ℕ) (e : PacketIn) (r : ProtoRouter) (s : Sound r) where
  reply-Sound : (a : Arp) → Sound (handle_packet_arp_reply in_network now a e r)
  unfolding handle_packet_arp_reply learn_arp_entry
  reply-Sound a =
      let r' : ProtoRouter = learn_arp_entry in_network now e.port a.protosrc a.hwsrc r in
      let popped = pop_pending a.protosrc r'.arp_manager in
      forward_all-Sound now a.hwsrc e.port popped.0 (record r' { arp_manager = popped.1 }) s

  request-Sound : (a : Arp) → Sound (handle_packet_arp_request in_network now a e r)
  unfolding handle_packet_arp_request learn_arp_entry send
  request-Sound a =
      let r' : ProtoRouter = learn_arp_entry in_network now e.port a.protosrc a.hwsrc r in
      let own : ProtoRouter = send (make_an_arp_reply a nat_public_mac a.protodst e.port) r' in
      if-keeps Sound (a.protodst == nat_private_ip)
        (send (make_an_arp_reply a nat_private_mac a.protodst e.port) r')
        (if a.protodst == nat_public_ip then own else r') s
        (if-keeps Sound (a.protodst == nat_public_ip) own r' s s)

  by_opcode-Sound : (o : Opcode) (a : Arp) → Sound (by_opcode in_network o now a e r)
  unfolding by_opcode
  by_opcode-Sound request a = request-Sound a
  by_opcode-Sound reply a = reply-Sound a
  by_opcode-Sound (other_opcode n) a = s

  ask-Sound : (p : IpPacket) → Sound (ask_for_mac_to_public_host in_network now p e r)
  unfolding ask_for_mac_to_public_host
  ask-Sound p = elim (Bool-cases (in_network p.dstip)) [
    | inl inside ↦ rw (inside, ask_for_mac_to_public_host) s
    | inr outside ↦ elim (Option-cases (extract_flow_info in_network p e)) [
      | inl none_there ↦ rw (outside, none_there, ask_for_mac_to_public_host) s
      | inr (flow, there) ↦
          let made = get_or_create-IsSound init now r.nat_manager s flow in
          elim (Bool-cases (get_or_create_outgoing_entry now flow r.nat_manager).0.1) [
            | inl fresh ↦
                rw (outside, there, fresh, ask_for_mac_to_public_host)
                  (rw nat-add_pending_packet made)
            | inr old ↦ rw (outside, there, old, ask_for_mac_to_public_host) made
          ]
    ]
  ]

  known-Sound : (p : IpPacket) → Sound (forward_with_known_mac in_network now p e r)
  unfolding forward_with_known_mac
  known-Sound p = elim (Option-cases (lookup_mac p.dstip r.arp_manager)) [
    | inl unknown ↦ rw (unknown, forward_with_known_mac) (ask-Sound p)
    | inr (x, known) ↦ elim (Option-cases (extract_flow_info in_network p e)) [
      | inl none_there ↦ rw (known, none_there, forward_with_known_mac) s
      | inr (flow, there) ↦
          let made = get_or_create-IsSound init now r.nat_manager s flow in
          elim (Bool-cases (get_or_create_outgoing_entry now flow r.nat_manager).0.1) [
            | inl fresh ↦
                rw (known, there, fresh, forward_with_known_mac)
                  (complete_and_forward-Sound now _ x.mac x.switch_openflow_port e.raw_data _ made)
            | inr old ↦ rw (known, there, old, forward_with_known_mac) made
          ]
    ]
  ]

  private-Sound : (p : IpPacket) → Sound (route_private in_network now p e r)
  unfolding route_private
  private-Sound p =
      if-keeps Sound (knows p.dstip r.arp_manager) (forward_with_known_mac in_network now p e r)
        (ask_for_mac_to_public_host in_network now p e r) (known-Sound p) (ask-Sound p)

  ip-Sound : (p : IpPacket) → Sound (handle_ip in_network now p e r)
  unfolding handle_ip
  ip-Sound p =
      let inside : ProtoRouter =
        if in_network p.srcip then route_private in_network now p e r else r in
      if-keeps Sound (not (p.protocol == 6 || p.protocol == 17)) r inside s (
        if-keeps Sound (in_network p.srcip) (route_private in_network now p e r) r (private-Sound p)
          s)

  by_payload-Sound : (x : Payload) → Sound (by_payload in_network x now e r)
  unfolding by_payload handle_arp_type
  by_payload-Sound (ip p) = ip-Sound p
  by_payload-Sound (arp a) = by_opcode-Sound a.opcode a
  by_payload-Sound (other_type n) = s

packet_in-Sound :
    (in_network : ℕ → Bool) (now : ℕ) (e : PacketIn) (r : ProtoRouter)
    → Sound r
    → Sound (handle_packet_in in_network now e r)
unfolding handle_packet_in
packet_in-Sound in_network now e r s =
    let r' : ProtoRouter = record r { global_counter = r.global_counter + 1 } in
    if-keeps Sound e.parsed (by_payload in_network e.payload now e r') r'
      (by_payload-Sound in_network now e r' s e.payload) s

flow_removed-Sound : (f : Match) (r : ProtoRouter) → Sound r → Sound (handle_flow_removed f r)
unfolding handle_flow_removed
flow_removed-Sound f r s = elim (Bool-cases (f.nw_dst == nat_public_ip)) [
  | inl back ↦
      rw (back, handle_flow_removed) (incoming_removed-IsSound init r.nat_manager s f.tp_dst)
  | inr forth ↦ elim (Option-cases (protocol_of f.nw_proto)) [
    | inl none_known ↦ rw (forth, none_known, handle_flow_removed) s
    | inr (protocol, known) ↦
        rw (forth, known, handle_flow_removed)
          (outgoing_removed-IsSound init r.nat_manager s protocol f.nw_src f.tp_src f.nw_dst
            f.tp_dst)
  ]
]

-- What POX calls the router for.
pub data Call : Type 0 where
  packet_in : ℕ → PacketIn → Call
  flow_removed : Match → Call
  cleanup : ℕ → Call

pub handle : (ℕ → Bool) → Call → ProtoRouter → ProtoRouter
handle in_network (packet_in now e) r = handle_packet_in in_network now e r
handle in_network (flow_removed f) r = handle_flow_removed f r
handle in_network (cleanup now) r = cleanup_arp_table now r

pub handle_all : (ℕ → Bool) → List Call → ProtoRouter → ProtoRouter
unfolding handle
handle_all in_network [] r = r
handle_all in_network (c ∷ cs) r = handle_all in_network cs (handle in_network c r)

handle-Sound :
    (in_network : ℕ → Bool) (c : Call) (r : ProtoRouter) → Sound r → Sound (handle in_network c r)
unfolding handle cleanup_arp_table
handle-Sound in_network (packet_in now e) r s = packet_in-Sound in_network now e r s
handle-Sound in_network (flow_removed f) r s = flow_removed-Sound f r s
handle-Sound in_network (cleanup now) r s = s

handle_all-Sound :
    (in_network : ℕ → Bool) (cs : List Call) (r : ProtoRouter)
    → Sound r
    → Sound (handle_all in_network cs r)
unfolding handle_all
handle_all-Sound in_network [] r s = s
handle_all-Sound in_network (c ∷ cs) r s =
    handle_all-Sound in_network cs (handle in_network c r) (handle-Sound in_network c r s)

-- Whatever packets, removed flows and cleanups a new router handles: each public port from 10000 up
-- to the next new one is under exactly one entry of the table or exactly once among the free ports,
-- never both; and no other port is under an entry or free.
pub router_ports_allotted :
    (in_network : ℕ → Bool) (cs : List Call) (p : ℕ)
    → let m = (handle_all in_network cs create).nat_manager in
      uses p m.entries + count p m.free_ports ≡ (if leb 10000 p && ltb p m.next_port then 1 else 0)
unfolding create
router_ports_allotted in_network cs p =
    (handle_all-Sound in_network cs create (create-IsSound init)).1.1 p
