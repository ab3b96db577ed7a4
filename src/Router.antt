-- ===== src/Router.antt =====
-- TP 2 ARP-NAT/pox/ext: the router between a private and a public network.
pub mod NatEntry
pub mod NatManager
pub mod ArpManager
pub mod OpenFlow
pub mod ProtoRouter
