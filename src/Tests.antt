-- ===== src/Tests.antt =====
-- The theorems at concrete inputs: small transfers, segments and timers.
pub mod Transfers
pub mod Flows
pub mod Wire
pub mod Timers
pub mod Routers
pub mod Datagrams
pub mod Endings
pub mod Servers
pub mod Downloads
