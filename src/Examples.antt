-- ===== src/Examples.antt =====
-- The theorems at concrete inputs.
pub mod Flows
pub mod Packets
pub mod Configs
pub mod Timing
pub mod Routers
pub mod Chains
pub mod Launches
pub mod Pings
pub mod Grants
pub mod Primary
pub mod Rounds
pub mod Handshakes
