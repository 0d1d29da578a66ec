-- ===== src/Registry.antt =====
-- kin-node/kin/agent_registry: the cards of peers' agents.
pub mod PeerCards
pub mod Review
mod Examples
pub mod Local
mod Off
pub mod Disabled
