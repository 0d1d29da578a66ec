-- ===== src/Gateway/Mirror.antt =====
-- kin_gateway/agent_card.py: how the mirror fetches the card of the protected agent.
pub mod Target
pub mod Fetch
pub mod Guarded
