-- ===== src/Session/Reducer.antt =====
-- kin-node/kin/session/reducer.py: peer envelopes, node commands and owner commands.
pub mod Peer
pub mod Commands
