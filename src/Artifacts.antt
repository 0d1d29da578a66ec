-- ===== src/Artifacts.antt =====
-- kin-node/kin/artifacts: the vault of encrypted artifacts.
pub mod Vault
pub mod Stored
mod Examples
