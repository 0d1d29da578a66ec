-- ===== src/Schemas.antt =====
-- kin-node/kin/schemas.py: the values that the node's components share.
pub mod Encoding
pub mod Timestamp
pub mod Envelope
pub mod Verification
pub mod Signing
pub mod Cards
pub mod Approvals
mod Examples
