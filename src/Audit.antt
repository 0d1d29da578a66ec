-- ===== src/Audit.antt =====
-- kin-node/kin/audit/writer.py: the audit log and the event log of a session.
pub mod Writer
pub mod Order
pub mod Duplicates
mod Examples
