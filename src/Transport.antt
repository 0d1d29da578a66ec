-- ===== src/Transport.antt =====
-- kin-node/kin/transport/v11.py: the status transitions that are written to the database.
pub mod Transitions
pub mod Ingest
mod Examples
pub mod Queue
