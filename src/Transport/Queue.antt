-- ===== src/Transport/Queue.antt =====
-- The retries of outbound envelopes: retry_outbound_queue of kin-node/kin/transport/v11.py.
pub mod Contacts
pub mod Backoff
pub mod Retry
mod Spares
pub mod Undue
