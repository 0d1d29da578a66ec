-- ===== src/Transport/Ingest.antt =====
-- ingest_envelope of kin-node/kin/transport/v11.py, to the commit of the session's status.
pub mod Model
pub mod Bootstrap
pub mod Store
pub mod Pipeline
mod Events
mod Stages
pub mod Authentic
pub mod Log
pub mod Accepted
pub mod Drafts
