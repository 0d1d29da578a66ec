-- ===== src/Session.antt =====
-- kin-node/kin/session: the session state machine.
pub mod Status
pub mod Message
pub mod State
pub mod Reducer
pub mod Machine
pub mod Reconstruct
pub mod Acceptance
pub mod Conditions
pub mod Admission
pub mod Steps
pub mod Refusals
pub mod Replay
pub mod Turns
pub mod Authority
mod Examples
