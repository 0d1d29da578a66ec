-- ===== src/Policy.antt =====
-- kin-node/kin/policy: what an agent may do, and the owner's approvals.
pub mod Evaluator
pub mod Verdicts
pub mod Store
pub mod Record
pub mod Decide
pub mod Machine
pub mod Terms
pub mod SingleUse
pub mod Pending
pub mod Decided
pub mod Once
mod Examples
