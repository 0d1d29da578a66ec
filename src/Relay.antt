-- ===== src/Relay.antt =====
-- kin-relay/kin_relay: the directory of users and their mailboxes.
pub mod Model
pub mod Routes
pub mod Machine
pub mod Directory
pub mod Mailbox
pub mod Inbox
pub mod Delivery
mod Examples
