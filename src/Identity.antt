-- ===== src/Identity.antt =====
-- kin-node/kin/identity/auth.py: signed headers of HTTP requests.
pub mod Auth
pub mod Signed
mod Examples
