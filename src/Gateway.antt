-- ===== src/Gateway.antt =====
-- kin_gateway: the gateway's data plane and its admin plane.
pub mod Headers
pub mod Credentials
pub mod Tracker
pub mod Routes
pub mod Wire
pub mod Proxy
pub mod Forwarding
pub mod Observed
pub mod Admin
pub mod Mirror
mod Examples
