-- ===== src/Net.antt =====
-- src/network.
pub mod Client
pub mod Error
pub mod Framing
pub mod Group
pub mod Inflight
pub mod Server
pub mod Wire
