-- ===== src/Client.antt =====
-- The client package: quorums, leases and their operations.
pub mod Quorum
pub mod Config
pub mod Lease
pub mod Collect
pub mod Acquire
pub mod Renew
pub mod Healing
pub mod Connection
pub mod Responses
pub mod Ready
