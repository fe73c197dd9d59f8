-- ===== src/Tests.antt =====
-- Runs of the model at concrete inputs.
pub mod Protocol
pub mod Transport
pub mod Handle
pub mod P2p
pub mod Resources
pub mod Permissions
pub mod Messages
pub mod Moderation
pub mod Avatar
pub mod Core
pub mod Admission
