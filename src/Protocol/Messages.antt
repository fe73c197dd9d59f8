-- ===== src/Protocol/Messages.antt =====
-- The messages of the wire protocol: BasisRustServer/crates/basis-protocol/src/messages.rs.
pub mod Rest
pub mod Players
pub mod Objects
pub mod Admin
pub mod Sharing
pub mod Cameras
pub mod Avatars
pub mod Talk
pub mod Kinds
