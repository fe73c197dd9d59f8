-- ===== src/Protocol.antt =====
-- The wire protocol: BasisRustServer/crates/basis-protocol/src.
pub mod Io
pub mod ServerInfo
pub mod Messages
pub mod Avatar
pub mod Did
pub mod Channels
