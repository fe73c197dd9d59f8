-- ===== src/Transport.antt =====
-- The UDP transport: BasisRustServer/crates/basis-transport/src/lib.rs.
pub mod Packet
pub mod Merge
pub mod Acks
pub mod Address
pub mod Peer
pub mod Parse
pub mod Handle
pub mod Resend
pub mod Dispatch
