-- ===== src/Resources.antt =====
-- The tables of the resources crate: BasisRustServer/crates/basis-server-resources/src/lib.rs.
pub mod NetIds
pub mod Ownership
pub mod Store
pub mod Preload
pub mod Sharing
pub mod Cameras
