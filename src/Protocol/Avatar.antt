-- ===== src/Protocol/Avatar.antt =====
-- The avatar codec: BasisRustServer/crates/basis-protocol/src/avatar.rs.
pub mod Bundle
use basis_rust_server.Common.{ℕ}

pub data BitQuality : Type 0 where
  very_low low medium high : BitQuality

-- `quality as u8`.
unfoldable pub quality_byte : BitQuality → ℕ
quality_byte very_low = 0
quality_byte low = 1
quality_byte medium = 2
quality_byte high = 3

unfoldable pub payload_len : BitQuality → ℕ
payload_len very_low = 112
payload_len low = 131
payload_len medium = 156
payload_len high = 182

unfoldable pub rotation_len : BitQuality → ℕ
rotation_len very_low = 78
rotation_len low = 97
rotation_len medium = 122
rotation_len high = 148
