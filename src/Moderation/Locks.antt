-- ===== src/Moderation/Locks.antt =====
-- The switches of the server: `GlobalState` of BasisRustServer/crates/basis-server-admin/src/lib.rs.
use basis_rust_server.Common.{ℕ, Bool}

pub record GlobalState : Type 0 where
  pub avatars_locked : Bool
  pub props_locked : Bool
  pub worlds_locked : Bool
  pub servers_locked : Bool
  pub third_person_disabled : Bool
  pub additional_avatar_data_lock : Bool
  pub disallow_headless : Bool
  pub headless_audio_off : Bool
  pub opus_packet_loss_percent : ℕ
  pub opus_frame_duration_ms : ℕ
