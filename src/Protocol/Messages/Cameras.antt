-- ===== src/Protocol/Messages/Cameras.antt =====
-- Messages about cameras: BasisRustServer/crates/basis-protocol/src/messages.rs. A float is its bit
-- pattern.
pub mod Carried
use basis_rust_server.Common.{ℕ, Bool, true, false, if◌then◌else◌}
use basis_rust_server.Protocol.Io.{
  Read, ◌>>=◌, return, put_u8, put_bool, put_u16, put_u32, get_u8, get_bool, get_u16, get_u32,
}
use basis_rust_server.Protocol.Io.Carries.{Write, ◌⨾◌, skip}
use basis_rust_server.Protocol.Messages.Objects.{one}

pub record CameraPipStateMessage : Type 0 where
  pub player_id : ℕ
  pub is_active : Bool
  pub position_x : ℕ
  pub position_y : ℕ
  pub position_z : ℕ
  pub rotation_x : ℕ
  pub rotation_y : ℕ
  pub rotation_z : ℕ
  pub rotation_w : ℕ

unfoldable pub write_pip_transform : CameraPipStateMessage → Write
write_pip_transform m =
    put_u32 m.position_x
    ⨾ put_u32 m.position_y
    ⨾ put_u32 m.position_z
    ⨾ put_u32 m.rotation_x
    ⨾ put_u32 m.rotation_y
    ⨾ put_u32 m.rotation_z
    ⨾ put_u32 m.rotation_w

unfoldable pub serialize_camera_pip_state_message : CameraPipStateMessage → Write
unfolding write_pip_transform
serialize_camera_pip_state_message m =
    put_u16 m.player_id
    ⨾ put_bool m.is_active
    ⨾ (if m.is_active then write_pip_transform m else skip)

unfoldable pub read_pip_transform : CameraPipStateMessage → Read CameraPipStateMessage
read_pip_transform message = do
  position_x ← get_u32
  position_y ← get_u32
  position_z ← get_u32
  rotation_x ← get_u32
  rotation_y ← get_u32
  rotation_z ← get_u32
  rotation_w ← get_u32
  return (record message {
    position_x = position_x;
    position_y = position_y;
    position_z = position_z;
    rotation_x = rotation_x;
    rotation_y = rotation_y;
    rotation_z = rotation_z;
    rotation_w = rotation_w;
  })

-- The message before the transform is read.
abbrev pub unmoved : ℕ → Bool → CameraPipStateMessage
unmoved player_id is_active = record {
  player_id = player_id;
  is_active = is_active;
  position_x = 0;
  position_y = 0;
  position_z = 0;
  rotation_x = 0;
  rotation_y = 0;
  rotation_z = 0;
  rotation_w = one;
}

unfoldable pub deserialize_camera_pip_state_message : Read CameraPipStateMessage
unfolding read_pip_transform
deserialize_camera_pip_state_message = do
  player_id ← get_u16
  is_active ← get_bool
  if is_active
      then read_pip_transform (unmoved player_id is_active)
      else return (unmoved player_id is_active)

pub record ClientCameraPipStateMessage : Type 0 where
  pub is_active : Bool
  pub position_x : ℕ
  pub position_y : ℕ
  pub position_z : ℕ
  pub rotation_x : ℕ
  pub rotation_y : ℕ
  pub rotation_z : ℕ
  pub rotation_w : ℕ

read_client_transform : Read ClientCameraPipStateMessage
read_client_transform = do
  position_x ← get_u32
  position_y ← get_u32
  position_z ← get_u32
  rotation_x ← get_u32
  rotation_y ← get_u32
  rotation_z ← get_u32
  rotation_w ← get_u32
  return (record {
    is_active = true;
    position_x = position_x;
    position_y = position_y;
    position_z = position_z;
    rotation_x = rotation_x;
    rotation_y = rotation_y;
    rotation_z = rotation_z;
    rotation_w = rotation_w;
  })

unfoldable pub deserialize_client_camera_pip_state_message : Read ClientCameraPipStateMessage
unfolding read_client_transform
deserialize_client_camera_pip_state_message = do
  is_active ← get_bool
  if is_active
      then read_client_transform
      else return (record {
        is_active = false;
        position_x = 0;
        position_y = 0;
        position_z = 0;
        rotation_x = 0;
        rotation_y = 0;
        rotation_z = 0;
        rotation_w = one;
      })

pub record CameraPipPositionMessage : Type 0 where
  pub player_id : ℕ
  pub position_x : ℕ
  pub position_y : ℕ
  pub position_z : ℕ
  pub rotation_x : ℕ
  pub rotation_y : ℕ
  pub rotation_z : ℕ
  pub rotation_w : ℕ

unfoldable pub serialize_camera_pip_position_message : CameraPipPositionMessage → Write
serialize_camera_pip_position_message m =
    put_u16 m.player_id
    ⨾ put_u32 m.position_x
    ⨾ put_u32 m.position_y
    ⨾ put_u32 m.position_z
    ⨾ put_u32 m.rotation_x
    ⨾ put_u32 m.rotation_y
    ⨾ put_u32 m.rotation_z
    ⨾ put_u32 m.rotation_w

unfoldable pub deserialize_camera_pip_position_message : Read CameraPipPositionMessage
deserialize_camera_pip_position_message = do
  player_id ← get_u16
  position_x ← get_u32
  position_y ← get_u32
  position_z ← get_u32
  rotation_x ← get_u32
  rotation_y ← get_u32
  rotation_z ← get_u32
  rotation_w ← get_u32
  return (record {
    player_id = player_id;
    position_x = position_x;
    position_y = position_y;
    position_z = position_z;
    rotation_x = rotation_x;
    rotation_y = rotation_y;
    rotation_z = rotation_z;
    rotation_w = rotation_w;
  })

pub record ClientCameraPipPositionMessage : Type 0 where
  pub position_x : ℕ
  pub position_y : ℕ
  pub position_z : ℕ
  pub rotation_x : ℕ
  pub rotation_y : ℕ
  pub rotation_z : ℕ
  pub rotation_w : ℕ

unfoldable pub deserialize_client_camera_pip_position_message : Read ClientCameraPipPositionMessage
deserialize_client_camera_pip_position_message = do
  position_x ← get_u32
  position_y ← get_u32
  position_z ← get_u32
  rotation_x ← get_u32
  rotation_y ← get_u32
  rotation_z ← get_u32
  rotation_w ← get_u32
  return (record {
    position_x = position_x;
    position_y = position_y;
    position_z = position_z;
    rotation_x = rotation_x;
    rotation_y = rotation_y;
    rotation_z = rotation_z;
    rotation_w = rotation_w;
  })

pub record CameraShutterSoundMessage : Type 0 where
  pub player_id : ℕ

unfoldable pub serialize_camera_shutter_sound_message : CameraShutterSoundMessage → Write
serialize_camera_shutter_sound_message m = put_u16 m.player_id

unfoldable pub deserialize_camera_shutter_sound_message : Read CameraShutterSoundMessage
deserialize_camera_shutter_sound_message = do
  player_id ← get_u16
  return (record { player_id = player_id })

pub record CameraCountdownMessage : Type 0 where
  pub player_id : ℕ
  pub seconds : ℕ

unfoldable pub serialize_camera_countdown_message : CameraCountdownMessage → Write
serialize_camera_countdown_message m = put_u16 m.player_id ⨾ put_u8 m.seconds

unfoldable pub deserialize_camera_countdown_message : Read CameraCountdownMessage
deserialize_camera_countdown_message = do
  player_id ← get_u16
  seconds ← get_u8
  return (record { player_id = player_id; seconds = seconds })

pub record ClientCameraCountdownMessage : Type 0 where
  pub seconds : ℕ

unfoldable pub serialize_client_camera_countdown_message : ClientCameraCountdownMessage → Write
serialize_client_camera_countdown_message m = put_u8 m.seconds

unfoldable pub deserialize_client_camera_countdown_message : Read ClientCameraCountdownMessage
deserialize_client_camera_countdown_message = do
  seconds ← get_u8
  return (record { seconds = seconds })
