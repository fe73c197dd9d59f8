-- ===== src/Protocol/Messages/Cameras/Carried.antt =====
-- What the messages of Protocol/Messages/Cameras carry.
use basis_rust_server.Common.{◌^◌, ◌<◌, ◌≡◌, refl, sym, ap, subst, Bool, true, false, if◌then◌else◌}
use basis_rust_server.Protocol.Io.{return}
use basis_rust_server.Protocol.Io.Carries.{skip}
use basis_rust_server.Protocol.Io.Carries.{Carries, bind-Carries, map-Carries, return-Carries}
use basis_rust_server.Protocol.Io.Carries.Words.{u8-Carries, bool-Carries, u16-Carries, u32-Carries}
use basis_rust_server.Protocol.Messages.Cameras.{
  CameraPipStateMessage, write_pip_transform, serialize_camera_pip_state_message,
  read_pip_transform, unmoved, deserialize_camera_pip_state_message, CameraPipPositionMessage,
  serialize_camera_pip_position_message, deserialize_camera_pip_position_message,
  CameraShutterSoundMessage, serialize_camera_shutter_sound_message,
  deserialize_camera_shutter_sound_message, CameraCountdownMessage,
  serialize_camera_countdown_message, deserialize_camera_countdown_message,
  ClientCameraCountdownMessage, serialize_client_camera_countdown_message,
  deserialize_client_camera_countdown_message,
}

abbrev FitsTransform : CameraPipStateMessage → Type 0
FitsTransform m =
    (m.position_x < 2 ^ 32)
    × (m.position_y < 2 ^ 32)
    × (m.position_z < 2 ^ 32)
    × (m.rotation_x < 2 ^ 32)
    × (m.rotation_y < 2 ^ 32)
    × (m.rotation_z < 2 ^ 32)
    × (m.rotation_w < 2 ^ 32)

abbrev pub FitsCameraPipStateMessage : CameraPipStateMessage → Type 0
FitsCameraPipStateMessage m = (m.player_id < 2 ^ 16) × FitsTransform m

-- The transform travels with an active camera only.
abbrev pub shown : CameraPipStateMessage → CameraPipStateMessage
shown m = if m.is_active then m else unmoved m.player_id m.is_active

transform-Carries :
    (m value : CameraPipStateMessage)
    → FitsTransform m
    → Carries (write_pip_transform m) (read_pip_transform value) (record value {
      position_x = m.position_x;
      position_y = m.position_y;
      position_z = m.position_z;
      rotation_x = m.rotation_x;
      rotation_y = m.rotation_y;
      rotation_z = m.rotation_z;
      rotation_w = m.rotation_w;
    })
unfolding write_pip_transform read_pip_transform
transform-Carries m value h = bind-Carries _ (u32-Carries m.position_x h.0) (
    bind-Carries _ (u32-Carries m.position_y h.1) (
      bind-Carries _ (u32-Carries m.position_z h.2) (
        bind-Carries _ (u32-Carries m.rotation_x h.3) (
          bind-Carries _ (u32-Carries m.rotation_y h.4) (
            bind-Carries _ (u32-Carries m.rotation_z h.5)
              (map-Carries _ (u32-Carries m.rotation_w h.6) refl))))))

maybe_transform-Carries :
    (m : CameraPipStateMessage) (active : Bool)
    → m.is_active ≡ active
    → FitsTransform m
    → Carries
        (if active then write_pip_transform m else skip)
        (if active
          then read_pip_transform (unmoved m.player_id active)
          else return (unmoved m.player_id active))
        (if active then m else unmoved m.player_id active)
maybe_transform-Carries m true e h =
    subst
      (λ sent. Carries (write_pip_transform m) (read_pip_transform (unmoved m.player_id true)) sent)
      (ap (λ (active : Bool). record m { is_active = active }) (sym e))
      (transform-Carries m (unmoved m.player_id true) h)
maybe_transform-Carries m false e h = return-Carries (unmoved m.player_id false)

pub camera_pip_state_message-Carries :
    (m : CameraPipStateMessage)
    → FitsCameraPipStateMessage m
    → Carries (serialize_camera_pip_state_message m) deserialize_camera_pip_state_message (shown m)
unfolding serialize_camera_pip_state_message deserialize_camera_pip_state_message
camera_pip_state_message-Carries m h =
    bind-Carries _ (u16-Carries m.player_id h.0)
      (bind-Carries _ (bool-Carries m.is_active) (maybe_transform-Carries m m.is_active refl h.1))

abbrev pub FitsCameraPipPositionMessage : CameraPipPositionMessage → Type 0
FitsCameraPipPositionMessage m =
    (m.player_id < 2 ^ 16)
    × (m.position_x < 2 ^ 32)
    × (m.position_y < 2 ^ 32)
    × (m.position_z < 2 ^ 32)
    × (m.rotation_x < 2 ^ 32)
    × (m.rotation_y < 2 ^ 32)
    × (m.rotation_z < 2 ^ 32)
    × (m.rotation_w < 2 ^ 32)

pub camera_pip_position_message-Carries :
    (m : CameraPipPositionMessage)
    → FitsCameraPipPositionMessage m
    → Carries (serialize_camera_pip_position_message m) deserialize_camera_pip_position_message m
unfolding serialize_camera_pip_position_message deserialize_camera_pip_position_message
camera_pip_position_message-Carries m h = bind-Carries _ (u16-Carries m.player_id h.0) (
    bind-Carries _ (u32-Carries m.position_x h.1) (
      bind-Carries _ (u32-Carries m.position_y h.2) (
        bind-Carries _ (u32-Carries m.position_z h.3) (
          bind-Carries _ (u32-Carries m.rotation_x h.4) (
            bind-Carries _ (u32-Carries m.rotation_y h.5) (
              bind-Carries _ (u32-Carries m.rotation_z h.6)
                (map-Carries _ (u32-Carries m.rotation_w h.7) refl)))))))

abbrev pub FitsCameraShutterSoundMessage : CameraShutterSoundMessage → Type 0
FitsCameraShutterSoundMessage m = m.player_id < 2 ^ 16

pub camera_shutter_sound_message-Carries :
    (m : CameraShutterSoundMessage)
    → FitsCameraShutterSoundMessage m
    → Carries (serialize_camera_shutter_sound_message m) deserialize_camera_shutter_sound_message m
unfolding serialize_camera_shutter_sound_message deserialize_camera_shutter_sound_message
camera_shutter_sound_message-Carries m h = map-Carries _ (u16-Carries m.player_id h) refl

abbrev pub FitsCameraCountdownMessage : CameraCountdownMessage → Type 0
FitsCameraCountdownMessage m = m.player_id < 2 ^ 16

pub camera_countdown_message-Carries :
    (m : CameraCountdownMessage)
    → FitsCameraCountdownMessage m
    → Carries (serialize_camera_countdown_message m) deserialize_camera_countdown_message m
unfolding serialize_camera_countdown_message deserialize_camera_countdown_message
camera_countdown_message-Carries m h =
    bind-Carries _ (u16-Carries m.player_id h) (map-Carries _ (u8-Carries m.seconds) refl)

abbrev pub FitsClientCameraCountdownMessage : ClientCameraCountdownMessage → Type 0
FitsClientCameraCountdownMessage m = Unit {0}

pub client_camera_countdown_message-Carries :
    (m : ClientCameraCountdownMessage)
    → FitsClientCameraCountdownMessage m
    → Carries
        (serialize_client_camera_countdown_message m)
        deserialize_client_camera_countdown_message
        m
unfolding serialize_client_camera_countdown_message deserialize_client_camera_countdown_message
client_camera_countdown_message-Carries m h = map-Carries _ (u8-Carries m.seconds) refl
