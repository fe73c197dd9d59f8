-- ===== src/Core/Relays.antt =====
-- Messages that are passed on to other players: `send_to_recipients_or_broadcast`, `relay_avatar_generic`,
-- `relay_scene_generic` and `relay_event` of BasisRustServer/crates/basis-server-core/src/lib.rs.
pub mod Reach
use basis_rust_server.Common.{
  ℕ, Bool, true, false, List, [], ◌∷◌, length, take, drop, some, ltb, ◌==◌, not, ◌&&◌, ◌||◌,
  if◌then◌else◌,
}
use basis_rust_server.Common.Maps.{nat_key}
use basis_rust_server.Common.Words.{Bytes, from_le_bytes}
use basis_rust_server.Protocol.Io.{Result, ok, err, new_reader, put_u8, put_u16, put_bool}
use basis_rust_server.Protocol.Io.Carries.{◌⨾◌}
use basis_rust_server.Protocol.Messages.Talk.{
  AvatarDataMessage, deserialize_avatar_data_message, ServerAvatarDataMessage,
  serialize_server_avatar_data_message, SceneDataMessage, deserialize_scene_data_message,
  ServerSceneDataMessage, serialize_server_scene_data_message,
}
use basis_rust_server.Protocol.Messages.Cameras.{
  CameraShutterSoundMessage, serialize_camera_shutter_sound_message, CameraCountdownMessage,
  serialize_camera_countdown_message, deserialize_client_camera_countdown_message,
}
use basis_rust_server.Transport.Packet.{DeliveryMethod, sequenced, reliable_ordered}
use basis_rust_server.P2p.{is_offloaded}
use basis_rust_server.Core.{
  ServerState, Request, is_authenticated, is_p2p_offload_channel, deliver_to, broadcast, written,
}
use basis_rust_server.Core.Voice.{keep_ids}

abbrev pub is_nobody : List ℕ → Bool
is_nobody [] = true
is_nobody (id ∷ ids) = false

unfoldable pub send_to_recipients_or_broadcast :
    ServerState → ℕ → DeliveryMethod → ℕ → Bytes → List ℕ → List Request
unfolding broadcast keep_ids is_p2p_offload_channel is_offloaded
send_to_recipients_or_broadcast state peer delivery channel payload recipients =
    if is_nobody recipients
    then broadcast state channel delivery payload (some peer)
    else deliver_to channel delivery payload (
        keep_ids
          (λ id. not (
            (id == peer)
            || not (is_authenticated state id)
            || (is_p2p_offload_channel channel && is_offloaded peer id state.p2p_broker)))
          recipients)

from_avatar : ℕ → AvatarDataMessage → ServerAvatarDataMessage
from_avatar peer avatar = record {
  player_id = peer;
  avatar_data_message = record {
    player_id = avatar.player_id;
    avatar_link_index = avatar.avatar_link_index;
    message_index = avatar.message_index;
    payload = avatar.payload;
  };
}

unfoldable pub relay_avatar_generic :
    ServerState → ℕ → DeliveryMethod → Bytes → Result (List Request)
unfolding from_avatar send_to_recipients_or_broadcast
relay_avatar_generic state peer delivery payload =
    elim (deserialize_avatar_data_message (new_reader payload)) [
      | err e ↦ err e
      | ok (avatar, r) ↦ ok (
          send_to_recipients_or_broadcast state peer delivery 15
            (written (serialize_server_avatar_data_message (from_avatar peer avatar)))
            avatar.recipients)
    ]

from_scene : ℕ → SceneDataMessage → ServerSceneDataMessage
from_scene peer scene = record {
  player_id = peer;
  scene_data_message = record { message_index = scene.message_index; payload = scene.payload };
}

unfoldable pub relay_scene_generic :
    ServerState → ℕ → DeliveryMethod → Bytes → Result (List Request)
unfolding from_scene send_to_recipients_or_broadcast
relay_scene_generic state peer delivery payload =
    elim (deserialize_scene_data_message (new_reader payload)) [
      | err e ↦ err e
      | ok (scene, r) ↦ ok (
          send_to_recipients_or_broadcast state peer delivery 24
            (written (serialize_server_scene_data_message (from_scene peer scene)))
            scene.recipients)
    ]

-- `rest[2] != 0`.
is_blocked : Bytes → Bool
is_blocked [] = false
is_blocked (b ∷ bs) = not (b == 0)

unfoldable pub temp_block : ServerState → ℕ → Bytes → List Request
unfolding is_blocked
temp_block state peer rest =
    let target = from_le_bytes (take 2 rest) in
    let event = written (put_u8 2 ⨾ put_u16 peer ⨾ put_bool (is_blocked (drop 2 rest))) in
    if ltb (length rest) 3
    then []
    else if not (is_authenticated state target)
    then []
    else deliver_to 38 reliable_ordered event (target ∷ [])

shutter : ℕ → CameraShutterSoundMessage
shutter peer = record { player_id = peer }

countdown : ServerState → ℕ → Bytes → Result (List Request)
unfolding broadcast
countdown state peer rest = elim (deserialize_client_camera_countdown_message (new_reader rest)) [
  | err e ↦ err e
  | ok (m, r) ↦
      let relayed : CameraCountdownMessage = record { player_id = peer; seconds = m.seconds } in
      ok (
        broadcast state 38 sequenced
          (written (put_u8 1 ⨾ serialize_camera_countdown_message relayed)) (some peer))
]

-- An event of an unknown type is counted as an error and dropped.
unfoldable pub relay_event : ServerState → ℕ → Bytes → Result (List Request)
unfolding broadcast shutter countdown temp_block
relay_event state peer [] = ok []
relay_event state peer (event_type ∷ rest) =
    if event_type == 0
    then ok (
        broadcast state 38 sequenced
          (written (put_u8 0 ⨾ serialize_camera_shutter_sound_message (shutter peer))) (some peer))
    else if event_type == 1
    then countdown state peer rest
    else if event_type == 2
    then ok (temp_block state peer rest)
    else ok []
