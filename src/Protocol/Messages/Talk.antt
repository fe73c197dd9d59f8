-- ===== src/Protocol/Messages/Talk.antt =====
-- Messages that carry chat, voice and the data of avatars and scenes: BasisRustServer/crates/basis-protocol/src/messages.rs. A field `data` is `statistics`.
pub mod Carried
use basis_rust_server.Common.{ℕ, ◌%◌, ◌^◌, Bool, List, length, take, if◌then◌else◌}
use basis_rust_server.Common.Words.{Bytes}
use basis_rust_server.Protocol.Io.{
  Read, ◌>>=◌, return, put_u8, put_u16, put_bytes, get_u8, get_u16, get_bytes,
}
use basis_rust_server.Protocol.Io.Carries.{Write, ◌⨾◌, put_each, get_times}
use Prim.Native.Nat.{min}
use basis_rust_server.Protocol.Messages.Rest.{rest_of_packet}

pub record ChatMessage : Type 0 where
  pub payload : Bytes

unfoldable pub serialize_chat_message : ChatMessage → Write
serialize_chat_message m =
    let len = min (length m.payload) 512 in put_u16 (len % 2 ^ 16) ⨾ put_bytes (take len m.payload)

unfoldable pub deserialize_chat_message : Read ChatMessage
deserialize_chat_message = do
  len ← get_u16
  payload ← get_bytes (min len 512)
  return (record { payload = payload })

pub record ServerChatMessage : Type 0 where
  pub player_id : ℕ
  pub chat_message : ChatMessage

unfoldable pub serialize_server_chat_message : ServerChatMessage → Write
serialize_server_chat_message m = put_u16 m.player_id ⨾ serialize_chat_message m.chat_message

-- `count`, and the ids of so many peers.
unfoldable pub deserialize_voice_receivers_message : Bool → Read (List ℕ)
deserialize_voice_receivers_message large_count = do
  count ← if large_count then get_u16 else get_u8
  get_times count get_u16

pub record AudioSegmentDataMessage : Type 0 where
  pub audio_segment : Bytes

unfoldable pub serialize_audio_segment_data_message : AudioSegmentDataMessage → Write
serialize_audio_segment_data_message m = put_bytes m.audio_segment

unfoldable pub deserialize_audio_segment_data_message : Read AudioSegmentDataMessage
deserialize_audio_segment_data_message = do
  audio_segment ← rest_of_packet
  return (record { audio_segment = audio_segment })

pub record ServerAudioSegmentMessage : Type 0 where
  pub player_id : ℕ
  pub audio_segment : Bytes

unfoldable pub serialize_with_id_size : Bool → ServerAudioSegmentMessage → Write
serialize_with_id_size large_id m =
    (if large_id then put_u16 m.player_id else put_u8 (m.player_id % 2 ^ 8))
    ⨾ put_bytes m.audio_segment

unfoldable pub serialize_server_audio_segment_message : ServerAudioSegmentMessage → Write
serialize_server_audio_segment_message m = put_u16 m.player_id ⨾ put_bytes m.audio_segment

unfoldable pub deserialize_server_audio_segment_message : Read ServerAudioSegmentMessage
deserialize_server_audio_segment_message = do
  player_id ← get_u16
  segment ← deserialize_audio_segment_data_message
  return (record { player_id = player_id; audio_segment = segment.audio_segment })

pub record AvatarDataMessage : Type 0 where
  pub player_id : ℕ
  pub avatar_link_index : ℕ
  pub message_index : ℕ
  pub recipients : List ℕ
  pub payload : Bytes

unfoldable pub serialize_avatar_data_message : AvatarDataMessage → Write
serialize_avatar_data_message m =
    put_u16 m.player_id
    ⨾ put_u8 m.avatar_link_index
    ⨾ put_u8 m.message_index
    ⨾ put_u16 (length m.recipients % 2 ^ 16)
    ⨾ put_each put_u16 m.recipients
    ⨾ put_bytes m.payload

unfoldable pub deserialize_avatar_data_message : Read AvatarDataMessage
deserialize_avatar_data_message = do
  player_id ← get_u16
  avatar_link_index ← get_u8
  message_index ← get_u8
  count ← get_u16
  recipients ← get_times count get_u16
  payload ← rest_of_packet
  return (record {
    player_id = player_id;
    avatar_link_index = avatar_link_index;
    message_index = message_index;
    recipients = recipients;
    payload = payload;
  })

pub record RemoteAvatarDataMessage : Type 0 where
  pub player_id : ℕ
  pub avatar_link_index : ℕ
  pub message_index : ℕ
  pub payload : Bytes

unfoldable pub serialize_remote_avatar_data_message : RemoteAvatarDataMessage → Write
serialize_remote_avatar_data_message m =
    put_u16 m.player_id ⨾ put_u8 m.avatar_link_index ⨾ put_u8 m.message_index ⨾ put_bytes m.payload

unfoldable pub deserialize_remote_avatar_data_message : Read RemoteAvatarDataMessage
deserialize_remote_avatar_data_message = do
  player_id ← get_u16
  avatar_link_index ← get_u8
  message_index ← get_u8
  payload ← rest_of_packet
  return (record {
    player_id = player_id;
    avatar_link_index = avatar_link_index;
    message_index = message_index;
    payload = payload;
  })

pub record ServerAvatarDataMessage : Type 0 where
  pub player_id : ℕ
  pub avatar_data_message : RemoteAvatarDataMessage

unfoldable pub serialize_server_avatar_data_message : ServerAvatarDataMessage → Write
serialize_server_avatar_data_message m =
    put_u16 m.player_id ⨾ serialize_remote_avatar_data_message m.avatar_data_message

pub record SceneDataMessage : Type 0 where
  pub message_index : ℕ
  pub recipients : List ℕ
  pub payload : Bytes

unfoldable pub serialize_scene_data_message : SceneDataMessage → Write
serialize_scene_data_message m =
    put_u16 m.message_index
    ⨾ put_u16 (length m.recipients % 2 ^ 16)
    ⨾ put_each put_u16 m.recipients
    ⨾ put_bytes m.payload

unfoldable pub deserialize_scene_data_message : Read SceneDataMessage
deserialize_scene_data_message = do
  message_index ← get_u16
  count ← get_u16
  recipients ← get_times count get_u16
  payload ← rest_of_packet
  return (record { message_index = message_index; recipients = recipients; payload = payload })

pub record RemoteSceneDataMessage : Type 0 where
  pub message_index : ℕ
  pub payload : Bytes

unfoldable pub serialize_remote_scene_data_message : RemoteSceneDataMessage → Write
serialize_remote_scene_data_message m = put_u16 m.message_index ⨾ put_bytes m.payload

unfoldable pub deserialize_remote_scene_data_message : Read RemoteSceneDataMessage
deserialize_remote_scene_data_message = do
  message_index ← get_u16
  payload ← rest_of_packet
  return (record { message_index = message_index; payload = payload })

pub record ServerSceneDataMessage : Type 0 where
  pub player_id : ℕ
  pub scene_data_message : RemoteSceneDataMessage

unfoldable pub serialize_server_scene_data_message : ServerSceneDataMessage → Write
serialize_server_scene_data_message m =
    put_u16 m.player_id ⨾ serialize_remote_scene_data_message m.scene_data_message

pub record ServerStatisticMessage : Type 0 where
  pub statistics : Bytes

unfoldable pub serialize_server_statistic_message : ServerStatisticMessage → Write
serialize_server_statistic_message m = put_bytes m.statistics

unfoldable pub deserialize_server_statistic_message : Read ServerStatisticMessage
deserialize_server_statistic_message = do
  statistics ← rest_of_packet
  return (record { statistics = statistics })
