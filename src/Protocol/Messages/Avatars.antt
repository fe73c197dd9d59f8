-- ===== src/Protocol/Messages/Avatars.antt =====
-- Messages about avatars and about players that are ready: BasisRustServer/crates/basis-protocol/src/messages.rs.
pub mod Carried
use basis_rust_server.Common.{
  ℕ, ◌%◌, ◌^◌, Bool, List, [], ◌∷◌, length, take, if◌then◌else◌, ltb, ◌==◌, replicate,
}
use basis_rust_server.Common.Words.{Bytes}
use basis_rust_server.Protocol.Io.{
  Read, ◌>>=◌, return, put_u8, put_u16, put_bytes, get_u8, get_u16, get_bytes,
}
use basis_rust_server.Protocol.Io.Carries.{Write, ◌⨾◌, skip, put_each, get_times}
use Prim.Native.Nat.{min}
use basis_rust_server.Protocol.Avatar.{very_low, low, medium, high, payload_len, quality_byte}
use basis_rust_server.Protocol.Messages.Players.{
  ClientMetaDataMessage, ClientAvatarChangeMessage, PlayerIdMessage,
  serialize_client_meta_data_message, deserialize_client_meta_data_message,
  serialize_client_avatar_change_message, deserialize_client_avatar_change_message,
  serialize_player_id_message,
}

pub record AdditionalAvatarData : Type 0 where
  pub message_index : ℕ
  pub bytes : Bytes

-- What is written of the data, at most 255 bytes.
abbrev pub at_most_255 : Bytes → Bytes
at_most_255 bytes = take (min (length bytes) 255) bytes

unfoldable pub serialize_additional_avatar_data : AdditionalAvatarData → Write
serialize_additional_avatar_data m =
    let len = min (length m.bytes) 255 in
    put_u8 len ⨾ (if ltb 0 len then put_u8 m.message_index ⨾ put_bytes (take len m.bytes) else skip)

additional_body : ℕ → Read AdditionalAvatarData
additional_body len = do
  message_index ← get_u8
  bytes ← get_bytes len
  return (record { message_index = message_index; bytes = bytes })

unfoldable pub deserialize_additional_avatar_data : Read AdditionalAvatarData
unfolding additional_body
deserialize_additional_avatar_data = do
  len ← get_u8
  if len == 0 then return (record { message_index = 0; bytes = [] }) else additional_body len

pub record LocalAvatarSyncMessage : Type 0 where
  pub data_quality_level : ℕ
  pub array : Bytes
  pub additional_avatar_datas : List AdditionalAvatarData
  pub linked_avatar_index : ℕ

unfoldable pub empty_high : LocalAvatarSyncMessage
empty_high = record {
  data_quality_level = quality_byte high;
  array = replicate (payload_len high) 0;
  additional_avatar_datas = [];
  linked_avatar_index = 0;
}

-- On a channel that names the quality, and says whether there is additional data.
unfoldable pub serialize_for_channel : Bool → LocalAvatarSyncMessage → Write
serialize_for_channel has_additional_data m =
    put_bytes m.array
    ⨾ (if has_additional_data
        then put_u8 (length m.additional_avatar_datas % 2 ^ 8)
          ⨾ put_u8 m.linked_avatar_index
          ⨾ put_each serialize_additional_avatar_data m.additional_avatar_datas
        else skip)

-- The link and the additional data, unless there is none.
write_additional : ℕ → List AdditionalAvatarData → Write
write_additional linked [] = skip
write_additional linked (d ∷ ds) =
    put_u8 linked ⨾ put_each serialize_additional_avatar_data (d ∷ ds)

unfoldable pub serialize_local_avatar_sync_message : LocalAvatarSyncMessage → Write
unfolding write_additional
serialize_local_avatar_sync_message m =
    put_u8 m.data_quality_level
    ⨾ put_bytes m.array
    ⨾ put_u8 (length m.additional_avatar_datas % 2 ^ 8)
    ⨾ write_additional m.linked_avatar_index m.additional_avatar_datas

unfoldable pub sync_payload_len : ℕ → ℕ
sync_payload_len level =
    if level == 0
    then payload_len very_low
    else if level == 1
    then payload_len low
    else if level == 2
    then payload_len medium
    else payload_len high

unfoldable pub deserialize_local_avatar_sync_message : Read LocalAvatarSyncMessage
deserialize_local_avatar_sync_message = do
  level ← get_u8
  array ← get_bytes (sync_payload_len level)
  count ← get_u8
  linked ← if ltb 0 count then get_u8 else return 0
  datas ← get_times count deserialize_additional_avatar_data
  return (record {
    data_quality_level = level;
    array = array;
    additional_avatar_datas = datas;
    linked_avatar_index = linked;
  })

pub record ReadyMessage : Type 0 where
  pub player_meta_data_message : ClientMetaDataMessage
  pub client_avatar_change_message : ClientAvatarChangeMessage
  pub local_avatar_sync_message : LocalAvatarSyncMessage

unfoldable pub serialize_ready_message : ReadyMessage → Write
serialize_ready_message m =
    serialize_client_meta_data_message m.player_meta_data_message
    ⨾ serialize_client_avatar_change_message m.client_avatar_change_message
    ⨾ serialize_local_avatar_sync_message m.local_avatar_sync_message

unfoldable pub deserialize_ready_message : Read ReadyMessage
deserialize_ready_message = do
  player_meta_data_message ← deserialize_client_meta_data_message
  client_avatar_change_message ← deserialize_client_avatar_change_message
  local_avatar_sync_message ← deserialize_local_avatar_sync_message
  return (record {
    player_meta_data_message = player_meta_data_message;
    client_avatar_change_message = client_avatar_change_message;
    local_avatar_sync_message = local_avatar_sync_message;
  })

pub record ServerReadyMessage : Type 0 where
  pub local_ready_message : ReadyMessage
  pub player_id_message : PlayerIdMessage

unfoldable pub serialize_server_ready_message : ServerReadyMessage → Write
serialize_server_ready_message m =
    serialize_player_id_message m.player_id_message ⨾ serialize_ready_message m.local_ready_message

pub record ServerSideSyncPlayerMessage : Type 0 where
  pub player_id : ℕ
  pub interval : ℕ
  pub sequence : ℕ
  pub avatar_serialization : LocalAvatarSyncMessage

unfoldable pub serialize_server_side_sync_player_message : ServerSideSyncPlayerMessage → Write
serialize_server_side_sync_player_message m =
    put_u16 m.player_id
    ⨾ put_u8 m.interval
    ⨾ put_u8 m.sequence
    ⨾ serialize_local_avatar_sync_message m.avatar_serialization

unfoldable pub deserialize_server_side_sync_player_message : Read ServerSideSyncPlayerMessage
deserialize_server_side_sync_player_message = do
  player_id ← get_u16
  interval ← get_u8
  sequence ← get_u8
  avatar_serialization ← deserialize_local_avatar_sync_message
  return (record {
    player_id = player_id;
    interval = interval;
    sequence = sequence;
    avatar_serialization = avatar_serialization;
  })
