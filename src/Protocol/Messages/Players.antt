-- ===== src/Protocol/Messages/Players.antt =====
-- Messages about players and the ids of players and names: BasisRustServer/crates/basis-protocol/src/messages.rs.
pub mod Carried
pub mod NetIds
use basis_rust_server.Common.{ℕ, ◌%◌, ◌^◌, List, [], ◌∷◌, length, if◌then◌else◌, ◌==◌}
use basis_rust_server.Common.Words.{Bytes}
use basis_rust_server.Protocol.Io.{
  ok, Read, ◌>>=◌, return, remaining, put_u8, put_u16, put_bytes, put_string, get_u8, get_u16,
  get_bytes, get_string,
}
use basis_rust_server.Protocol.Io.Carries.{Write, ◌⨾◌, skip, put_each}

pub record BytesMessage : Type 0 where
  pub bytes : Bytes

unfoldable pub serialize_bytes_message : BytesMessage → Write
serialize_bytes_message m = put_u16 (length m.bytes % 2 ^ 16) ⨾ put_bytes m.bytes

unfoldable pub deserialize_bytes_message : Read BytesMessage
deserialize_bytes_message = do
  len ← get_u16
  bytes ← get_bytes len
  return (record { bytes = bytes })

pub record PlayerIdMessage : Type 0 where
  pub player_id : ℕ

unfoldable pub serialize_player_id_message : PlayerIdMessage → Write
serialize_player_id_message m = put_u16 m.player_id

unfoldable pub deserialize_player_id_message : Read PlayerIdMessage
deserialize_player_id_message = do player_id ← get_u16; return (record { player_id = player_id })

pub record ClientMetaDataMessage : Type 0 where
  pub player_uuid : Bytes
  pub player_display_name : Bytes
  pub player_platform : Bytes

-- "Failure".
abbrev pub failure : Bytes
failure = 0x46 ∷ 0x61 ∷ 0x69 ∷ 0x6c ∷ 0x75 ∷ 0x72 ∷ 0x65 ∷ []

unfoldable pub non_empty_or_failure : Bytes → Bytes
non_empty_or_failure [] = failure
non_empty_or_failure (c ∷ cs) = c ∷ cs

unfoldable pub serialize_client_meta_data_message : ClientMetaDataMessage → Write
serialize_client_meta_data_message m =
    put_string (non_empty_or_failure m.player_uuid)
    ⨾ put_string (non_empty_or_failure m.player_display_name)
    ⨾ put_string (non_empty_or_failure m.player_platform)

unfoldable pub deserialize_client_meta_data_message : Read ClientMetaDataMessage
deserialize_client_meta_data_message = do
  player_uuid ← get_string
  player_display_name ← get_string
  player_platform ← get_string
  return (record {
    player_uuid = player_uuid;
    player_display_name = player_display_name;
    player_platform = player_platform;
  })

pub record ClientAvatarChangeMessage : Type 0 where
  pub load_mode : ℕ
  pub byte_array : Bytes
  pub local_avatar_index : ℕ

unfoldable pub serialize_client_avatar_change_message : ClientAvatarChangeMessage → Write
serialize_client_avatar_change_message m =
    put_u8 m.load_mode
    ⨾ put_u16 (length m.byte_array % 2 ^ 16)
    ⨾ put_bytes m.byte_array
    ⨾ put_u8 m.local_avatar_index

unfoldable pub deserialize_client_avatar_change_message : Read ClientAvatarChangeMessage
deserialize_client_avatar_change_message = do
  load_mode ← get_u8
  len ← get_u16
  byte_array ← get_bytes len
  local_avatar_index ← get_u8
  return (record {
    load_mode = load_mode;
    byte_array = byte_array;
    local_avatar_index = local_avatar_index;
  })

pub record ServerAvatarChangeMessage : Type 0 where
  pub player_id : ℕ
  pub client_avatar_change_message : ClientAvatarChangeMessage

unfoldable pub serialize_server_avatar_change_message : ServerAvatarChangeMessage → Write
serialize_server_avatar_change_message m =
    put_u16 m.player_id ⨾ serialize_client_avatar_change_message m.client_avatar_change_message

unfoldable pub deserialize_server_avatar_change_message : Read ServerAvatarChangeMessage
deserialize_server_avatar_change_message = do
  player_id ← get_u16
  client_avatar_change_message ← deserialize_client_avatar_change_message
  return (record {
    player_id = player_id;
    client_avatar_change_message = client_avatar_change_message;
  })

pub record BasisAvatarCloneRequest : Type 0 where
  pub requesting_user : ℕ

unfoldable pub serialize_basis_avatar_clone_request : BasisAvatarCloneRequest → Write
serialize_basis_avatar_clone_request m = put_u16 m.requesting_user

unfoldable pub deserialize_basis_avatar_clone_request : Read BasisAvatarCloneRequest
deserialize_basis_avatar_clone_request = do
  requesting_user ← get_u16
  return (record { requesting_user = requesting_user })

pub record BasisAvatarCloneResponse : Type 0 where
  pub requesting_user : ℕ

unfoldable pub serialize_basis_avatar_clone_response : BasisAvatarCloneResponse → Write
serialize_basis_avatar_clone_response m = put_u16 m.requesting_user

unfoldable pub deserialize_basis_avatar_clone_response : Read BasisAvatarCloneResponse
deserialize_basis_avatar_clone_response = do
  requesting_user ← get_u16
  return (record { requesting_user = requesting_user })

pub record UshortUniqueIdMessage : Type 0 where
  pub unique_id_ushort : ℕ

unfoldable pub serialize_ushort_unique_id_message : UshortUniqueIdMessage → Write
serialize_ushort_unique_id_message m = put_u16 m.unique_id_ushort

unfoldable pub deserialize_ushort_unique_id_message : Read UshortUniqueIdMessage
deserialize_ushort_unique_id_message = do
  unique_id_ushort ← get_u16
  return (record { unique_id_ushort = unique_id_ushort })

pub record NetIdMessage : Type 0 where
  pub player_id : Bytes

write_net_id : Bytes → Write
write_net_id [] = skip
write_net_id (c ∷ cs) = put_string (c ∷ cs)

unfoldable pub serialize_net_id_message : NetIdMessage → Write
unfolding write_net_id
serialize_net_id_message m = write_net_id m.player_id

read_net_id : Read NetIdMessage
read_net_id = do player_id ← get_string; return (record { player_id = player_id })

unfoldable pub deserialize_net_id_message : Read NetIdMessage
unfolding read_net_id
deserialize_net_id_message r =
    if remaining r == 0 then ok (record { player_id = [] }, r) else read_net_id r

pub record ServerNetIdMessage : Type 0 where
  pub net_id_message : NetIdMessage
  pub ushort_unique_id_message : UshortUniqueIdMessage

unfoldable pub serialize_server_net_id_message : ServerNetIdMessage → Write
serialize_server_net_id_message m =
    serialize_net_id_message m.net_id_message
    ⨾ serialize_ushort_unique_id_message m.ushort_unique_id_message

unfoldable pub deserialize_server_net_id_message : Read ServerNetIdMessage
deserialize_server_net_id_message = do
  net_id_message ← deserialize_net_id_message
  ushort_unique_id_message ← deserialize_ushort_unique_id_message
  return (record {
    net_id_message = net_id_message;
    ushort_unique_id_message = ushort_unique_id_message;
  })

pub record ServerUniqueIdMessages : Type 0 where
  pub messages : List ServerNetIdMessage

unfoldable pub serialize_server_unique_id_messages : ServerUniqueIdMessages → Write
serialize_server_unique_id_messages m =
    put_u16 (length m.messages % 2 ^ 16) ⨾ put_each serialize_server_net_id_message m.messages
