-- ===== src/Protocol/Messages/Players/Carried.antt =====
-- What the messages of Protocol/Messages/Players carry.
use basis_rust_server.Common.{◌%◌, ◌^◌, ◌<◌, refl, [], ◌∷◌, length, arith}
use basis_rust_server.Common.Words.{Bytes}
use basis_rust_server.Common.Utf8.{is_utf8}
use basis_rust_server.Protocol.Io.Carries.{Carries, bind-Carries, map-Carries}
use basis_rust_server.Protocol.Io.Carries.Words.{
  u8-Carries, u16-Carries, bytes-Carries, string-Carries, IsText,
}
use basis_rust_server.Protocol.Messages.Players.{
  BytesMessage, serialize_bytes_message, deserialize_bytes_message, PlayerIdMessage,
  serialize_player_id_message, deserialize_player_id_message, ClientMetaDataMessage,
  non_empty_or_failure, serialize_client_meta_data_message, deserialize_client_meta_data_message,
  ClientAvatarChangeMessage, serialize_client_avatar_change_message,
  deserialize_client_avatar_change_message, ServerAvatarChangeMessage,
  serialize_server_avatar_change_message, deserialize_server_avatar_change_message,
  BasisAvatarCloneRequest, serialize_basis_avatar_clone_request,
  deserialize_basis_avatar_clone_request, BasisAvatarCloneResponse,
  serialize_basis_avatar_clone_response, deserialize_basis_avatar_clone_response,
  UshortUniqueIdMessage, serialize_ushort_unique_id_message, deserialize_ushort_unique_id_message,
}

abbrev pub FitsBytesMessage : BytesMessage → Type 0
FitsBytesMessage m = length m.bytes < 2 ^ 16

pub bytes_message-Carries :
    (m : BytesMessage)
    → FitsBytesMessage m
    → Carries (serialize_bytes_message m) deserialize_bytes_message m
unfolding serialize_bytes_message deserialize_bytes_message
bytes_message-Carries m h =
    bind-Carries _ (u16-Carries (length m.bytes % 2 ^ 16) (omega arith))
      (map-Carries _ (bytes-Carries (length m.bytes % 2 ^ 16) m.bytes (omega (arith, h))) refl)

abbrev pub FitsPlayerIdMessage : PlayerIdMessage → Type 0
FitsPlayerIdMessage m = m.player_id < 2 ^ 16

pub player_id_message-Carries :
    (m : PlayerIdMessage)
    → FitsPlayerIdMessage m
    → Carries (serialize_player_id_message m) deserialize_player_id_message m
unfolding serialize_player_id_message deserialize_player_id_message
player_id_message-Carries m h = map-Carries _ (u16-Carries m.player_id h) refl

abbrev pub FitsClientMetaDataMessage : ClientMetaDataMessage → Type 0
FitsClientMetaDataMessage m =
    IsText m.player_uuid × IsText m.player_display_name × IsText m.player_platform

-- An empty text arrives as "Failure".
abbrev pub named : ClientMetaDataMessage → ClientMetaDataMessage
named m = record {
  player_uuid = non_empty_or_failure m.player_uuid;
  player_display_name = non_empty_or_failure m.player_display_name;
  player_platform = non_empty_or_failure m.player_platform;
}

non_empty_or_failure-IsText : (s : Bytes) → IsText s → IsText (non_empty_or_failure s)
unfolding non_empty_or_failure is_utf8
non_empty_or_failure-IsText [] h = (refl, omega arith)
non_empty_or_failure-IsText (c ∷ cs) h = h

pub client_meta_data_message-Carries :
    (m : ClientMetaDataMessage)
    → FitsClientMetaDataMessage m
    → Carries (serialize_client_meta_data_message m) deserialize_client_meta_data_message (named m)
unfolding serialize_client_meta_data_message deserialize_client_meta_data_message
client_meta_data_message-Carries m h =
    bind-Carries _ (string-Carries _ (non_empty_or_failure-IsText m.player_uuid h.0)) (
      bind-Carries _ (string-Carries _ (non_empty_or_failure-IsText m.player_display_name h.1))
        (map-Carries _ (string-Carries _ (non_empty_or_failure-IsText m.player_platform h.2)) refl))

abbrev pub FitsClientAvatarChangeMessage : ClientAvatarChangeMessage → Type 0
FitsClientAvatarChangeMessage m = length m.byte_array < 2 ^ 16

pub client_avatar_change_message-Carries :
    (m : ClientAvatarChangeMessage)
    → FitsClientAvatarChangeMessage m
    → Carries (serialize_client_avatar_change_message m) deserialize_client_avatar_change_message m
unfolding serialize_client_avatar_change_message deserialize_client_avatar_change_message
client_avatar_change_message-Carries m h = bind-Carries _ (u8-Carries m.load_mode) (
    bind-Carries _ (u16-Carries (length m.byte_array % 2 ^ 16) (omega arith)) (
      bind-Carries _ (bytes-Carries (length m.byte_array % 2 ^ 16) m.byte_array (omega (arith, h)))
        (map-Carries _ (u8-Carries m.local_avatar_index) refl)))

abbrev pub FitsServerAvatarChangeMessage : ServerAvatarChangeMessage → Type 0
FitsServerAvatarChangeMessage m =
    (m.player_id < 2 ^ 16) × FitsClientAvatarChangeMessage m.client_avatar_change_message

pub server_avatar_change_message-Carries :
    (m : ServerAvatarChangeMessage)
    → FitsServerAvatarChangeMessage m
    → Carries (serialize_server_avatar_change_message m) deserialize_server_avatar_change_message m
unfolding serialize_server_avatar_change_message deserialize_server_avatar_change_message
server_avatar_change_message-Carries m h =
    bind-Carries _ (u16-Carries m.player_id h.0)
      (map-Carries _ (client_avatar_change_message-Carries m.client_avatar_change_message h.1) refl)

abbrev pub FitsBasisAvatarCloneRequest : BasisAvatarCloneRequest → Type 0
FitsBasisAvatarCloneRequest m = m.requesting_user < 2 ^ 16

pub basis_avatar_clone_request-Carries :
    (m : BasisAvatarCloneRequest)
    → FitsBasisAvatarCloneRequest m
    → Carries (serialize_basis_avatar_clone_request m) deserialize_basis_avatar_clone_request m
unfolding serialize_basis_avatar_clone_request deserialize_basis_avatar_clone_request
basis_avatar_clone_request-Carries m h = map-Carries _ (u16-Carries m.requesting_user h) refl

abbrev pub FitsBasisAvatarCloneResponse : BasisAvatarCloneResponse → Type 0
FitsBasisAvatarCloneResponse m = m.requesting_user < 2 ^ 16

pub basis_avatar_clone_response-Carries :
    (m : BasisAvatarCloneResponse)
    → FitsBasisAvatarCloneResponse m
    → Carries (serialize_basis_avatar_clone_response m) deserialize_basis_avatar_clone_response m
unfolding serialize_basis_avatar_clone_response deserialize_basis_avatar_clone_response
basis_avatar_clone_response-Carries m h = map-Carries _ (u16-Carries m.requesting_user h) refl

abbrev pub FitsUshortUniqueIdMessage : UshortUniqueIdMessage → Type 0
FitsUshortUniqueIdMessage m = m.unique_id_ushort < 2 ^ 16

pub ushort_unique_id_message-Carries :
    (m : UshortUniqueIdMessage)
    → FitsUshortUniqueIdMessage m
    → Carries (serialize_ushort_unique_id_message m) deserialize_ushort_unique_id_message m
unfolding serialize_ushort_unique_id_message deserialize_ushort_unique_id_message
ushort_unique_id_message-Carries m h = map-Carries _ (u16-Carries m.unique_id_ushort h) refl
