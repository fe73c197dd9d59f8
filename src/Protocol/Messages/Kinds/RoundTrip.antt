-- ===== src/Protocol/Messages/Kinds/RoundTrip.antt =====
-- Every message is read back as it was written, up to what its type leaves out, or refused if it is cut.
use basis_rust_server.Common.{ℕ, ◌^◌, ◌<◌, ◌≡◌, ◌++◌, length, take}
use basis_rust_server.Common.Words.{Bytes}
use basis_rust_server.Protocol.Io.{NetReader, ok, err, underflow, new_writer, new_reader}
use basis_rust_server.Protocol.Io.Carries.{Carries, reads_back, refuses_part}
use basis_rust_server.Protocol.Messages.Rest.{Closes, reads_to_end}
use basis_rust_server.Protocol.Messages.Kinds.{
  Framed, Message, serialize_message, deserialize_message, Closing, LastMessage,
  serialize_last_message, deserialize_last_message, bytes, player_id, client_meta_data,
  client_avatar_change, server_avatar_change, avatar_clone_request, avatar_clone_response,
  ushort_unique_id, local_load_resource, unload_resource, preload_ready, spawn_preloaded,
  ownership_transfer, server_library_item, server_library, error, data_base_request, console_data,
  avatar_load_data, p2p_signal, admin_request, content_share, content_share_cleanup,
  camera_pip_state, camera_pip_position, camera_shutter_sound, camera_countdown,
  client_camera_countdown, additional_avatar_data, local_avatar_sync, ready,
  server_side_sync_player, chat, did_challenge, did_response, audio_segment_data,
  server_audio_segment, avatar_data, remote_avatar_data, scene_data, remote_scene_data,
  server_statistic, net_id, server_net_id,
}
use basis_rust_server.Protocol.Messages.Players.Carried.{
  FitsBytesMessage, bytes_message-Carries, FitsPlayerIdMessage, player_id_message-Carries, named,
  FitsClientMetaDataMessage, client_meta_data_message-Carries, FitsClientAvatarChangeMessage,
  client_avatar_change_message-Carries, FitsServerAvatarChangeMessage,
  server_avatar_change_message-Carries, FitsBasisAvatarCloneRequest,
  basis_avatar_clone_request-Carries, FitsBasisAvatarCloneResponse,
  basis_avatar_clone_response-Carries, FitsUshortUniqueIdMessage, ushort_unique_id_message-Carries,
}
use basis_rust_server.Protocol.Messages.Objects.Carried.{
  arrived, FitsLocalLoadResource, local_load_resource-Carries, FitsUnloadResource,
  unload_resource-Carries, FitsPreloadReadyMessage, preload_ready_message-Carries,
  FitsSpawnPreloadedMessage, spawn_preloaded_message-Carries, FitsOwnershipTransferMessage,
  ownership_transfer_message-Carries, FitsServerLibraryItem, server_library_item-Carries,
  FitsServerLibraryMessage, server_library_message-Carries,
}
use basis_rust_server.Protocol.Messages.Admin.Carried.{
  FitsErrorMessage, error_message-Carries, FitsDataBaseRequest, data_base_request-Carries,
  FitsConsoleData, console_data-Carries, FitsAvatarLoadDataMessage,
  avatar_load_data_message-Carries, FitsBasisP2PSignalMessage, p2p_signal_message-Carries,
  admin_request-Carries,
}
use basis_rust_server.Protocol.Messages.Sharing.Carried.{
  FitsContentShareMessage, content_share_message-Carries, FitsContentShareCleanupMessage,
  content_share_cleanup_message-Carries,
}
use basis_rust_server.Protocol.Messages.Cameras.Carried.{
  shown, FitsCameraPipStateMessage, camera_pip_state_message-Carries, FitsCameraPipPositionMessage,
  camera_pip_position_message-Carries, FitsCameraShutterSoundMessage,
  camera_shutter_sound_message-Carries, FitsCameraCountdownMessage,
  camera_countdown_message-Carries, FitsClientCameraCountdownMessage,
  client_camera_countdown_message-Carries,
}
use basis_rust_server.Protocol.Messages.Avatars.Carried.{
  kept_data, additional_avatar_data-Carries, kept_sync, FitsLocalAvatarSyncMessage,
  local_avatar_sync_message-Carries, kept_ready, FitsReadyMessage, ready_message-Carries,
  kept_side_sync, FitsServerSideSyncPlayerMessage, server_side_sync_player_message-Carries,
}
use basis_rust_server.Protocol.Messages.Talk.Carried.{
  heard, chat_message-Carries, FitsAudioSegmentDataMessage, audio_segment_data_message-Closes,
  FitsServerAudioSegmentMessage, server_audio_segment_message-Closes, FitsAvatarDataMessage,
  avatar_data_message-Closes, FitsRemoteAvatarDataMessage, remote_avatar_data_message-Closes,
  FitsSceneDataMessage, scene_data_message-Closes, FitsRemoteSceneDataMessage,
  remote_scene_data_message-Closes, FitsServerStatisticMessage, server_statistic_message-Closes,
}
use basis_rust_server.Protocol.Did.{
  did_challenge-Carries, answered, FitsDidResponse, did_response-Carries,
}
use basis_rust_server.Protocol.Messages.Players.NetIds.{
  FitsNetIdMessage, net_id_message-Closes, FitsServerNetIdMessage, server_net_id_message-Closes,
}

-- The texts are UTF-8, and numbers, texts and lists have room in their fields.
abbrev pub Fits : (k : Framed) → Message k → Type 0
Fits bytes m = FitsBytesMessage m
Fits player_id m = FitsPlayerIdMessage m
Fits client_meta_data m = FitsClientMetaDataMessage m
Fits client_avatar_change m = FitsClientAvatarChangeMessage m
Fits server_avatar_change m = FitsServerAvatarChangeMessage m
Fits avatar_clone_request m = FitsBasisAvatarCloneRequest m
Fits avatar_clone_response m = FitsBasisAvatarCloneResponse m
Fits ushort_unique_id m = FitsUshortUniqueIdMessage m
Fits local_load_resource m = FitsLocalLoadResource m
Fits unload_resource m = FitsUnloadResource m
Fits preload_ready m = FitsPreloadReadyMessage m
Fits spawn_preloaded m = FitsSpawnPreloadedMessage m
Fits ownership_transfer m = FitsOwnershipTransferMessage m
Fits server_library_item m = FitsServerLibraryItem m
Fits server_library m = FitsServerLibraryMessage m
Fits error m = FitsErrorMessage m
Fits data_base_request m = FitsDataBaseRequest m
Fits console_data m = FitsConsoleData m
Fits avatar_load_data m = FitsAvatarLoadDataMessage m
Fits p2p_signal m = FitsBasisP2PSignalMessage m
Fits admin_request m = Unit {0}
Fits content_share m = FitsContentShareMessage m
Fits content_share_cleanup m = FitsContentShareCleanupMessage m
Fits camera_pip_state m = FitsCameraPipStateMessage m
Fits camera_pip_position m = FitsCameraPipPositionMessage m
Fits camera_shutter_sound m = FitsCameraShutterSoundMessage m
Fits camera_countdown m = FitsCameraCountdownMessage m
Fits client_camera_countdown m = FitsClientCameraCountdownMessage m
Fits additional_avatar_data m = Unit {0}
Fits local_avatar_sync m = FitsLocalAvatarSyncMessage m
Fits ready m = FitsReadyMessage m
Fits server_side_sync_player m = FitsServerSideSyncPlayerMessage m
Fits chat m = Unit {0}
Fits did_challenge m = length m.bytes < 2 ^ 16
Fits did_response m = FitsDidResponse m

-- What arrives of a message.
abbrev pub received : (k : Framed) → Message k → Message k
received bytes m = m
received player_id m = m
received client_meta_data m = named m
received client_avatar_change m = m
received server_avatar_change m = m
received avatar_clone_request m = m
received avatar_clone_response m = m
received ushort_unique_id m = m
received local_load_resource m = arrived m
received unload_resource m = m
received preload_ready m = m
received spawn_preloaded m = m
received ownership_transfer m = m
received server_library_item m = m
received server_library m = m
received error m = m
received data_base_request m = m
received console_data m = m
received avatar_load_data m = m
received p2p_signal m = m
received admin_request m = m
received content_share m = m
received content_share_cleanup m = m
received camera_pip_state m = shown m
received camera_pip_position m = m
received camera_shutter_sound m = m
received camera_countdown m = m
received client_camera_countdown m = m
received additional_avatar_data m = kept_data m
received local_avatar_sync m = kept_sync m
received ready m = kept_ready m
received server_side_sync_player m = kept_side_sync m
received chat m = heard m
received did_challenge m = m
received did_response m = answered m

message-Carries :
    (k : Framed) (m : Message k)
    → Fits k m
    → Carries (serialize_message k m) (deserialize_message k) (received k m)
unfolding serialize_message deserialize_message
message-Carries bytes m h = bytes_message-Carries m h
message-Carries player_id m h = player_id_message-Carries m h
message-Carries client_meta_data m h = client_meta_data_message-Carries m h
message-Carries client_avatar_change m h = client_avatar_change_message-Carries m h
message-Carries server_avatar_change m h = server_avatar_change_message-Carries m h
message-Carries avatar_clone_request m h = basis_avatar_clone_request-Carries m h
message-Carries avatar_clone_response m h = basis_avatar_clone_response-Carries m h
message-Carries ushort_unique_id m h = ushort_unique_id_message-Carries m h
message-Carries local_load_resource m h = local_load_resource-Carries m h
message-Carries unload_resource m h = unload_resource-Carries m h
message-Carries preload_ready m h = preload_ready_message-Carries m h
message-Carries spawn_preloaded m h = spawn_preloaded_message-Carries m h
message-Carries ownership_transfer m h = ownership_transfer_message-Carries m h
message-Carries server_library_item m h = server_library_item-Carries m h
message-Carries server_library m h = server_library_message-Carries m h
message-Carries error m h = error_message-Carries m h
message-Carries data_base_request m h = data_base_request-Carries m h
message-Carries console_data m h = console_data-Carries m h
message-Carries avatar_load_data m h = avatar_load_data_message-Carries m h
message-Carries p2p_signal m h = p2p_signal_message-Carries m h
message-Carries admin_request m h = admin_request-Carries m
message-Carries content_share m h = content_share_message-Carries m h
message-Carries content_share_cleanup m h = content_share_cleanup_message-Carries m h
message-Carries camera_pip_state m h = camera_pip_state_message-Carries m h
message-Carries camera_pip_position m h = camera_pip_position_message-Carries m h
message-Carries camera_shutter_sound m h = camera_shutter_sound_message-Carries m h
message-Carries camera_countdown m h = camera_countdown_message-Carries m h
message-Carries client_camera_countdown m h = client_camera_countdown_message-Carries m h
message-Carries additional_avatar_data m h = additional_avatar_data-Carries m
message-Carries local_avatar_sync m h = local_avatar_sync_message-Carries m h
message-Carries ready m h = ready_message-Carries m h
message-Carries server_side_sync_player m h = server_side_sync_player_message-Carries m h
message-Carries chat m h = chat_message-Carries m
message-Carries did_challenge m h = did_challenge-Carries m h
message-Carries did_response m h = did_response-Carries m h

-- A message whose parts fit their fields is read back from what was written of it, whatever bytes follow,
-- and the reader stands behind it. It arrives as it was, but for what its type does not carry: an empty name
-- of a player becomes "Failure" and an empty fragment "N/A"; a chat message is cut to 512 bytes and additional
-- data to 255; without data its index, and the link of the avatar, are zero; a resource has a placement in mode
-- 0 only and a camera has one while it is active.
pub deserialize_message-serialize_message :
    (k : Framed) (m : Message k) (tail : Bytes)
    → Fits k m
    → let written = (serialize_message k m new_writer).bytes in
      deserialize_message k (new_reader (written ++ tail))
      ≡ ok (received k m, record { bytes = written ++ tail; pos = length written })
deserialize_message-serialize_message k m tail h =
    reads_back (serialize_message k m) (deserialize_message k) tail (message-Carries k m h)

-- If a packet ends before such a message does, reading it fails, and the error says that bytes are missing.
pub deserialize_message-part :
    (k : Framed) (m : Message k) (n : ℕ)
    → Fits k m
    → n < length (serialize_message k m new_writer).bytes
    → (needed left : ℕ) × (deserialize_message k
          (new_reader (take n (serialize_message k m new_writer).bytes))
        ≡ err (underflow needed left))
deserialize_message-part k m n h =
    refuses_part (serialize_message k m) (deserialize_message k) n (message-Carries k m h)

abbrev pub FitsLast : (k : Closing) → LastMessage k → Type 0
FitsLast audio_segment_data m = FitsAudioSegmentDataMessage m
FitsLast server_audio_segment m = FitsServerAudioSegmentMessage m
FitsLast avatar_data m = FitsAvatarDataMessage m
FitsLast remote_avatar_data m = FitsRemoteAvatarDataMessage m
FitsLast scene_data m = FitsSceneDataMessage m
FitsLast remote_scene_data m = FitsRemoteSceneDataMessage m
FitsLast server_statistic m = FitsServerStatisticMessage m
FitsLast net_id m = FitsNetIdMessage m
FitsLast server_net_id m = FitsServerNetIdMessage m

last_message-Closes :
    (k : Closing) (m : LastMessage k)
    → FitsLast k m
    → Closes (serialize_last_message k m) (deserialize_last_message k) m
unfolding serialize_last_message deserialize_last_message
last_message-Closes audio_segment_data m h = audio_segment_data_message-Closes m h
last_message-Closes server_audio_segment m h = server_audio_segment_message-Closes m h
last_message-Closes avatar_data m h = avatar_data_message-Closes m h
last_message-Closes remote_avatar_data m h = remote_avatar_data_message-Closes m h
last_message-Closes scene_data m h = scene_data_message-Closes m h
last_message-Closes remote_scene_data m h = remote_scene_data_message-Closes m h
last_message-Closes server_statistic m h = server_statistic_message-Closes m h
last_message-Closes net_id m h = net_id_message-Closes m h
last_message-Closes server_net_id m h = server_net_id_message-Closes m h

-- A message that takes up the rest of its packet is read back as it was, if its numbers and lists have
-- room in their fields, and if a name that an id belongs to is not empty.
pub deserialize_last_message-serialize_last_message :
    (k : Closing) (m : LastMessage k)
    → FitsLast k m
    → (r : NetReader) × (deserialize_last_message k
          (new_reader (serialize_last_message k m new_writer).bytes)
        ≡ ok (m, r))
deserialize_last_message-serialize_last_message k m h =
    reads_to_end (serialize_last_message k m) (deserialize_last_message k)
      (last_message-Closes k m h)
