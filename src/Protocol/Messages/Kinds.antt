-- ===== src/Protocol/Messages/Kinds.antt =====
-- What `BasisSerialize` and `BasisDeserialize` are implemented for: the messages that can be followed by
-- other fields, and those that reach to the end of a packet.
pub mod RoundTrip
use basis_rust_server.Protocol.Io.{Read}
use basis_rust_server.Protocol.Io.Carries.{Write}
use basis_rust_server.Protocol.Messages.Players.{
  BytesMessage, serialize_bytes_message, deserialize_bytes_message, PlayerIdMessage,
  serialize_player_id_message, deserialize_player_id_message, ClientMetaDataMessage,
  serialize_client_meta_data_message, deserialize_client_meta_data_message,
  ClientAvatarChangeMessage, serialize_client_avatar_change_message,
  deserialize_client_avatar_change_message, ServerAvatarChangeMessage,
  serialize_server_avatar_change_message, deserialize_server_avatar_change_message,
  BasisAvatarCloneRequest, serialize_basis_avatar_clone_request,
  deserialize_basis_avatar_clone_request, BasisAvatarCloneResponse,
  serialize_basis_avatar_clone_response, deserialize_basis_avatar_clone_response,
  UshortUniqueIdMessage, serialize_ushort_unique_id_message, deserialize_ushort_unique_id_message,
  NetIdMessage, serialize_net_id_message, deserialize_net_id_message, ServerNetIdMessage,
  serialize_server_net_id_message, deserialize_server_net_id_message,
}
use basis_rust_server.Protocol.Messages.Objects.{
  LocalLoadResource, serialize_local_load_resource, deserialize_local_load_resource, UnloadResource,
  serialize_unload_resource, deserialize_unload_resource, PreloadReadyMessage,
  serialize_preload_ready_message, deserialize_preload_ready_message, SpawnPreloadedMessage,
  serialize_spawn_preloaded_message, deserialize_spawn_preloaded_message, OwnershipTransferMessage,
  serialize_ownership_transfer_message, deserialize_ownership_transfer_message, ServerLibraryItem,
  serialize_server_library_item, deserialize_server_library_item, ServerLibraryMessage,
  serialize_server_library_message, deserialize_server_library_message,
}
use basis_rust_server.Protocol.Messages.Admin.{
  ErrorMessage, serialize_error_message, deserialize_error_message, DataBaseRequest,
  serialize_data_base_request, deserialize_data_base_request, ConsoleData, serialize_console_data,
  deserialize_console_data, AvatarLoadDataMessage, serialize_avatar_load_data_message,
  deserialize_avatar_load_data_message, BasisP2PSignalMessage, serialize_p2p_signal_message,
  deserialize_p2p_signal_message, AdminRequest, serialize_admin_request, deserialize_admin_request,
}
use basis_rust_server.Protocol.Messages.Sharing.{
  ContentShareMessage, serialize_content_share_message, deserialize_content_share_message,
  ContentShareCleanupMessage, serialize_content_share_cleanup_message,
  deserialize_content_share_cleanup_message,
}
use basis_rust_server.Protocol.Messages.Cameras.{
  CameraPipStateMessage, serialize_camera_pip_state_message, deserialize_camera_pip_state_message,
  CameraPipPositionMessage, serialize_camera_pip_position_message,
  deserialize_camera_pip_position_message, CameraShutterSoundMessage,
  serialize_camera_shutter_sound_message, deserialize_camera_shutter_sound_message,
  CameraCountdownMessage, serialize_camera_countdown_message, deserialize_camera_countdown_message,
  ClientCameraCountdownMessage, serialize_client_camera_countdown_message,
  deserialize_client_camera_countdown_message,
}
use basis_rust_server.Protocol.Messages.Avatars.{
  AdditionalAvatarData, serialize_additional_avatar_data, deserialize_additional_avatar_data,
  LocalAvatarSyncMessage, serialize_local_avatar_sync_message,
  deserialize_local_avatar_sync_message, ReadyMessage, serialize_ready_message,
  deserialize_ready_message, ServerSideSyncPlayerMessage, serialize_server_side_sync_player_message,
  deserialize_server_side_sync_player_message,
}
use basis_rust_server.Protocol.Messages.Talk.{
  ChatMessage, serialize_chat_message, deserialize_chat_message, AudioSegmentDataMessage,
  serialize_audio_segment_data_message, deserialize_audio_segment_data_message,
  ServerAudioSegmentMessage, serialize_server_audio_segment_message,
  deserialize_server_audio_segment_message, AvatarDataMessage, serialize_avatar_data_message,
  deserialize_avatar_data_message, RemoteAvatarDataMessage, serialize_remote_avatar_data_message,
  deserialize_remote_avatar_data_message, SceneDataMessage, serialize_scene_data_message,
  deserialize_scene_data_message, RemoteSceneDataMessage, serialize_remote_scene_data_message,
  deserialize_remote_scene_data_message, ServerStatisticMessage, serialize_server_statistic_message,
  deserialize_server_statistic_message,
}
use basis_rust_server.Protocol.Did.{
  DidChallenge, serialize_did_challenge, deserialize_did_challenge, DidResponse,
  serialize_did_response, deserialize_did_response,
}

pub data Framed : Type 0 where
  bytes player_id client_meta_data client_avatar_change server_avatar_change avatar_clone_request
        avatar_clone_response ushort_unique_id local_load_resource unload_resource preload_ready
        spawn_preloaded ownership_transfer server_library_item server_library error
        data_base_request console_data avatar_load_data p2p_signal admin_request content_share
        content_share_cleanup camera_pip_state camera_pip_position camera_shutter_sound
        camera_countdown client_camera_countdown additional_avatar_data local_avatar_sync ready
        server_side_sync_player chat did_challenge did_response :
      Framed

abbrev pub Message : Framed → Type 0
Message bytes = BytesMessage
Message player_id = PlayerIdMessage
Message client_meta_data = ClientMetaDataMessage
Message client_avatar_change = ClientAvatarChangeMessage
Message server_avatar_change = ServerAvatarChangeMessage
Message avatar_clone_request = BasisAvatarCloneRequest
Message avatar_clone_response = BasisAvatarCloneResponse
Message ushort_unique_id = UshortUniqueIdMessage
Message local_load_resource = LocalLoadResource
Message unload_resource = UnloadResource
Message preload_ready = PreloadReadyMessage
Message spawn_preloaded = SpawnPreloadedMessage
Message ownership_transfer = OwnershipTransferMessage
Message server_library_item = ServerLibraryItem
Message server_library = ServerLibraryMessage
Message error = ErrorMessage
Message data_base_request = DataBaseRequest
Message console_data = ConsoleData
Message avatar_load_data = AvatarLoadDataMessage
Message p2p_signal = BasisP2PSignalMessage
Message admin_request = AdminRequest
Message content_share = ContentShareMessage
Message content_share_cleanup = ContentShareCleanupMessage
Message camera_pip_state = CameraPipStateMessage
Message camera_pip_position = CameraPipPositionMessage
Message camera_shutter_sound = CameraShutterSoundMessage
Message camera_countdown = CameraCountdownMessage
Message client_camera_countdown = ClientCameraCountdownMessage
Message additional_avatar_data = AdditionalAvatarData
Message local_avatar_sync = LocalAvatarSyncMessage
Message ready = ReadyMessage
Message server_side_sync_player = ServerSideSyncPlayerMessage
Message chat = ChatMessage
Message did_challenge = DidChallenge
Message did_response = DidResponse

unfoldable pub serialize_message : (k : Framed) → Message k → Write
serialize_message bytes = serialize_bytes_message
serialize_message player_id = serialize_player_id_message
serialize_message client_meta_data = serialize_client_meta_data_message
serialize_message client_avatar_change = serialize_client_avatar_change_message
serialize_message server_avatar_change = serialize_server_avatar_change_message
serialize_message avatar_clone_request = serialize_basis_avatar_clone_request
serialize_message avatar_clone_response = serialize_basis_avatar_clone_response
serialize_message ushort_unique_id = serialize_ushort_unique_id_message
serialize_message local_load_resource = serialize_local_load_resource
serialize_message unload_resource = serialize_unload_resource
serialize_message preload_ready = serialize_preload_ready_message
serialize_message spawn_preloaded = serialize_spawn_preloaded_message
serialize_message ownership_transfer = serialize_ownership_transfer_message
serialize_message server_library_item = serialize_server_library_item
serialize_message server_library = serialize_server_library_message
serialize_message error = serialize_error_message
serialize_message data_base_request = serialize_data_base_request
serialize_message console_data = serialize_console_data
serialize_message avatar_load_data = serialize_avatar_load_data_message
serialize_message p2p_signal = serialize_p2p_signal_message
serialize_message admin_request = serialize_admin_request
serialize_message content_share = serialize_content_share_message
serialize_message content_share_cleanup = serialize_content_share_cleanup_message
serialize_message camera_pip_state = serialize_camera_pip_state_message
serialize_message camera_pip_position = serialize_camera_pip_position_message
serialize_message camera_shutter_sound = serialize_camera_shutter_sound_message
serialize_message camera_countdown = serialize_camera_countdown_message
serialize_message client_camera_countdown = serialize_client_camera_countdown_message
serialize_message additional_avatar_data = serialize_additional_avatar_data
serialize_message local_avatar_sync = serialize_local_avatar_sync_message
serialize_message ready = serialize_ready_message
serialize_message server_side_sync_player = serialize_server_side_sync_player_message
serialize_message chat = serialize_chat_message
serialize_message did_challenge = serialize_did_challenge
serialize_message did_response = serialize_did_response

unfoldable pub deserialize_message : (k : Framed) → Read (Message k)
deserialize_message bytes = deserialize_bytes_message
deserialize_message player_id = deserialize_player_id_message
deserialize_message client_meta_data = deserialize_client_meta_data_message
deserialize_message client_avatar_change = deserialize_client_avatar_change_message
deserialize_message server_avatar_change = deserialize_server_avatar_change_message
deserialize_message avatar_clone_request = deserialize_basis_avatar_clone_request
deserialize_message avatar_clone_response = deserialize_basis_avatar_clone_response
deserialize_message ushort_unique_id = deserialize_ushort_unique_id_message
deserialize_message local_load_resource = deserialize_local_load_resource
deserialize_message unload_resource = deserialize_unload_resource
deserialize_message preload_ready = deserialize_preload_ready_message
deserialize_message spawn_preloaded = deserialize_spawn_preloaded_message
deserialize_message ownership_transfer = deserialize_ownership_transfer_message
deserialize_message server_library_item = deserialize_server_library_item
deserialize_message server_library = deserialize_server_library_message
deserialize_message error = deserialize_error_message
deserialize_message data_base_request = deserialize_data_base_request
deserialize_message console_data = deserialize_console_data
deserialize_message avatar_load_data = deserialize_avatar_load_data_message
deserialize_message p2p_signal = deserialize_p2p_signal_message
deserialize_message admin_request = deserialize_admin_request
deserialize_message content_share = deserialize_content_share_message
deserialize_message content_share_cleanup = deserialize_content_share_cleanup_message
deserialize_message camera_pip_state = deserialize_camera_pip_state_message
deserialize_message camera_pip_position = deserialize_camera_pip_position_message
deserialize_message camera_shutter_sound = deserialize_camera_shutter_sound_message
deserialize_message camera_countdown = deserialize_camera_countdown_message
deserialize_message client_camera_countdown = deserialize_client_camera_countdown_message
deserialize_message additional_avatar_data = deserialize_additional_avatar_data
deserialize_message local_avatar_sync = deserialize_local_avatar_sync_message
deserialize_message ready = deserialize_ready_message
deserialize_message server_side_sync_player = deserialize_server_side_sync_player_message
deserialize_message chat = deserialize_chat_message
deserialize_message did_challenge = deserialize_did_challenge
deserialize_message did_response = deserialize_did_response

pub data Closing : Type 0 where
  audio_segment_data server_audio_segment avatar_data remote_avatar_data scene_data
        remote_scene_data server_statistic net_id server_net_id :
      Closing

abbrev pub LastMessage : Closing → Type 0
LastMessage audio_segment_data = AudioSegmentDataMessage
LastMessage server_audio_segment = ServerAudioSegmentMessage
LastMessage avatar_data = AvatarDataMessage
LastMessage remote_avatar_data = RemoteAvatarDataMessage
LastMessage scene_data = SceneDataMessage
LastMessage remote_scene_data = RemoteSceneDataMessage
LastMessage server_statistic = ServerStatisticMessage
LastMessage net_id = NetIdMessage
LastMessage server_net_id = ServerNetIdMessage

unfoldable pub serialize_last_message : (k : Closing) → LastMessage k → Write
serialize_last_message audio_segment_data = serialize_audio_segment_data_message
serialize_last_message server_audio_segment = serialize_server_audio_segment_message
serialize_last_message avatar_data = serialize_avatar_data_message
serialize_last_message remote_avatar_data = serialize_remote_avatar_data_message
serialize_last_message scene_data = serialize_scene_data_message
serialize_last_message remote_scene_data = serialize_remote_scene_data_message
serialize_last_message server_statistic = serialize_server_statistic_message
serialize_last_message net_id = serialize_net_id_message
serialize_last_message server_net_id = serialize_server_net_id_message

unfoldable pub deserialize_last_message : (k : Closing) → Read (LastMessage k)
deserialize_last_message audio_segment_data = deserialize_audio_segment_data_message
deserialize_last_message server_audio_segment = deserialize_server_audio_segment_message
deserialize_last_message avatar_data = deserialize_avatar_data_message
deserialize_last_message remote_avatar_data = deserialize_remote_avatar_data_message
deserialize_last_message scene_data = deserialize_scene_data_message
deserialize_last_message remote_scene_data = deserialize_remote_scene_data_message
deserialize_last_message server_statistic = deserialize_server_statistic_message
deserialize_last_message net_id = deserialize_net_id_message
deserialize_last_message server_net_id = deserialize_server_net_id_message
