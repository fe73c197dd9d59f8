-- ===== src/Protocol/Messages/Admin/Carried.antt =====
-- What the messages of Protocol/Messages/Admin carry.
use basis_rust_server.Common.{◌%◌, ◌^◌, ◌<◌, ◌≡◌, refl, ap, length, arith}
use basis_rust_server.Protocol.Io.Carries.{Carries, bind-Carries, map-Carries}
use basis_rust_server.Protocol.Io.Carries.Words.{
  u8-Carries, u16-Carries, bytes-Carries, string-Carries, IsText,
}
use basis_rust_server.Protocol.Messages.Admin.{
  ErrorMessage, serialize_error_message, deserialize_error_message, DataBaseRequest,
  serialize_data_base_request, deserialize_data_base_request, ConsoleData, serialize_console_data,
  deserialize_console_data, AvatarLoadDataMessage, serialize_avatar_load_data_message,
  deserialize_avatar_load_data_message, BasisP2PSignalMessage, serialize_p2p_signal_message,
  deserialize_p2p_signal_message, AdminRequestMode, AdminRequest, mode_byte, mode_from,
  serialize_admin_request, deserialize_admin_request, ban, kick, ip_and_ban, message, message_all,
  un_ban_ip, un_ban, teleport_all, teleport_player, get_permissions, set_user_group, set_user_node,
  set_group_node, create_group, delete_group, set_group_parent, enable_shout_mode,
  disable_shout_mode, global_toggle_avatars, global_toggle_props, global_toggle_worlds,
  global_get_lock_state, global_get_headless_audio_state, set_global_headless_audio,
  global_get_headless_disallow_state, set_global_headless_disallow, set_global_opus_packet_loss,
  global_get_opus_packet_loss_state, set_user_opus_bitrate, user_opus_bitrate_override,
  set_global_opus_frame_duration, global_get_opus_frame_duration_state, set_server_name,
  set_server_motd, set_whitelist_mode, add_whitelist, remove_whitelist, global_toggle_servers,
  global_toggle_third_person, add_default_library_item, remove_default_library_item,
  global_toggle_additional_avatar_data_lock,
}

abbrev pub FitsErrorMessage : ErrorMessage → Type 0
FitsErrorMessage m = IsText m.message

pub error_message-Carries :
    (m : ErrorMessage)
    → FitsErrorMessage m
    → Carries (serialize_error_message m) deserialize_error_message m
unfolding serialize_error_message deserialize_error_message
error_message-Carries m h = map-Carries _ (string-Carries m.message h) refl

abbrev pub FitsDataBaseRequest : DataBaseRequest → Type 0
FitsDataBaseRequest m = IsText m.database_id

pub data_base_request-Carries :
    (m : DataBaseRequest)
    → FitsDataBaseRequest m
    → Carries (serialize_data_base_request m) deserialize_data_base_request m
unfolding serialize_data_base_request deserialize_data_base_request
data_base_request-Carries m h = map-Carries _ (string-Carries m.database_id h) refl

abbrev pub FitsConsoleData : ConsoleData → Type 0
FitsConsoleData m = length m.array < 2 ^ 16

pub console_data-Carries :
    (m : ConsoleData)
    → FitsConsoleData m
    → Carries (serialize_console_data m) deserialize_console_data m
unfolding serialize_console_data deserialize_console_data
console_data-Carries m h = bind-Carries _ (u8-Carries m.message_index) (
    bind-Carries _ (u16-Carries (length m.array % 2 ^ 16) (omega arith))
      (map-Carries _ (bytes-Carries (length m.array % 2 ^ 16) m.array (omega (arith, h))) refl))

abbrev pub FitsAvatarLoadDataMessage : AvatarLoadDataMessage → Type 0
FitsAvatarLoadDataMessage m = (m.who_sent_us_this < 2 ^ 16) × (length m.payload < 2 ^ 16)

pub avatar_load_data_message-Carries :
    (m : AvatarLoadDataMessage)
    → FitsAvatarLoadDataMessage m
    → Carries (serialize_avatar_load_data_message m) deserialize_avatar_load_data_message m
unfolding serialize_avatar_load_data_message deserialize_avatar_load_data_message
avatar_load_data_message-Carries m h = bind-Carries _ (u8-Carries m.message_index) (
    bind-Carries _ (u16-Carries m.who_sent_us_this h.0) (
      bind-Carries _ (u16-Carries (length m.payload % 2 ^ 16) (omega arith)) (
        map-Carries _ (bytes-Carries (length m.payload % 2 ^ 16) m.payload (omega (arith, h.1)))
          refl)))

abbrev pub FitsBasisP2PSignalMessage : BasisP2PSignalMessage → Type 0
FitsBasisP2PSignalMessage m = (m.other_player_id < 2 ^ 16) × IsText m.session_token

pub p2p_signal_message-Carries :
    (m : BasisP2PSignalMessage)
    → FitsBasisP2PSignalMessage m
    → Carries (serialize_p2p_signal_message m) deserialize_p2p_signal_message m
unfolding serialize_p2p_signal_message deserialize_p2p_signal_message
p2p_signal_message-Carries m h =
    bind-Carries _ (u16-Carries m.other_player_id h.0)
      (map-Carries _ (string-Carries m.session_token h.1) refl)

mode_from-mode_byte : (m : AdminRequestMode) → mode_from (mode_byte m) ≡ m
unfolding mode_from mode_byte
mode_from-mode_byte ban = refl
mode_from-mode_byte kick = refl
mode_from-mode_byte ip_and_ban = refl
mode_from-mode_byte message = refl
mode_from-mode_byte message_all = refl
mode_from-mode_byte un_ban_ip = refl
mode_from-mode_byte un_ban = refl
mode_from-mode_byte teleport_all = refl
mode_from-mode_byte teleport_player = refl
mode_from-mode_byte get_permissions = refl
mode_from-mode_byte set_user_group = refl
mode_from-mode_byte set_user_node = refl
mode_from-mode_byte set_group_node = refl
mode_from-mode_byte create_group = refl
mode_from-mode_byte delete_group = refl
mode_from-mode_byte set_group_parent = refl
mode_from-mode_byte enable_shout_mode = refl
mode_from-mode_byte disable_shout_mode = refl
mode_from-mode_byte global_toggle_avatars = refl
mode_from-mode_byte global_toggle_props = refl
mode_from-mode_byte global_toggle_worlds = refl
mode_from-mode_byte global_get_lock_state = refl
mode_from-mode_byte global_get_headless_audio_state = refl
mode_from-mode_byte set_global_headless_audio = refl
mode_from-mode_byte global_get_headless_disallow_state = refl
mode_from-mode_byte set_global_headless_disallow = refl
mode_from-mode_byte set_global_opus_packet_loss = refl
mode_from-mode_byte global_get_opus_packet_loss_state = refl
mode_from-mode_byte set_user_opus_bitrate = refl
mode_from-mode_byte user_opus_bitrate_override = refl
mode_from-mode_byte set_global_opus_frame_duration = refl
mode_from-mode_byte global_get_opus_frame_duration_state = refl
mode_from-mode_byte set_server_name = refl
mode_from-mode_byte set_server_motd = refl
mode_from-mode_byte set_whitelist_mode = refl
mode_from-mode_byte add_whitelist = refl
mode_from-mode_byte remove_whitelist = refl
mode_from-mode_byte global_toggle_servers = refl
mode_from-mode_byte global_toggle_third_person = refl
mode_from-mode_byte add_default_library_item = refl
mode_from-mode_byte remove_default_library_item = refl
mode_from-mode_byte global_toggle_additional_avatar_data_lock = refl

pub admin_request-Carries :
    (m : AdminRequest) → Carries (serialize_admin_request m) deserialize_admin_request m
unfolding serialize_admin_request deserialize_admin_request
admin_request-Carries m =
    map-Carries _ (u8-Carries (mode_byte m.mode))
      (ap (λ (mode : AdminRequestMode). record { mode = mode }) (mode_from-mode_byte m.mode))
