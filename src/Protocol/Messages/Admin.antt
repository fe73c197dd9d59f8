-- ===== src/Protocol/Messages/Admin.antt =====
-- Messages for administrators, the database and links between peers: BasisRustServer/crates/basis-protocol/src/messages.rs.
pub mod Carried
use basis_rust_server.Common.{ℕ, ◌%◌, ◌^◌, length, if◌then◌else◌, ◌==◌}
use basis_rust_server.Common.Words.{Bytes}
use basis_rust_server.Protocol.Io.{
  Read, ◌>>=◌, return, put_u8, put_u16, put_bytes, put_string, get_u8, get_u16, get_bytes,
  get_string,
}
use basis_rust_server.Protocol.Io.Carries.{Write, ◌⨾◌}

pub record ErrorMessage : Type 0 where
  pub message : Bytes

unfoldable pub serialize_error_message : ErrorMessage → Write
serialize_error_message m = put_string m.message

unfoldable pub deserialize_error_message : Read ErrorMessage
deserialize_error_message = do message ← get_string; return (record { message = message })

pub record DataBaseRequest : Type 0 where
  pub database_id : Bytes

unfoldable pub serialize_data_base_request : DataBaseRequest → Write
serialize_data_base_request m = put_string m.database_id

unfoldable pub deserialize_data_base_request : Read DataBaseRequest
deserialize_data_base_request = do
  database_id ← get_string
  return (record { database_id = database_id })

pub record ConsoleData : Type 0 where
  pub message_index : ℕ
  pub array : Bytes

unfoldable pub serialize_console_data : ConsoleData → Write
serialize_console_data m =
    put_u8 m.message_index ⨾ put_u16 (length m.array % 2 ^ 16) ⨾ put_bytes m.array

unfoldable pub deserialize_console_data : Read ConsoleData
deserialize_console_data = do
  message_index ← get_u8
  len ← get_u16
  array ← get_bytes len
  return (record { message_index = message_index; array = array })

pub record AvatarLoadDataMessage : Type 0 where
  pub message_index : ℕ
  pub who_sent_us_this : ℕ
  pub payload : Bytes

unfoldable pub serialize_avatar_load_data_message : AvatarLoadDataMessage → Write
serialize_avatar_load_data_message m =
    put_u8 m.message_index
    ⨾ put_u16 m.who_sent_us_this
    ⨾ put_u16 (length m.payload % 2 ^ 16)
    ⨾ put_bytes m.payload

unfoldable pub deserialize_avatar_load_data_message : Read AvatarLoadDataMessage
deserialize_avatar_load_data_message = do
  message_index ← get_u8
  who_sent_us_this ← get_u16
  len ← get_u16
  payload ← get_bytes len
  return (record {
    message_index = message_index;
    who_sent_us_this = who_sent_us_this;
    payload = payload;
  })

pub record BasisP2PSignalMessage : Type 0 where
  pub other_player_id : ℕ
  pub session_token : Bytes

unfoldable pub serialize_p2p_signal_message : BasisP2PSignalMessage → Write
serialize_p2p_signal_message m = put_u16 m.other_player_id ⨾ put_string m.session_token

unfoldable pub deserialize_p2p_signal_message : Read BasisP2PSignalMessage
deserialize_p2p_signal_message = do
  other_player_id ← get_u16
  session_token ← get_string
  return (record { other_player_id = other_player_id; session_token = session_token })

pub data AdminRequestMode : Type 0 where
  ban kick ip_and_ban message message_all un_ban_ip un_ban teleport_all teleport_player
        get_permissions set_user_group set_user_node set_group_node create_group delete_group
        set_group_parent enable_shout_mode disable_shout_mode global_toggle_avatars
        global_toggle_props global_toggle_worlds global_get_lock_state
        global_get_headless_audio_state set_global_headless_audio global_get_headless_disallow_state
        set_global_headless_disallow set_global_opus_packet_loss global_get_opus_packet_loss_state
        set_user_opus_bitrate user_opus_bitrate_override set_global_opus_frame_duration
        global_get_opus_frame_duration_state set_server_name set_server_motd set_whitelist_mode
        add_whitelist remove_whitelist global_toggle_servers global_toggle_third_person
        add_default_library_item remove_default_library_item
        global_toggle_additional_avatar_data_lock :
      AdminRequestMode

unfoldable pub mode_byte : AdminRequestMode → ℕ
mode_byte ban = 0
mode_byte kick = 1
mode_byte ip_and_ban = 2
mode_byte message = 3
mode_byte message_all = 4
mode_byte un_ban_ip = 5
mode_byte un_ban = 6
mode_byte teleport_all = 7
mode_byte teleport_player = 8
mode_byte get_permissions = 9
mode_byte set_user_group = 10
mode_byte set_user_node = 11
mode_byte set_group_node = 12
mode_byte create_group = 13
mode_byte delete_group = 14
mode_byte set_group_parent = 15
mode_byte enable_shout_mode = 16
mode_byte disable_shout_mode = 17
mode_byte global_toggle_avatars = 18
mode_byte global_toggle_props = 19
mode_byte global_toggle_worlds = 20
mode_byte global_get_lock_state = 21
mode_byte global_get_headless_audio_state = 22
mode_byte set_global_headless_audio = 23
mode_byte global_get_headless_disallow_state = 24
mode_byte set_global_headless_disallow = 25
mode_byte set_global_opus_packet_loss = 26
mode_byte global_get_opus_packet_loss_state = 27
mode_byte set_user_opus_bitrate = 28
mode_byte user_opus_bitrate_override = 29
mode_byte set_global_opus_frame_duration = 30
mode_byte global_get_opus_frame_duration_state = 31
mode_byte set_server_name = 32
mode_byte set_server_motd = 33
mode_byte set_whitelist_mode = 34
mode_byte add_whitelist = 35
mode_byte remove_whitelist = 36
mode_byte global_toggle_servers = 37
mode_byte global_toggle_third_person = 38
mode_byte add_default_library_item = 39
mode_byte remove_default_library_item = 40
mode_byte global_toggle_additional_avatar_data_lock = 41

-- `AdminRequestMode::from`: an unknown byte is a ban.
unfoldable pub mode_from : ℕ → AdminRequestMode
mode_from value =
    if value == 1
    then kick
    else if value == 2
    then ip_and_ban
    else if value == 3
    then message
    else if value == 4
    then message_all
    else if value == 5
    then un_ban_ip
    else if value == 6
    then un_ban
    else if value == 7
    then teleport_all
    else if value == 8
    then teleport_player
    else if value == 9
    then get_permissions
    else if value == 10
    then set_user_group
    else if value == 11
    then set_user_node
    else if value == 12
    then set_group_node
    else if value == 13
    then create_group
    else if value == 14
    then delete_group
    else if value == 15
    then set_group_parent
    else if value == 16
    then enable_shout_mode
    else if value == 17
    then disable_shout_mode
    else if value == 18
    then global_toggle_avatars
    else if value == 19
    then global_toggle_props
    else if value == 20
    then global_toggle_worlds
    else if value == 21
    then global_get_lock_state
    else if value == 22
    then global_get_headless_audio_state
    else if value == 23
    then set_global_headless_audio
    else if value == 24
    then global_get_headless_disallow_state
    else if value == 25
    then set_global_headless_disallow
    else if value == 26
    then set_global_opus_packet_loss
    else if value == 27
    then global_get_opus_packet_loss_state
    else if value == 28
    then set_user_opus_bitrate
    else if value == 29
    then user_opus_bitrate_override
    else if value == 30
    then set_global_opus_frame_duration
    else if value == 31
    then global_get_opus_frame_duration_state
    else if value == 32
    then set_server_name
    else if value == 33
    then set_server_motd
    else if value == 34
    then set_whitelist_mode
    else if value == 35
    then add_whitelist
    else if value == 36
    then remove_whitelist
    else if value == 37
    then global_toggle_servers
    else if value == 38
    then global_toggle_third_person
    else if value == 39
    then add_default_library_item
    else if value == 40
    then remove_default_library_item
    else if value == 41
    then global_toggle_additional_avatar_data_lock
    else ban

pub record AdminRequest : Type 0 where
  pub mode : AdminRequestMode

unfoldable pub serialize_admin_request : AdminRequest → Write
serialize_admin_request m = put_u8 (mode_byte m.mode)

unfoldable pub deserialize_admin_request : Read AdminRequest
deserialize_admin_request = do mode ← get_u8; return (record { mode = mode_from mode })
