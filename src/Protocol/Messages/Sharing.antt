-- ===== src/Protocol/Messages/Sharing.antt =====
-- Messages about shared content: BasisRustServer/crates/basis-protocol/src/messages.rs.
-- A float is its bit pattern.
pub mod Carried
use basis_rust_server.Common.{ℕ, if◌then◌else◌, ◌==◌}
use basis_rust_server.Common.Words.{Bytes}
use basis_rust_server.Protocol.Io.{
  Read, ◌>>=◌, return, put_u8, put_u16, put_u32, put_string, get_u8, get_u32, get_string,
}
use basis_rust_server.Protocol.Io.Carries.{Write, ◌⨾◌}

pub data ContentShareType : Type 0 where
  avatar prop world server : ContentShareType

unfoldable pub share_type_byte : ContentShareType → ℕ
share_type_byte avatar = 0
share_type_byte prop = 1
share_type_byte world = 2
share_type_byte server = 3

-- `ContentShareType::from`.
unfoldable pub share_type_from : ℕ → ContentShareType
share_type_from value =
    if value == 1 then prop else if value == 2 then world else if value == 3 then server else avatar

pub record ContentShareMessage : Type 0 where
  pub sphere_net_id : Bytes
  pub content_url : Bytes
  pub unlock_password : Bytes
  pub content_type : ContentShareType
  pub position_x : ℕ
  pub position_y : ℕ
  pub position_z : ℕ

unfoldable pub serialize_content_share_message : ContentShareMessage → Write
serialize_content_share_message m =
    put_string m.sphere_net_id
    ⨾ put_string m.content_url
    ⨾ put_string m.unlock_password
    ⨾ put_u8 (share_type_byte m.content_type)
    ⨾ put_u32 m.position_x
    ⨾ put_u32 m.position_y
    ⨾ put_u32 m.position_z

unfoldable pub deserialize_content_share_message : Read ContentShareMessage
deserialize_content_share_message = do
  sphere_net_id ← get_string
  content_url ← get_string
  unlock_password ← get_string
  kind ← get_u8
  position_x ← get_u32
  position_y ← get_u32
  position_z ← get_u32
  return (record {
    sphere_net_id = sphere_net_id;
    content_url = content_url;
    unlock_password = unlock_password;
    content_type = share_type_from kind;
    position_x = position_x;
    position_y = position_y;
    position_z = position_z;
  })

pub record ContentShareCleanupMessage : Type 0 where
  pub sphere_net_id : Bytes

unfoldable pub serialize_content_share_cleanup_message : ContentShareCleanupMessage → Write
serialize_content_share_cleanup_message m = put_string m.sphere_net_id

unfoldable pub deserialize_content_share_cleanup_message : Read ContentShareCleanupMessage
deserialize_content_share_cleanup_message = do
  sphere_net_id ← get_string
  return (record { sphere_net_id = sphere_net_id })

pub record ServerContentShareMessage : Type 0 where
  pub player_id : ℕ
  pub sharer_uuid : Bytes
  pub sharer_display_name : Bytes
  pub content_share_message : ContentShareMessage

unfoldable pub serialize_server_content_share_message : ServerContentShareMessage → Write
serialize_server_content_share_message m =
    put_u16 m.player_id
    ⨾ put_string m.sharer_uuid
    ⨾ put_string m.sharer_display_name
    ⨾ serialize_content_share_message m.content_share_message

pub record ServerContentShareCleanupMessage : Type 0 where
  pub player_id : ℕ
  pub content_share_cleanup_message : ContentShareCleanupMessage

unfoldable pub serialize_server_content_share_cleanup_message :
    ServerContentShareCleanupMessage → Write
serialize_server_content_share_cleanup_message m =
    put_u16 m.player_id ⨾ serialize_content_share_cleanup_message m.content_share_cleanup_message
