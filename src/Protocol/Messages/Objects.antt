-- ===== src/Protocol/Messages/Objects.antt =====
-- Messages about resources, objects and the library: BasisRustServer/crates/basis-protocol/src/messages.rs. A float is its bit pattern.
pub mod Carried
use basis_rust_server.Common.{ℕ, ◌%◌, ◌^◌, Bool, List, length, if◌then◌else◌, ◌==◌}
use basis_rust_server.Common.Words.{Bytes}
use basis_rust_server.Protocol.Io.{
  Read, ◌>>=◌, return, put_u8, put_bool, put_u16, put_u32, put_string, get_u8, get_bool, get_u16,
  get_u32, get_string,
}
use basis_rust_server.Protocol.Io.Carries.{Write, ◌⨾◌, skip, put_each, get_times}

pub record LocalLoadResource : Type 0 where
  pub mode : ℕ
  pub loaded_net_id : Bytes
  pub unlock_password : Bytes
  pub combined_url : Bytes
  pub uuid_of_creator : Bytes
  pub is_admin_locked : Bool
  pub position_x : ℕ
  pub position_y : ℕ
  pub position_z : ℕ
  pub quaternion_x : ℕ
  pub quaternion_y : ℕ
  pub quaternion_z : ℕ
  pub quaternion_w : ℕ
  pub scale_x : ℕ
  pub scale_y : ℕ
  pub scale_z : ℕ
  pub persist : Bool
  pub modify_scale : Bool
  pub load_strategy : ℕ

-- The bits of the float 1.0.
abbrev pub one : ℕ
one = 0x3f800000

unfoldable pub write_placement : LocalLoadResource → Write
write_placement m =
    put_u32 m.position_x
    ⨾ put_u32 m.position_y
    ⨾ put_u32 m.position_z
    ⨾ put_u32 m.quaternion_x
    ⨾ put_u32 m.quaternion_y
    ⨾ put_u32 m.quaternion_z
    ⨾ put_u32 m.quaternion_w
    ⨾ put_u32 m.scale_x
    ⨾ put_u32 m.scale_y
    ⨾ put_u32 m.scale_z

unfoldable pub serialize_local_load_resource : LocalLoadResource → Write
unfolding write_placement
serialize_local_load_resource m =
    put_u8 m.mode
    ⨾ put_string m.loaded_net_id
    ⨾ put_string m.unlock_password
    ⨾ put_string m.combined_url
    ⨾ put_string m.uuid_of_creator
    ⨾ put_bool m.is_admin_locked
    ⨾ put_bool m.persist
    ⨾ put_bool m.modify_scale
    ⨾ put_u8 m.load_strategy
    ⨾ (if m.mode == 0 then write_placement m else skip)

-- The value before the placement is read.
abbrev pub unplaced : LocalLoadResource → LocalLoadResource
unplaced m = record m {
  position_x = 0;
  position_y = 0;
  position_z = 0;
  quaternion_x = 0;
  quaternion_y = 0;
  quaternion_z = 0;
  quaternion_w = one;
  scale_x = one;
  scale_y = one;
  scale_z = one;
}

unfoldable pub read_placement : LocalLoadResource → Read LocalLoadResource
read_placement value = do
  position_x ← get_u32
  position_y ← get_u32
  position_z ← get_u32
  quaternion_x ← get_u32
  quaternion_y ← get_u32
  quaternion_z ← get_u32
  quaternion_w ← get_u32
  scale_x ← get_u32
  scale_y ← get_u32
  scale_z ← get_u32
  return (record value {
    position_x = position_x;
    position_y = position_y;
    position_z = position_z;
    quaternion_x = quaternion_x;
    quaternion_y = quaternion_y;
    quaternion_z = quaternion_z;
    quaternion_w = quaternion_w;
    scale_x = scale_x;
    scale_y = scale_y;
    scale_z = scale_z;
  })

unfoldable pub deserialize_local_load_resource : Read LocalLoadResource
unfolding read_placement
deserialize_local_load_resource = do
  mode ← get_u8
  loaded_net_id ← get_string
  unlock_password ← get_string
  combined_url ← get_string
  uuid_of_creator ← get_string
  is_admin_locked ← get_bool
  persist ← get_bool
  modify_scale ← get_bool
  load_strategy ← get_u8
  let value : LocalLoadResource = record {
    mode = mode;
    loaded_net_id = loaded_net_id;
    unlock_password = unlock_password;
    combined_url = combined_url;
    uuid_of_creator = uuid_of_creator;
    is_admin_locked = is_admin_locked;
    persist = persist;
    modify_scale = modify_scale;
    load_strategy = load_strategy;
    position_x = 0;
    position_y = 0;
    position_z = 0;
    quaternion_x = 0;
    quaternion_y = 0;
    quaternion_z = 0;
    quaternion_w = one;
    scale_x = one;
    scale_y = one;
    scale_z = one;
  }
  if mode == 0 then read_placement value else return value

pub record UnloadResource : Type 0 where
  pub mode : ℕ
  pub loaded_net_id : Bytes

unfoldable pub serialize_unload_resource : UnloadResource → Write
serialize_unload_resource m = put_u8 m.mode ⨾ put_string m.loaded_net_id

unfoldable pub deserialize_unload_resource : Read UnloadResource
deserialize_unload_resource = do
  mode ← get_u8
  loaded_net_id ← get_string
  return (record { mode = mode; loaded_net_id = loaded_net_id })

pub record PreloadReadyMessage : Type 0 where
  pub loaded_net_id : Bytes
  pub is_ready : Bool

unfoldable pub serialize_preload_ready_message : PreloadReadyMessage → Write
serialize_preload_ready_message m = put_string m.loaded_net_id ⨾ put_bool m.is_ready

unfoldable pub deserialize_preload_ready_message : Read PreloadReadyMessage
deserialize_preload_ready_message = do
  loaded_net_id ← get_string
  is_ready ← get_bool
  return (record { loaded_net_id = loaded_net_id; is_ready = is_ready })

pub record SpawnPreloadedMessage : Type 0 where
  pub loaded_net_id : Bytes

unfoldable pub serialize_spawn_preloaded_message : SpawnPreloadedMessage → Write
serialize_spawn_preloaded_message m = put_string m.loaded_net_id

unfoldable pub deserialize_spawn_preloaded_message : Read SpawnPreloadedMessage
deserialize_spawn_preloaded_message = do
  loaded_net_id ← get_string
  return (record { loaded_net_id = loaded_net_id })

pub record OwnershipTransferMessage : Type 0 where
  pub player_id : ℕ
  pub ownership_id : Bytes

unfoldable pub serialize_ownership_transfer_message : OwnershipTransferMessage → Write
serialize_ownership_transfer_message m = put_u16 m.player_id ⨾ put_string m.ownership_id

unfoldable pub deserialize_ownership_transfer_message : Read OwnershipTransferMessage
deserialize_ownership_transfer_message = do
  player_id ← get_u16
  ownership_id ← get_string
  return (record { player_id = player_id; ownership_id = ownership_id })

pub record ServerLibraryItem : Type 0 where
  pub mode : ℕ
  pub url : Bytes
  pub password : Bytes

unfoldable pub serialize_server_library_item : ServerLibraryItem → Write
serialize_server_library_item m = put_u8 m.mode ⨾ put_string m.url ⨾ put_string m.password

unfoldable pub deserialize_server_library_item : Read ServerLibraryItem
deserialize_server_library_item = do
  mode ← get_u8
  url ← get_string
  password ← get_string
  return (record { mode = mode; url = url; password = password })

pub record ServerLibraryMessage : Type 0 where
  pub items : List ServerLibraryItem

unfoldable pub serialize_server_library_message : ServerLibraryMessage → Write
serialize_server_library_message m =
    put_u16 (length m.items % 2 ^ 16) ⨾ put_each serialize_server_library_item m.items

unfoldable pub deserialize_server_library_message : Read ServerLibraryMessage
deserialize_server_library_message = do
  count ← get_u16
  items ← get_times count deserialize_server_library_item
  return (record { items = items })
