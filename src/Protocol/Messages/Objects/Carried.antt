-- ===== src/Protocol/Messages/Objects/Carried.antt =====
-- What the messages of Protocol/Messages/Objects carry.
use basis_rust_server.Common.{
  ◌%◌, ◌^◌, ◌<◌, refl, List, [], ◌∷◌, length, All, arith, if◌then◌else◌, ◌==◌,
}
use basis_rust_server.Protocol.Io.{return}
use basis_rust_server.Protocol.Io.Carries.{skip}
use basis_rust_server.Protocol.Io.Carries.{
  Carries, bind-Carries, map-Carries, return-Carries, each_same-Carries,
}
use basis_rust_server.Protocol.Io.Carries.Words.{
  u8-Carries, bool-Carries, u16-Carries, u32-Carries, string-Carries, IsText,
}
use basis_rust_server.Protocol.Messages.Objects.{
  LocalLoadResource, write_placement, serialize_local_load_resource, unplaced, read_placement,
  deserialize_local_load_resource, UnloadResource, serialize_unload_resource,
  deserialize_unload_resource, PreloadReadyMessage, serialize_preload_ready_message,
  deserialize_preload_ready_message, SpawnPreloadedMessage, serialize_spawn_preloaded_message,
  deserialize_spawn_preloaded_message, OwnershipTransferMessage,
  serialize_ownership_transfer_message, deserialize_ownership_transfer_message, ServerLibraryItem,
  serialize_server_library_item, deserialize_server_library_item, ServerLibraryMessage,
  serialize_server_library_message, deserialize_server_library_message,
}
use basis_rust_server.Common.{Bool-cases, inl, inr}

abbrev FitsPlacement : LocalLoadResource → Type 0
FitsPlacement m =
    (m.position_x < 2 ^ 32)
    × (m.position_y < 2 ^ 32)
    × (m.position_z < 2 ^ 32)
    × (m.quaternion_x < 2 ^ 32)
    × (m.quaternion_y < 2 ^ 32)
    × (m.quaternion_z < 2 ^ 32)
    × (m.quaternion_w < 2 ^ 32)
    × (m.scale_x < 2 ^ 32)
    × (m.scale_y < 2 ^ 32)
    × (m.scale_z < 2 ^ 32)

abbrev pub FitsLocalLoadResource : LocalLoadResource → Type 0
FitsLocalLoadResource m =
    IsText m.loaded_net_id
    × IsText m.unlock_password
    × IsText m.combined_url
    × IsText m.uuid_of_creator
    × FitsPlacement m

-- The placement travels in mode 0 only.
abbrev pub arrived : LocalLoadResource → LocalLoadResource
arrived m = if m.mode == 0 then m else unplaced m

placement-Carries :
    (m value : LocalLoadResource)
    → FitsPlacement m
    → Carries (write_placement m) (read_placement value) (record value {
      position_x = m.position_x;
      position_y = m.position_y;
      position_z = m.position_z;
      quaternion_x = m.quaternion_x;
      quaternion_y = m.quaternion_y;
      quaternion_z = m.quaternion_z;
      quaternion_w = m.quaternion_w;
      scale_x = m.scale_x;
      scale_y = m.scale_y;
      scale_z = m.scale_z;
    })
unfolding write_placement read_placement
placement-Carries m value h = bind-Carries _ (u32-Carries m.position_x h.0) (
    bind-Carries _ (u32-Carries m.position_y h.1) (
      bind-Carries _ (u32-Carries m.position_z h.2) (
        bind-Carries _ (u32-Carries m.quaternion_x h.3) (
          bind-Carries _ (u32-Carries m.quaternion_y h.4) (
            bind-Carries _ (u32-Carries m.quaternion_z h.5) (
              bind-Carries _ (u32-Carries m.quaternion_w h.6) (
                bind-Carries _ (u32-Carries m.scale_x h.7) (
                  bind-Carries _ (u32-Carries m.scale_y h.8)
                    (map-Carries _ (u32-Carries m.scale_z h.9) refl)))))))))

maybe_placement-Carries :
    (m : LocalLoadResource)
    → FitsPlacement m
    → Carries
        (if m.mode == 0 then write_placement m else skip)
        (if m.mode == 0 then read_placement (unplaced m) else return (unplaced m))
        (arrived m)
maybe_placement-Carries m h = elim (Bool-cases (m.mode == 0)) [
  | inl e ↦ rw e (placement-Carries m (unplaced m) h)
  | inr e ↦ rw e (return-Carries (unplaced m))
]

pub local_load_resource-Carries :
    (m : LocalLoadResource)
    → FitsLocalLoadResource m
    → Carries (serialize_local_load_resource m) deserialize_local_load_resource (arrived m)
unfolding serialize_local_load_resource deserialize_local_load_resource
local_load_resource-Carries m h = bind-Carries _ (u8-Carries m.mode) (
    bind-Carries _ (string-Carries m.loaded_net_id h.0) (
      bind-Carries _ (string-Carries m.unlock_password h.1) (
        bind-Carries _ (string-Carries m.combined_url h.2) (
          bind-Carries _ (string-Carries m.uuid_of_creator h.3) (
            bind-Carries _ (bool-Carries m.is_admin_locked) (
              bind-Carries _ (bool-Carries m.persist) (
                bind-Carries _ (bool-Carries m.modify_scale) (
                  bind-Carries _ (u8-Carries m.load_strategy)
                    (maybe_placement-Carries m h.4)))))))))

abbrev pub FitsUnloadResource : UnloadResource → Type 0
FitsUnloadResource m = IsText m.loaded_net_id

pub unload_resource-Carries :
    (m : UnloadResource)
    → FitsUnloadResource m
    → Carries (serialize_unload_resource m) deserialize_unload_resource m
unfolding serialize_unload_resource deserialize_unload_resource
unload_resource-Carries m h =
    bind-Carries _ (u8-Carries m.mode) (map-Carries _ (string-Carries m.loaded_net_id h) refl)

abbrev pub FitsPreloadReadyMessage : PreloadReadyMessage → Type 0
FitsPreloadReadyMessage m = IsText m.loaded_net_id

pub preload_ready_message-Carries :
    (m : PreloadReadyMessage)
    → FitsPreloadReadyMessage m
    → Carries (serialize_preload_ready_message m) deserialize_preload_ready_message m
unfolding serialize_preload_ready_message deserialize_preload_ready_message
preload_ready_message-Carries m h =
    bind-Carries _ (string-Carries m.loaded_net_id h) (map-Carries _ (bool-Carries m.is_ready) refl)

abbrev pub FitsSpawnPreloadedMessage : SpawnPreloadedMessage → Type 0
FitsSpawnPreloadedMessage m = IsText m.loaded_net_id

pub spawn_preloaded_message-Carries :
    (m : SpawnPreloadedMessage)
    → FitsSpawnPreloadedMessage m
    → Carries (serialize_spawn_preloaded_message m) deserialize_spawn_preloaded_message m
unfolding serialize_spawn_preloaded_message deserialize_spawn_preloaded_message
spawn_preloaded_message-Carries m h = map-Carries _ (string-Carries m.loaded_net_id h) refl

abbrev pub FitsOwnershipTransferMessage : OwnershipTransferMessage → Type 0
FitsOwnershipTransferMessage m = (m.player_id < 2 ^ 16) × IsText m.ownership_id

pub ownership_transfer_message-Carries :
    (m : OwnershipTransferMessage)
    → FitsOwnershipTransferMessage m
    → Carries (serialize_ownership_transfer_message m) deserialize_ownership_transfer_message m
unfolding serialize_ownership_transfer_message deserialize_ownership_transfer_message
ownership_transfer_message-Carries m h =
    bind-Carries _ (u16-Carries m.player_id h.0)
      (map-Carries _ (string-Carries m.ownership_id h.1) refl)

abbrev pub FitsServerLibraryItem : ServerLibraryItem → Type 0
FitsServerLibraryItem m = IsText m.url × IsText m.password

pub server_library_item-Carries :
    (m : ServerLibraryItem)
    → FitsServerLibraryItem m
    → Carries (serialize_server_library_item m) deserialize_server_library_item m
unfolding serialize_server_library_item deserialize_server_library_item
server_library_item-Carries m h =
    bind-Carries _ (u8-Carries m.mode) (
      bind-Carries _ (string-Carries m.url h.0)
        (map-Carries _ (string-Carries m.password h.1) refl))

abbrev pub FitsServerLibraryMessage : ServerLibraryMessage → Type 0
FitsServerLibraryMessage m = (length m.items < 2 ^ 16) × All FitsServerLibraryItem m.items

items-Carries :
    (items : List ServerLibraryItem)
    → All FitsServerLibraryItem items
    → All (λ a. Carries (serialize_server_library_item a) deserialize_server_library_item a) items
items-Carries [] h = tt
items-Carries (a ∷ items) h = (server_library_item-Carries a h.0, items-Carries items h.1)

pub server_library_message-Carries :
    (m : ServerLibraryMessage)
    → FitsServerLibraryMessage m
    → Carries (serialize_server_library_message m) deserialize_server_library_message m
unfolding serialize_server_library_message deserialize_server_library_message
server_library_message-Carries m h =
    bind-Carries _ (u16-Carries (length m.items % 2 ^ 16) (omega arith)) (
      map-Carries _
        (each_same-Carries serialize_server_library_item deserialize_server_library_item _ m.items
          (omega (arith, h.0)) (items-Carries m.items h.1))
        refl)
