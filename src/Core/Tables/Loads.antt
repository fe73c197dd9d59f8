-- ===== src/Core/Tables/Loads.antt =====
-- The arms of `handle_message` that load and unload resources:
-- BasisRustServer/crates/basis-server-core/src/lib.rs.
pub mod Creators
use basis_rust_server.Common.{
  ℕ, Bool, true, false, List, [], ◌∷◌, ◌++◌, map, Option, none, some, ◌==◌, not, ◌&&◌,
  if◌then◌else◌, ite,
}
use basis_rust_server.Common.Maps.{Map, lookup, nat_key, text_key, text_discrete, contains_key}
use basis_rust_server.Common.Words.{Bytes}
use basis_rust_server.Protocol.Io.{Result}
use basis_rust_server.Protocol.Messages.Objects.{
  LocalLoadResource, serialize_local_load_resource, deserialize_local_load_resource, UnloadResource,
  serialize_unload_resource, deserialize_unload_resource, PreloadReadyMessage,
  deserialize_preload_ready_message, SpawnPreloadedMessage, serialize_spawn_preloaded_message,
}
use basis_rust_server.Resources.Store.{
  load_resource, unload_resource, all_scene_unloads, all_resources,
}
use basis_rust_server.Resources.Preload.{start_preload, mark_preload_ready}
use basis_rust_server.Resources.Sharing
use basis_rust_server.Core.{ConnectedPeer, ServerState, broadcast}
use basis_rust_server.Core.Leaving.{Handled, announce}
use basis_rust_server.Core.Locks.{resource_locked, has_protection_permission}
use basis_rust_server.Core.Tables.{reading, tell}

ids_of : Map ℕ ConnectedPeer → List ℕ
ids_of peers = map (λ (entry : ℕ × ConnectedPeer). entry.0) peers

unfoldable loaded_by : ℕ → LocalLoadResource → ServerState → Handled
unfolding load_resource start_preload broadcast ids_of
loaded_by now resource state =
    let (loaded, resources) =
      if resource.load_strategy == 2
      then start_preload now resource (ids_of state.authenticated_peers) state.resources
      else load_resource resource state.resources in
    let after = record state { resources = resources } in
    (if loaded then tell after 25 serialize_local_load_resource resource none else [], after)

unfoldable pub load : ℕ → ServerState → ℕ → LocalLoadResource → Handled
unfolding loaded_by resource_locked
load now state peer m = elim (lookup peer state.authenticated_peers) [
  | none ↦ ([], state)
  | some p ↦
      let resource = record m { uuid_of_creator = p.metadata.player_uuid } in
      if resource_locked state resource peer then ([], state) else loaded_by now resource state
]

unfoldable pub receive_load : ℕ → ℕ → Bytes → ServerState → Result Handled
unfolding load
receive_load now peer payload state =
    reading deserialize_local_load_resource payload (load now state peer)

-- A resource that is locked is put back, if the peer must not unload it.
unfoldable pub unload : ServerState → ℕ → UnloadResource → Handled
unfolding unload_resource load_resource has_protection_permission broadcast
unload state peer m =
    let (found, resources) = unload_resource m.loaded_net_id state.resources in
    let after = record state { resources = resources } in
    elim found [
      | none ↦ ([], after)
      | some resource ↦
          if resource.is_admin_locked && not (has_protection_permission state peer)
          then ([], record after { resources = (load_resource resource resources).1 })
          else (tell after 26 serialize_unload_resource m none, after)
    ]

unfoldable pub receive_unload : ℕ → Bytes → ServerState → Result Handled
unfolding unload
receive_unload peer payload state = reading deserialize_unload_resource payload (unload state peer)

is_scene_of : SpawnPreloadedMessage → List LocalLoadResource → Bool
is_scene_of spawn [] = false
is_scene_of spawn (r ∷ rs) =
    if ite (text_discrete r.loaded_net_id spawn.loaded_net_id) true false && (r.mode == 1)
    then true
    else is_scene_of spawn rs

spawned : Option SpawnPreloadedMessage → ServerState → Handled
unfolding all_resources all_scene_unloads announce broadcast is_scene_of
spawned none state = ([], state)
spawned (some spawn) state =
    let (unloads, resources) = all_scene_unloads state.resources in
    let scene = is_scene_of spawn (all_resources state.resources) in
    let after = if scene then record state { resources = resources } else state in
    (
      (if scene then announce after 26 serialize_unload_resource none unloads else [])
          ++ tell after 28 serialize_spawn_preloaded_message spawn none,
      after,
    )

preload_ready : ServerState → ℕ → PreloadReadyMessage → Handled
unfolding mark_preload_ready spawned
preload_ready state peer m =
    let (spawn, resources) = mark_preload_ready peer m state.resources in
    spawned spawn (record state { resources = resources })

unfoldable pub receive_preload_ready : ℕ → Bytes → ServerState → Result Handled
unfolding preload_ready
receive_preload_ready peer payload state =
    reading deserialize_preload_ready_message payload (preload_ready state peer)
