-- ===== src/Tests/Resources.antt =====
-- The tables of the resources crate at concrete inputs.
use basis_rust_server.Common.{
  ℕ, ◌+◌, ◌≤◌, ◌<◌, ◌≡◌, refl, length, true, false, [], ◌∷◌, none, some, arith, ◌⊎◌,
}
use basis_rust_server.Common.Maps.{lookup, member, text_key}
use basis_rust_server.Common.Words.{Bytes}
use basis_rust_server.Resources.NetIds.{NetIdState, IsNumbered, add_or_find, add_or_find_lem}
use basis_rust_server.Resources.Ownership.{OwnershipState}
use basis_rust_server.Resources.Store.{LocalLoadResource, PreloadSession, ResourceState}
use basis_rust_server.Resources.Preload.{
  PreloadReadyMessage, mark_preload_ready, Reported, mark_preload_ready_lem,
}

abbrev red : Bytes
red = 0x72 ∷ []

abbrev blue : Bytes
blue = 0x62 ∷ []

abbrev names : NetIdState
names = record { by_name = (red, 0) ∷ []; next_id = 1 }

names-IsNumbered : IsNumbered names
unfolding lookup
names-IsNumbered = record {
  below = λ name id e. ground arith;
  apart = λ name other id e f. ground arith;
}

add_or_find_lem_example :
    let (id, after) = add_or_find blue names in
    IsNumbered after
    × (lookup blue after.by_name ≡ some id)
    × (add_or_find blue after ≡ (id, after))
    × ((other : Bytes) (k : ℕ)
        → lookup other names.by_name ≡ some k
        → lookup other after.by_name ≡ some k)
add_or_find_lem_example = add_or_find_lem blue names (omega arith) names-IsNumbered

abbrev owners : OwnershipState
owners = record { by_object = (red, 7) ∷ [] }

abbrev crate : LocalLoadResource
crate = record {
  mode = 0;
  loaded_net_id = red;
  unlock_password = [];
  combined_url = [];
  uuid_of_creator = [];
  is_admin_locked = false;
  position_x = 0;
  position_y = 0;
  position_z = 0;
  quaternion_x = 0;
  quaternion_y = 0;
  quaternion_z = 0;
  quaternion_w = 0;
  scale_x = 0;
  scale_y = 0;
  scale_z = 0;
  persist = false;
  modify_scale = false;
  load_strategy = 0;
}

abbrev preload : PreloadSession
preload = record { ready_peers = 5 ∷ []; failed_peers = []; total_peer_count = 2; started_at = 0 }

abbrev store : ResourceState
store = record { resources = (red, crate) ∷ []; preload_sessions = (red, preload) ∷ [] }

abbrev ready : PreloadReadyMessage
ready = record { loaded_net_id = red; is_ready = true }

mark_preload_ready_lem_example :
    let (spawned, after) = mark_preload_ready 6 ready store in
    (s' : PreloadSession) × Reported 6 true preload s'
    × (((2 ≤ length s'.ready_peers + length s'.failed_peers)
          × (spawned ≡ some (record { loaded_net_id = red }))
          × (lookup red after.preload_sessions ≡ none))
        ⊎ ((length s'.ready_peers + length s'.failed_peers < 2)
            × (spawned ≡ none)
            × (lookup red after.preload_sessions ≡ some s')))
unfolding lookup member
mark_preload_ready_lem_example =
    mark_preload_ready_lem 6 ready preload store (ground arith) (refl, tt) tt
