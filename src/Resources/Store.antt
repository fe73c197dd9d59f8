-- ===== src/Resources/Store.antt =====
-- `ResourceState`, without its preloads: BasisRustServer/crates/basis-server-resources/src/lib.rs.
-- A float is its bit pattern.
use basis_rust_server.Common.{
  ℕ, ◌≡◌, refl, ◌∙◌, Bool, true, false, not, ◌==◌, List, [], ◌∷◌, map, Option, none, some,
  if◌then◌else◌, arith, Option-cases, inl, inr,
}
use basis_rust_server.Common.Maps.{
  Map, lookup, insert, remove, member, text_key, lookup-remove, HasKeysOnce, holds_of, keys_where,
  member-keys_where,
}
use basis_rust_server.Common.Words.{Bytes}
pub use basis_rust_server.Protocol.Messages.Objects.{LocalLoadResource, UnloadResource}

pub record PreloadSession : Type 0 where
  pub ready_peers : List ℕ
  pub failed_peers : List ℕ
  pub total_peer_count : ℕ
  pub started_at : ℕ

pub record ResourceState : Type 0 where
  pub resources : Map Bytes LocalLoadResource
  pub preload_sessions : Map Bytes PreloadSession

abbrev pub is_empty_id : Bytes → Bool
is_empty_id [] = true
is_empty_id (b ∷ bs) = false

unfoldable pub load_resource : LocalLoadResource → ResourceState → Bool × ResourceState
load_resource message state =
    let id = message.loaded_net_id in
    if is_empty_id id then (false, state) else elim (lookup id state.resources) [
      | some known ↦ (false, state)
      | none ↦ (true, record state { resources = insert id message state.resources })
    ]

unfoldable pub unload_resource : Bytes → ResourceState → Option LocalLoadResource × ResourceState
unload_resource id state = (
  lookup id state.resources,
  record {
    resources = remove id state.resources;
    preload_sessions = remove id state.preload_sessions;
  },
)

announced : Bytes → Option LocalLoadResource → List UnloadResource → List UnloadResource
announced id none more = more
announced id (some resource) more = record { mode = resource.mode; loaded_net_id = id } ∷ more

-- Takes the ids out one after the other, and announces what was there.
unfoldable pub take_ids :
    List Bytes → Map Bytes LocalLoadResource → List UnloadResource × Map Bytes LocalLoadResource
unfolding announced
take_ids [] resources = ([], resources)
take_ids (id ∷ ids) resources =
    let (more, rest) = take_ids ids (remove id resources) in
    (announced id (lookup id resources) more, rest)

unfoldable pub is_scene : LocalLoadResource → Bool
is_scene resource = resource.mode == 1

unfoldable pub is_passing : LocalLoadResource → Bool
is_passing resource = not resource.persist

unfoldable pub unload_where :
    (LocalLoadResource → Bool) → ResourceState → List UnloadResource × ResourceState
unfolding take_ids keys_where
unload_where test state =
    let (messages, rest) = take_ids (keys_where test state.resources) state.resources in
    (messages, record state { resources = rest })

unfoldable pub all_scene_unloads : ResourceState → List UnloadResource × ResourceState
unfolding unload_where is_scene
all_scene_unloads = unload_where is_scene

unfoldable pub reset_non_persistent : ResourceState → List UnloadResource × ResourceState
unfolding unload_where is_passing
reset_non_persistent = unload_where is_passing

unfoldable pub reset : ResourceState → ResourceState
reset state = record { resources = []; preload_sessions = [] }

unfoldable pub all_resources : ResourceState → List LocalLoadResource
all_resources state = map (λ (entry : Bytes × LocalLoadResource). entry.1) state.resources

lookup-take_ids :
    (ids : List Bytes) (id : Bytes) (m : Map Bytes LocalLoadResource)
    → lookup id (take_ids ids m).1 ≡ (if member id ids then none else lookup id m)
unfolding take_ids member
lookup-take_ids [] id m = refl
lookup-take_ids (key ∷ ids) id m =
    ground (arith, lookup-take_ids ids id (remove key m), lookup-remove key id m)

abbrev is_there : Option LocalLoadResource → Bool
is_there none = false
is_there (some r) = true

abbrev pub ids_of : List UnloadResource → List Bytes
ids_of messages = map UnloadResource.loaded_net_id messages

-- What is announced is what was asked for and there.
member-take_ids :
    (ids : List Bytes) (id : Bytes) (m : Map Bytes LocalLoadResource)
    → member id (ids_of (take_ids ids m).0)
      ≡ (if member id ids then is_there (lookup id m) else false)
unfolding take_ids member announced
member-take_ids [] id m = refl
member-take_ids (key ∷ ids) id m =
    let rest = member-take_ids ids id (remove key m) in
    elim (Option-cases (lookup key m)) [
      | inl e ↦ rw e (rest ∙ ground (arith, lookup-remove key id m, e))
      | inr (r, e) ↦ rw e (ground (arith, rest, lookup-remove key id m, e))
    ]

unload_where_lem :
    (test : LocalLoadResource → Bool) (id : Bytes) (state : ResourceState)
    → HasKeysOnce state.resources
    → let (messages, after) = unload_where test state in
      let gone = holds_of test (lookup id state.resources) in
      (lookup id after.resources ≡ (if gone then none else lookup id state.resources))
      × (member id (ids_of messages) ≡ gone)
unfolding unload_where
unload_where_lem test id state once =
    let ids = keys_where test state.resources in
    let asked = member-keys_where test id state.resources once in
    (
      lookup-take_ids ids id state.resources ∙ rw asked,
      member-take_ids ids id state.resources ∙ rw asked (there (lookup id state.resources)),
    )
  where
    there :
        (r : Option LocalLoadResource)
        → (if holds_of test r then is_there r else false) ≡ holds_of test r
    there none = refl
    there (some r) = ground arith

-- `reset_non_persistent` takes out exactly the resources that are not persistent and announces
-- exactly these, and `all_scene_unloads` does so with the scenes.
unloads_lem :
    (id : Bytes) (state : ResourceState)
    → HasKeysOnce state.resources
    → let (messages, after) = reset_non_persistent state in
      let (scenes, without) = all_scene_unloads state in
      let passing = holds_of (λ r. not r.persist) (lookup id state.resources) in
      let scene = holds_of (λ r. r.mode == 1) (lookup id state.resources) in
      (lookup id after.resources ≡ (if passing then none else lookup id state.resources))
      × (member id (ids_of messages) ≡ passing)
      × (lookup id without.resources ≡ (if scene then none else lookup id state.resources))
      × (member id (ids_of scenes) ≡ scene)
unfolding reset_non_persistent all_scene_unloads is_passing is_scene
unloads_lem id state once =
    let p = unload_where_lem (λ r. not r.persist) id state once in
    let q = unload_where_lem (λ r. r.mode == 1) id state once in (p.0, p.1, q.0, q.1)
