-- ===== src/Core/Tables/Loads/Creators.antt =====
-- Whose resources are loaded, and which stay.
use basis_rust_server.Common.{
  ℕ, ◌≡◌, refl, sym, ap, ◌∙◌, subst, false, List, some, ◌==◌, arith, ◌⊎◌, inl, inr, Bool-cases,
  Option-cases,
}
use basis_rust_server.Common.Maps.{Map, lookup, insert, nat_key, text_key, insert-cases}
use basis_rust_server.Common.Words.{Bytes}
use basis_rust_server.Protocol.Messages.Objects.{LocalLoadResource}
use basis_rust_server.Resources.Store.{ResourceState, is_empty_id, load_resource}
use basis_rust_server.Resources.Preload.{start_preload}
use basis_rust_server.Core.{ConnectedPeer, ServerState}
use basis_rust_server.Core.Locks.{resource_locked}
use basis_rust_server.Core.Tables.Loads.{load, loaded_by}

load_resource-new :
    (resource r : LocalLoadResource) (id : Bytes) (s : ResourceState)
    → lookup id (load_resource resource s).1.resources ≡ some r
    → (lookup id s.resources ≡ some r) ⊎ (resource ≡ r)
unfolding load_resource
load_resource-new resource r id s e = elim (Bool-cases (is_empty_id resource.loaded_net_id)) [
  | inl empty ↦ inl (ground arith)
  | inr named ↦ elim (Option-cases (lookup resource.loaded_net_id s.resources)) [
    | inl free ↦ inserted (ground arith)
    | inr (known, old) ↦ inl (ground arith)
  ]
]
  where
    inserted :
        lookup id (insert resource.loaded_net_id resource s.resources) ≡ some r
        → (lookup id s.resources ≡ some r) ⊎ (resource ≡ r)
    inserted e = elim (insert-cases resource.loaded_net_id id resource r s.resources e) [
      | inl (same, new) ↦ inr new
      | inr (other, old) ↦ inl old
    ]

start_preload-resources :
    (now : ℕ) (resource : LocalLoadResource) (peers : List ℕ) (s : ResourceState)
    → (start_preload now resource peers s).1.resources ≡ (load_resource resource s).1.resources
unfolding start_preload
start_preload-resources now resource peers s = ground arith

loaded_by-resources :
    (now : ℕ) (resource : LocalLoadResource) (state : ServerState)
    → (loaded_by now resource state).1.resources.resources
      ≡ (load_resource resource state.resources).1.resources
unfolding loaded_by
loaded_by-resources now resource state = elim (Bool-cases (resource.load_strategy == 2)) [
  | inl preload ↦ rw (loaded_by, preload) (start_preload-resources now resource _ state.resources)
  | inr at_once ↦ rw (loaded_by, at_once) refl
]

-- A resource that a message loads was not locked for its sender, and names as its creator the sender, who
-- is signed in, whatever the message says.
pub load_lem :
    (now peer : ℕ) (m r : LocalLoadResource) (id : Bytes) (state : ServerState)
    → lookup id (load now state peer m).1.resources.resources ≡ some r
    → (lookup id state.resources.resources ≡ some r)
      ⊎ ((p : ConnectedPeer) × (lookup peer state.authenticated_peers ≡ some p)
          × (r.uuid_of_creator ≡ p.metadata.player_uuid)
          × (resource_locked state r peer ≡ false))
unfolding load
load_lem now peer m r id state e = elim (Option-cases (lookup peer state.authenticated_peers)) [
  | inl absent ↦ inl (ground arith)
  | inr (p, present) ↦
      let resource = record m { uuid_of_creator = p.metadata.player_uuid } in
      elim (Bool-cases (resource_locked state resource peer)) [
        | inl locked ↦ inl (ground arith)
        | inr free ↦
            let here : lookup id (loaded_by now resource state).1.resources.resources ≡ some r =
              ground arith in
            elim (load_resource-new resource r id state.resources
              (ap (lookup id) (sym (loaded_by-resources now resource state)) ∙ here)) [
                | inl old ↦ inl old
                | inr new ↦ inr (
                  p,
                  present,
                  sym (ap LocalLoadResource.uuid_of_creator new),
                  subst (λ (t : LocalLoadResource). resource_locked state t peer ≡ false) new free,
                )
              ]
      ]
]

-- Every resource stands under its own id, which is not empty.
pub record IsKeyed (resources : Map Bytes LocalLoadResource) : Type 0 where
  pub keyed :
      (id : Bytes) (r : LocalLoadResource)
      → lookup id resources ≡ some r
      → (r.loaded_net_id ≡ id) × (is_empty_id id ≡ false)
