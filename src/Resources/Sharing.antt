-- ===== src/Resources/Sharing.antt =====
-- `ContentShareState`, the shared spheres by their ids:
-- BasisRustServer/crates/basis-server-resources/src/lib.rs.
use basis_rust_server.Common.{
  ℕ, ◌≡◌, refl, ap, ◌∙◌, Bool, true, List, [], ◌∷◌, map, Option, none, some, ◌==◌, if◌then◌else◌,
  ite,
}
use basis_rust_server.Common.Maps.{
  Map, lookup, insert, remove, member, text_key, text_discrete, HasKeysOnce, holds_of, keys_where,
  member-keys_where, remove_keys, lookup-remove_keys,
}
use basis_rust_server.Common.Words.{Bytes}
pub use basis_rust_server.Protocol.Messages.Sharing.{
  ContentShareMessage, ContentShareCleanupMessage, ServerContentShareMessage,
  ServerContentShareCleanupMessage,
}

pub record ContentShareState : Type 0 where
  pub spheres : Map Bytes ServerContentShareMessage

unfoldable pub add :
    ℕ
    → Bytes
    → Bytes
    → ContentShareMessage
    → ContentShareState
    → Option ServerContentShareMessage × ContentShareState
add player_id sharer_uuid sharer_display_name message state =
    let server : ServerContentShareMessage = record {
      player_id = player_id;
      sharer_uuid = sharer_uuid;
      sharer_display_name = sharer_display_name;
      content_share_message = message;
    } in
    elim (lookup message.sphere_net_id state.spheres) [
      | some known ↦ (none, state)
      | none ↦ (some server, record { spheres = insert message.sphere_net_id server state.spheres })
    ]

unfoldable pub cleanup : ℕ → Bytes → ServerContentShareCleanupMessage
cleanup player_id id = record {
  player_id = player_id;
  content_share_cleanup_message = record { sphere_net_id = id };
}

-- `ContentShareState::remove`.
unfoldable pub remove_sphere :
    ℕ
    → ContentShareCleanupMessage
    → ContentShareState
    → Option ServerContentShareCleanupMessage × ContentShareState
unfolding cleanup
remove_sphere player_id message state = (
  elim (lookup message.sphere_net_id state.spheres) [
    | none ↦ none
    | some known ↦ some (cleanup player_id message.sphere_net_id)
  ],
  record { spheres = remove message.sphere_net_id state.spheres },
)

abbrev pub is_by : ℕ → ServerContentShareMessage → Bool
is_by player_id sphere = sphere.player_id == player_id

unfoldable pub remove_player :
    ℕ → ContentShareState → List ServerContentShareCleanupMessage × ContentShareState
unfolding cleanup keys_where remove_keys
remove_player player_id state =
    let keys = keys_where (is_by player_id) state.spheres in
    (map (cleanup player_id) keys, record { spheres = remove_keys keys state.spheres })

unfoldable pub all : ContentShareState → List ServerContentShareMessage
all state = map (λ (entry : Bytes × ServerContentShareMessage). entry.1) state.spheres

unfoldable pub reset : ContentShareState → ContentShareState
reset state = record { spheres = [] }

abbrev pub sphere_id : ServerContentShareCleanupMessage → Bytes
sphere_id m = m.content_share_cleanup_message.sphere_net_id

member-cleanups :
    (player_id : ℕ) (id : Bytes) (keys : List Bytes)
    → member id (map sphere_id (map (cleanup player_id) keys)) ≡ member id keys
unfolding member cleanup
member-cleanups player_id id [] = refl
member-cleanups player_id id (key ∷ keys) =
    ap (λ rest. ite (text_discrete key id) true rest) (member-cleanups player_id id keys)

-- `remove_player` takes exactly the spheres of the player, announces exactly these, and leaves the
-- others as they are.
pub spheres_of_player :
    (player_id : ℕ) (id : Bytes) (state : ContentShareState)
    → HasKeysOnce state.spheres
    → let own = holds_of (is_by player_id) (lookup id state.spheres) in
      let (messages, after) = remove_player player_id state in
      (lookup id after.spheres ≡ (if own then none else lookup id state.spheres))
      × (member id (map sphere_id messages) ≡ own)
unfolding remove_player cleanup
spheres_of_player player_id id state once =
    let keys = keys_where (is_by player_id) state.spheres in
    let own = member-keys_where (is_by player_id) id state.spheres once in
    (lookup-remove_keys keys id state.spheres ∙ rw own, member-cleanups player_id id keys ∙ own)
