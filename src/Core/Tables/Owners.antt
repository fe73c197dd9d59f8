-- ===== src/Core/Tables/Owners.antt =====
-- The arms of `handle_message` for the owners of objects, shared content and cameras:
-- BasisRustServer/crates/basis-server-core/src/lib.rs.
use basis_rust_server.Common.{ℕ, List, [], ◌∷◌, Option, none, some, if◌then◌else◌}
use basis_rust_server.Common.Maps.{lookup, nat_key, text_key}
use basis_rust_server.Common.Words.{Bytes}
use basis_rust_server.Protocol.Io.{Result}
use basis_rust_server.Protocol.Io.Carries.{Write}
use basis_rust_server.Protocol.Messages.Objects.{
  OwnershipTransferMessage, serialize_ownership_transfer_message,
  deserialize_ownership_transfer_message,
}
use basis_rust_server.Protocol.Messages.Sharing.{
  ContentShareMessage, deserialize_content_share_message, serialize_server_content_share_message,
  ContentShareCleanupMessage, deserialize_content_share_cleanup_message,
  serialize_server_content_share_cleanup_message,
}
use basis_rust_server.Protocol.Messages.Cameras.{
  ClientCameraPipStateMessage, deserialize_client_camera_pip_state_message,
  serialize_camera_pip_state_message, ClientCameraPipPositionMessage,
  deserialize_client_camera_pip_position_message, serialize_camera_pip_position_message,
  CameraPipPositionMessage,
}
use basis_rust_server.Transport.Packet.{reliable_ordered, sequenced}
use basis_rust_server.Resources.Ownership.{
  request_new_or_existing, switch_ownership, remove_if_owner,
}
use basis_rust_server.Resources.Sharing
use basis_rust_server.Resources.Cameras.{state_change, position_update}
use basis_rust_server.Core.{ServerState, Request, deliver_to, broadcast, written}
use basis_rust_server.Core.Leaving.{Handled}
use basis_rust_server.Core.Locks.{content_locked}
use basis_rust_server.Core.Tables.{reading, tell}

current_owner : ServerState → ℕ → OwnershipTransferMessage → Handled
unfolding request_new_or_existing
current_owner state peer m =
    let (owner, ownership) = request_new_or_existing m.ownership_id m.player_id state.ownership in
    let response : OwnershipTransferMessage = record {
      player_id = owner;
      ownership_id = m.ownership_id;
    } in
    (
      deliver_to 19 reliable_ordered (written (serialize_ownership_transfer_message response))
          (peer ∷ []),
      record state { ownership = ownership },
    )

unfoldable pub receive_owner_request : ℕ → Bytes → ServerState → Result Handled
unfolding current_owner
receive_owner_request peer payload state =
    reading deserialize_ownership_transfer_message payload (current_owner state peer)

change_owner : ServerState → ℕ → OwnershipTransferMessage → Handled
unfolding switch_ownership broadcast
change_owner state peer m =
    let (owner, ownership) = switch_ownership m.ownership_id peer state.ownership in
    let response : OwnershipTransferMessage = record {
      player_id = owner;
      ownership_id = m.ownership_id;
    } in
    let after = record state { ownership = ownership } in
    (tell after 20 serialize_ownership_transfer_message response none, after)

unfoldable pub receive_owner_change : ℕ → Bytes → ServerState → Result Handled
unfolding change_owner
receive_owner_change peer payload state =
    reading deserialize_ownership_transfer_message payload (change_owner state peer)

remove_owner : ServerState → OwnershipTransferMessage → Handled
unfolding remove_if_owner broadcast
remove_owner state m =
    let (removed, ownership) = remove_if_owner m.ownership_id m.player_id state.ownership in
    let after = record state { ownership = ownership } in
    (if removed then tell after 21 serialize_ownership_transfer_message m none else [], after)

unfoldable pub receive_owner_removal : Bytes → ServerState → Result Handled
unfolding remove_owner
receive_owner_removal payload state =
    reading deserialize_ownership_transfer_message payload (remove_owner state)

-- What a change of a table has to tell, if anything.
told : {M : Type 0} → ServerState → ℕ → (M → Write) → Option M → List Request
unfolding broadcast
told state channel serialize none = []
told state channel serialize (some m) = tell state channel serialize m none

unfoldable pub share : ServerState → ℕ → ContentShareMessage → Handled
unfolding content_locked Sharing.add told
share state peer m = elim (lookup peer state.authenticated_peers) [
  | none ↦ ([], state)
  | some p ↦
      let (shared, content_share) =
        Sharing.add peer p.metadata.player_uuid p.metadata.player_display_name m
          state.content_share in
      let after = record state { content_share = content_share } in
      if content_locked state m.content_type peer
      then ([], state)
      else (told after 29 serialize_server_content_share_message shared, after)
]

unfoldable pub receive_content_share : ℕ → Bytes → ServerState → Result Handled
unfolding share
receive_content_share peer payload state =
    reading deserialize_content_share_message payload (share state peer)

cleanup : ServerState → ℕ → ContentShareCleanupMessage → Handled
unfolding Sharing.remove_sphere told
cleanup state peer m =
    let (removed, content_share) = Sharing.remove_sphere peer m state.content_share in
    let after = record state { content_share = content_share } in
    (told after 30 serialize_server_content_share_cleanup_message removed, after)

unfoldable pub receive_content_cleanup : ℕ → Bytes → ServerState → Result Handled
unfolding cleanup
receive_content_cleanup peer payload state =
    reading deserialize_content_share_cleanup_message payload (cleanup state peer)

camera_state : ServerState → ℕ → ClientCameraPipStateMessage → Handled
unfolding state_change broadcast
camera_state state peer m =
    let (response, pip) = state_change peer m state.pip in
    let after = record state { pip = pip } in
    (tell after 36 serialize_camera_pip_state_message response (some peer), after)

unfoldable pub receive_camera_state : ℕ → Bytes → ServerState → Result Handled
unfolding camera_state
receive_camera_state peer payload state =
    reading deserialize_client_camera_pip_state_message payload (camera_state state peer)

moved : ServerState → ℕ → Option CameraPipPositionMessage → List Request
unfolding broadcast
moved state peer none = []
moved state peer (some m) =
    broadcast state 37 sequenced (written (serialize_camera_pip_position_message m)) (some peer)

camera_position : ServerState → ℕ → ClientCameraPipPositionMessage → Handled
unfolding position_update moved
camera_position state peer m =
    let (response, pip) = position_update peer m state.pip in
    let after = record state { pip = pip } in (moved after peer response, after)

unfoldable pub receive_camera_position : ℕ → Bytes → ServerState → Result Handled
unfolding camera_position
receive_camera_position peer payload state =
    reading deserialize_client_camera_pip_position_message payload (camera_position state peer)
