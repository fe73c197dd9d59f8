-- ===== src/Core/Leaving.antt =====
-- A peer that leaves: `handle_disconnect` and `broadcast_spawn_preloaded` of
-- BasisRustServer/crates/basis-server-core/src/lib.rs.
pub mod Gone
pub mod Spared
use basis_rust_server.Common.{
  ℕ, Bool, true, false, List, [], ◌∷◌, ◌++◌, map, Option, none, some, if◌then◌else◌,
}
use basis_rust_server.Common.Maps.{Map, remove, nat_key, contains_key}
use basis_rust_server.Protocol.Io.{put_u16}
use basis_rust_server.Protocol.Io.Carries.{Write}
use basis_rust_server.Protocol.Messages.Objects.{
  serialize_spawn_preloaded_message, serialize_ownership_transfer_message,
  serialize_unload_resource,
}
use basis_rust_server.Protocol.Messages.Sharing.{serialize_server_content_share_cleanup_message}
use basis_rust_server.Protocol.Messages.Cameras.{
  serialize_camera_pip_state_message, CameraPipStateMessage,
}
use basis_rust_server.Transport.Packet.{reliable_ordered}
use basis_rust_server.P2p.Steps.{remove_peer}
use basis_rust_server.Resources.NetIds
use basis_rust_server.Resources.Ownership
use basis_rust_server.Resources.Store.{reset_non_persistent}
use basis_rust_server.Resources.Preload.{remove_preload_peer}
use basis_rust_server.Resources.Sharing
use basis_rust_server.Resources.Cameras.{remove_camera}
use basis_rust_server.Resources.Cameras
use basis_rust_server.AvatarSync.{remove_avatar}
use basis_rust_server.Core.{
  ConnectedPeer, ServerState, Request, signal, recycle, broadcast, written,
}

abbrev pub Handled : Type 0
Handled = List Request × ServerState

-- A broadcast of each message, on a channel, to all but `except`.
unfoldable pub announce :
    {A : Type 0} → ServerState → ℕ → (A → Write) → Option ℕ → List A → List Request
unfolding broadcast
announce state channel serialize except [] = []
announce state channel serialize except (message ∷ messages) =
    broadcast state channel reliable_ordered (written (serialize message)) except
    ++ announce state channel serialize except messages

farewell_list : Option CameraPipStateMessage → List CameraPipStateMessage
farewell_list none = []
farewell_list (some message) = message ∷ []

-- The tables that the peer has a part in, whether it was authenticated or not.
unfoldable pub release : ℕ → ServerState → Handled
unfolding remove_peer remove_avatar Ownership.remove_player Sharing.remove_player remove_camera
    announce farewell_list
release peer state =
    let (broker, effects) = remove_peer peer state.p2p_broker in
    let (objects, ownership) = Ownership.remove_player peer state.ownership in
    let (spheres, content_share) = Sharing.remove_player peer state.content_share in
    let (camera, pip) = remove_camera peer state.pip in
    let after = record state {
      p2p_broker = broker;
      pending_identity = remove peer state.pending_identity;
      voice_recipients = remove peer state.voice_recipients;
      avatar_sync = remove_avatar peer state.avatar_sync;
      ownership = ownership;
      content_share = content_share;
      pip = pip;
    } in
    (
      map signal effects
          ++ announce after 21 serialize_ownership_transfer_message (some peer) objects
          ++ announce after 30 serialize_server_content_share_cleanup_message (some peer) spheres
          ++ announce after 36 serialize_camera_pip_state_message (some peer)
              (farewell_list camera),
      after,
    )

-- Nobody is left.
unfoldable pub empty_server : ServerState → Handled
unfolding reset_non_persistent announce NetIds.reset Ownership.reset Sharing.reset Cameras.reset
empty_server state =
    let (unloads, resources) = reset_non_persistent state.resources in
    (
      announce state 26 serialize_unload_resource none unloads,
      record state {
        resources = resources;
        net_ids = NetIds.reset state.net_ids;
        ownership = Ownership.reset state.ownership;
        content_share = Sharing.reset state.content_share;
        pip = Cameras.reset state.pip;
      },
    )

unfoldable pub is_empty_server : Map ℕ ConnectedPeer → Bool
is_empty_server [] = true
is_empty_server (entry ∷ peers) = false

-- What follows for a peer that was authenticated.
unfoldable pub leave : ℕ → ServerState → Handled
unfolding remove_preload_peer announce broadcast empty_server is_empty_server
leave peer state =
    let without = record state { authenticated_peers = remove peer state.authenticated_peers } in
    let (spawns, resources) = remove_preload_peer peer without.resources in
    let after = record without { resources = resources } in
    let (resets, final) =
      if is_empty_server after.authenticated_peers then empty_server after else ([], after) in
    (
      announce after 28 serialize_spawn_preloaded_message none spawns
          ++ broadcast after 2 reliable_ordered (written (put_u16 peer)) (some peer)
          ++ resets,
      final,
    )

unfoldable pub handle_disconnect : ℕ → ServerState → Handled
unfolding release leave
handle_disconnect peer state =
    let (released, after) = release peer state in
    let (left, final) =
      if contains_key peer after.authenticated_peers then leave peer after else ([], after) in
    (released ++ left ++ (recycle peer ∷ []), final)
