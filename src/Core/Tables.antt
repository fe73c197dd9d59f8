-- ===== src/Core/Tables.antt =====
-- The arms of `handle_message` for chat, avatars and the ids of names:
-- BasisRustServer/crates/basis-server-core/src/lib.rs. What cannot be read is an error that leaves the
-- state as it was.
pub mod Loads
pub mod Owners
use basis_rust_server.Common.{
  ℕ, Bool, true, false, List, [], ◌∷◌, Option, none, some, not, ◌&&◌, if◌then◌else◌,
}
use basis_rust_server.Common.Maps.{lookup, insert, nat_key, text_key, contains_key}
use basis_rust_server.Common.Words.{Bytes}
use basis_rust_server.Protocol.Io.{Result, ok, err, Read, new_reader}
use basis_rust_server.Protocol.Io.Carries.{Write}
use basis_rust_server.Protocol.Messages.Players.{
  ClientAvatarChangeMessage, deserialize_client_avatar_change_message, ServerAvatarChangeMessage,
  serialize_server_avatar_change_message, NetIdMessage, deserialize_net_id_message,
  ServerNetIdMessage, serialize_server_net_id_message,
}
use basis_rust_server.Protocol.Messages.Talk.{
  ChatMessage, deserialize_chat_message, ServerChatMessage, serialize_server_chat_message,
}
use basis_rust_server.Transport.Packet.{reliable_ordered}
use basis_rust_server.Resources.NetIds.{add_or_find}
use basis_rust_server.Resources.Sharing
use basis_rust_server.Core.{ConnectedPeer, ServerState, Request, deliver_to, broadcast, written}
use basis_rust_server.Core.Leaving.{Handled}
use basis_rust_server.Core.Locks.{has_protection_permission}

-- `M::deserialize(&mut reader)?` and what follows.
abbrev pub reading : {M : Type 0} → Read M → Bytes → (M → Handled) → Result Handled
reading read payload handle = elim (read (new_reader payload)) [
  | err e ↦ err e
  | ok (m, r) ↦ ok (handle m)
]

-- Serialised and sent to all but `except`, in order and without loss.
abbrev pub tell : {M : Type 0} → ServerState → ℕ → (M → Write) → M → Option ℕ → List Request
tell state channel serialize m except =
    broadcast state channel reliable_ordered (written (serialize m)) except

chat : ServerState → ℕ → ChatMessage → Handled
unfolding broadcast
chat state peer m =
    let message : ServerChatMessage = record { player_id = peer; chat_message = m } in
    (tell state 18 serialize_server_chat_message message none, state)

unfoldable pub receive_chat : ℕ → Bytes → ServerState → Result Handled
unfolding chat
receive_chat peer payload state = reading deserialize_chat_message payload (chat state peer)

dressed : ℕ → ClientAvatarChangeMessage → Option ConnectedPeer → ServerState → ServerState
dressed peer m none state = state
dressed peer m (some p) state = record state {
  authenticated_peers =
      insert peer (record p { ready = record p.ready { client_avatar_change_message = m } })
        state.authenticated_peers;
}

change_avatar : ServerState → ℕ → ClientAvatarChangeMessage → Handled
unfolding broadcast has_protection_permission dressed
change_avatar state peer m =
    let after = dressed peer m (lookup peer state.authenticated_peers) state in
    let message : ServerAvatarChangeMessage = record {
      player_id = peer;
      client_avatar_change_message = m;
    } in
    if state.global_state.avatars_locked && not (has_protection_permission state peer)
    then ([], state)
    else (tell after 14 serialize_server_avatar_change_message message (some peer), after)

unfoldable pub receive_avatar_change : ℕ → Bytes → ServerState → Result Handled
unfolding change_avatar
receive_avatar_change peer payload state =
    reading deserialize_client_avatar_change_message payload (change_avatar state peer)

is_empty_name : Bytes → Bool
is_empty_name [] = true
is_empty_name (b ∷ bs) = false

unfoldable pub assign_net_id : ServerState → ℕ → NetIdMessage → Handled
unfolding broadcast is_empty_name add_or_find
assign_net_id state peer m =
    let existed = contains_key m.player_id state.net_ids.by_name in
    let (id, net_ids) = add_or_find m.player_id state.net_ids in
    let after = record state { net_ids = net_ids } in
    let message : ServerNetIdMessage = record {
      net_id_message = m;
      ushort_unique_id_message = record { unique_id_ushort = id };
    } in
    if is_empty_name m.player_id
    then ([], state)
    else if existed
    then (
      deliver_to 22 reliable_ordered (written (serialize_server_net_id_message message))
          (peer ∷ []),
      after,
    )
    else (tell after 22 serialize_server_net_id_message message none, after)

unfoldable pub receive_net_id : ℕ → Bytes → ServerState → Result Handled
unfolding assign_net_id
receive_net_id peer payload state =
    reading deserialize_net_id_message payload (assign_net_id state peer)
