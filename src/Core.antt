-- ===== src/Core.antt =====
-- The state of the server and how it reaches its peers:
-- BasisRustServer/crates/basis-server-core/src/lib.rs. A handler gives the state after it and what it
-- asks of the transport, in order, which the transport queues. The statistics are left out.
pub mod Admission
pub mod Leaving
pub mod Relays
pub mod Voice
pub mod Locks
pub mod Tables
use basis_rust_server.Common.{
  ℕ, Bool, true, List, [], ◌∷◌, map, Option, none, some, ◌==◌, not, ◌&&◌, ◌||◌, if◌then◌else◌,
}
use basis_rust_server.Common.Maps.{Map, nat_key, contains_key}
use basis_rust_server.Common.Words.{Bytes}
use basis_rust_server.Protocol.Io.{NetWriter, new_writer}
use basis_rust_server.Protocol.Io.Carries.{Write}
use basis_rust_server.Protocol.Messages.Players.{ClientMetaDataMessage}
use basis_rust_server.Protocol.Messages.Avatars.{ReadyMessage}
use basis_rust_server.Transport.Packet.{DeliveryMethod, Message}
use basis_rust_server.Transport.Handle.{TransportHandle}
use basis_rust_server.Transport.Handle.Ids.{recycle_peer_id}
use basis_rust_server.Transport.Handle.Sending.{send}
use basis_rust_server.P2p.{P2pBroker, Effect, is_offloaded}
use basis_rust_server.P2p.Steps.{run_effect}
use basis_rust_server.Resources.NetIds.{NetIdState}
use basis_rust_server.Resources.Ownership.{OwnershipState}
use basis_rust_server.Resources.Store.{ResourceState}
use basis_rust_server.Resources.Sharing.{ContentShareState}
use basis_rust_server.Resources.Cameras.{PipState}
use basis_rust_server.Permissions.{PermissionStore}
use basis_rust_server.Moderation.Locks.{GlobalState}
use basis_rust_server.AvatarSync.{AvatarSyncSystem}

pub record ConnectedPeer : Type 0 where
  pub id : ℕ
  pub metadata : ClientMetaDataMessage
  pub ready : ReadyMessage

pub record ServerState : Type 0 where
  pub authenticated_peers : Map ℕ ConnectedPeer
  pub pending_identity : Map ℕ ReadyMessage
  pub permissions : PermissionStore
  pub global_state : GlobalState
  pub resources : ResourceState
  pub net_ids : NetIdState
  pub ownership : OwnershipState
  pub content_share : ContentShareState
  pub pip : PipState
  pub voice_recipients : Map ℕ (List ℕ)
  pub avatar_sync : AvatarSyncSystem
  pub p2p_broker : P2pBroker

-- What is asked of the transport.
pub data Request : Type 0 where
  deliver : ℕ → Message → Request
  signal : Effect → Request
  recycle : ℕ → Request

unfoldable pub run_request : ℕ → Request → TransportHandle → TransportHandle
unfolding send run_effect recycle_peer_id
run_request now (deliver target m) handle = send now target m handle
run_request now (signal effect) handle = run_effect now effect handle
run_request now (recycle peer) handle = recycle_peer_id peer handle

unfoldable pub run_requests : ℕ → List Request → TransportHandle → TransportHandle
unfolding run_request
run_requests now [] handle = handle
run_requests now (r ∷ rs) handle = run_requests now rs (run_request now r handle)

abbrev pub is_authenticated : ServerState → ℕ → Bool
is_authenticated state id = contains_key id state.authenticated_peers

abbrev pub written : Write → Bytes
written write = NetWriter.bytes (write new_writer)

unfoldable pub is_p2p_offload_channel : ℕ → Bool
is_p2p_offload_channel channel =
    (channel == 3) || (channel == 40) || (channel == 4) || (channel == 15)

-- Whether `broadcast` reaches the peer.
unfoldable pub reaches : ServerState → ℕ → Option ℕ → ℕ → Bool
unfolding is_p2p_offload_channel is_offloaded
reaches state channel none target = true
reaches state channel (some sender) target =
    not (target == sender)
    && not (is_p2p_offload_channel channel && is_offloaded sender target state.p2p_broker)

unfoldable pub reached : (ℕ → Bool) → Map ℕ ConnectedPeer → List ℕ
reached test [] = []
reached test ((id, peer) ∷ peers) = if test id then id ∷ reached test peers else reached test peers

abbrev pub deliver_to : ℕ → DeliveryMethod → Bytes → List ℕ → List Request
deliver_to channel delivery payload targets =
    map
      (λ (target : ℕ).
        deliver target (record { channel = channel; delivery = delivery; payload = payload }))
      targets

unfoldable pub broadcast : ServerState → ℕ → DeliveryMethod → Bytes → Option ℕ → List Request
unfolding reaches reached
broadcast state channel delivery payload except =
    deliver_to channel delivery payload
      (reached (reaches state channel except) state.authenticated_peers)
