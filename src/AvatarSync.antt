-- ===== src/AvatarSync.antt =====
-- What `AvatarSyncSystem` keeps of a player, and what comes in and goes:
-- BasisRustServer/crates/basis-server-core/src/avatar_sync.rs. A float is its bit pattern.
use basis_rust_server.Common.{
  ℕ, ◌+◌, ◌%◌, ◌^◌, Bool, List, [], ◌∷◌, length, take, Option, ltb, ◌==◌, if◌then◌else◌,
}
use basis_rust_server.Common.Maps.{Map, insert, remove, nat_key}
use basis_rust_server.Common.Words.{Bytes}
use basis_rust_server.Protocol.Avatar.{BitQuality, very_low, low, medium, high, payload_len}
use basis_rust_server.Protocol.Channels.{quality_from_channel}

pub record PreSerializedQuality : Type 0 where
  pub channel_small : ℕ
  pub channel_large : ℕ
  pub bytes_small : Bytes
  pub bytes_large : Bytes

pub record PlayerAvatarState : Type 0 where
  pub peer_id : ℕ
  pub position : List ℕ
  pub generation : ℕ
  pub last_inbound_sequence : ℕ
  pub outbound_sequence : ℕ
  pub has_received_first : Bool
  pub qualities : List (Option PreSerializedQuality)

pub record PendingAvatarUpdate : Type 0 where
  pub channel : ℕ
  pub payload : Bytes

pub record ReceiverTracking : Type 0 where
  pub last_seen_generation : ℕ
  pub last_sent : ℕ
  pub cached_quality_index : ℕ
  pub cached_interval_byte : ℕ
  pub cached_interval_ms : ℕ

pub record AvatarSyncSystem : Type 0 where
  pub states : Map ℕ PlayerAvatarState
  pub pending : Map ℕ PendingAvatarUpdate
  pub tracking : Map ℕ (Map ℕ ReceiverTracking)
  pub bundle_ratios : Map ℕ ℕ
  pub inbound_updates : ℕ

unfoldable pub quality_of_index : ℕ → BitQuality
quality_of_index index =
    if index == 0 then very_low else if index == 1 then low else if index == 2 then medium else high

pub data Upsert : Type 0 where
  upserted : AvatarSyncSystem → Upsert
  too_small : AvatarSyncSystem → Upsert

unfoldable pub upsert_from_channel_payload : ℕ → ℕ → Bytes → AvatarSyncSystem → Upsert
unfolding quality_of_index quality_from_channel payload_len
upsert_from_channel_payload peer_id channel payload system =
    let counted = record system { inbound_updates = (system.inbound_updates + 1) % 2 ^ 64 } in
    let expected = payload_len (quality_of_index (quality_from_channel channel)) in
    let update : PendingAvatarUpdate = record {
      channel = channel;
      payload = take (1 + expected) payload;
    } in
    if length payload == 0
    then upserted system
    else if ltb (length payload) (1 + expected)
    then too_small counted
    else upserted (record counted { pending = insert peer_id update system.pending })

-- Nobody tracks the peer any longer.
forget_sender : ℕ → Map ℕ (Map ℕ ReceiverTracking) → Map ℕ (Map ℕ ReceiverTracking)
forget_sender peer_id [] = []
forget_sender peer_id ((receiver, senders) ∷ rest) =
    (receiver, remove peer_id senders) ∷ forget_sender peer_id rest

unfoldable pub remove_avatar : ℕ → AvatarSyncSystem → AvatarSyncSystem
unfolding forget_sender
remove_avatar peer_id system = record system {
  states = remove peer_id system.states;
  pending = remove peer_id system.pending;
  tracking = forget_sender peer_id (remove peer_id system.tracking);
  bundle_ratios = remove peer_id system.bundle_ratios;
}
