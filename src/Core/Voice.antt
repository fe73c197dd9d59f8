-- ===== src/Core/Voice.antt =====
-- Who hears whom: `update_voice_recipients`, `update_voice_recipients_bitfield`, `relay_voice_message` and
-- `relay_shout_voice_message` of BasisRustServer/crates/basis-server-core/src/lib.rs. What cannot be read
-- is an error, and the caller then keeps the state.
pub mod Heard
pub mod Bitfield
use basis_rust_server.Common.{
  ℕ, zero, suc, ◌+◌, ◌%◌, ◌/◌, ◌^◌, Bool, List, [], ◌∷◌, ◌++◌, length, take, drop, none, some, ltb,
  leb, ◌==◌, not, ◌&&◌, if◌then◌else◌,
}
use basis_rust_server.Common.Maps.{lookup, insert, member, nat_key}
use basis_rust_server.Common.Words.{Bytes, from_le_bytes}
use basis_rust_server.Protocol.Io.{Result, ok, err, new_reader}
use basis_rust_server.Protocol.Messages.Talk.{
  deserialize_voice_receivers_message, ServerAudioSegmentMessage, serialize_with_id_size,
}
use basis_rust_server.Transport.Packet.{unreliable_delivery}
use basis_rust_server.P2p.{is_offloaded}
use basis_rust_server.Core.{
  ServerState, Request, is_authenticated, reached, deliver_to, broadcast, written,
}

unfoldable pub keep_ids : (ℕ → Bool) → List ℕ → List ℕ
keep_ids test [] = []
keep_ids test (id ∷ ids) = if test id then id ∷ keep_ids test ids else keep_ids test ids

unfoldable pub listen : ℕ → Bool → List ℕ → ServerState → List ℕ
unfolding reached keep_ids member
listen peer inverted users state =
    if inverted
    then reached (λ id. not (id == peer) && not (member id users)) state.authenticated_peers
    else keep_ids (λ id. not (id == peer) && is_authenticated state id) users

unfoldable pub update_voice_recipients : ℕ → Bytes → Bool → Bool → ServerState → Result ServerState
unfolding listen
update_voice_recipients peer payload large_count inverted state =
    elim (deserialize_voice_receivers_message large_count (new_reader payload)) [
      | err e ↦ err e
      | ok (users, r) ↦ ok (record state {
        voice_recipients = insert peer (listen peer inverted users state) state.voice_recipients;
      })
    ]

-- The bits that are set in a byte, from the lowest one, as many as are left.
unfoldable pub bits_of : ℕ → ℕ → ℕ → List ℕ
bits_of zero byte id = []
bits_of (suc left) byte id =
    let rest = bits_of left (byte / 2) (id + 1) in
    if byte % 2 == 1 then id % 2 ^ 16 ∷ rest else rest

unfoldable pub ids_of_bytes : ℕ → Bytes → List ℕ
unfolding bits_of
ids_of_bytes base_id [] = []
ids_of_bytes base_id (byte ∷ bytes) = bits_of 8 byte base_id ++ ids_of_bytes (base_id + 8) bytes

unfoldable pub update_voice_recipients_bitfield : ℕ → Bytes → ServerState → ServerState
unfolding ids_of_bytes keep_ids
update_voice_recipients_bitfield peer payload state =
    let byte_count = from_le_bytes (take 2 payload) in
    let ids = ids_of_bytes 0 (take byte_count (drop 2 payload)) in
    if ltb (length payload) 2
    then state
    else if ltb (length payload) (2 + byte_count)
    then state
    else record state {
      voice_recipients =
          insert peer (keep_ids (λ id. not (id == peer) && is_authenticated state id) ids)
            state.voice_recipients;
    }

segment : ℕ → Bytes → ServerAudioSegmentMessage
segment peer payload = record { player_id = peer; audio_segment = payload }

unfoldable pub relay_voice_message : ServerState → ℕ → Bytes → List Request
unfolding keep_ids segment serialize_with_id_size is_offloaded
relay_voice_message state peer payload = elim (lookup peer state.voice_recipients) [
  | none ↦ []
  | some recipients ↦
      let large_id = not (leb peer 255) in
      deliver_to (if large_id then 40 else 3) unreliable_delivery
        (written (serialize_with_id_size large_id (segment peer payload)))
        (keep_ids (λ id. not (is_offloaded peer id state.p2p_broker)) recipients)
]

unfoldable pub relay_shout_voice_message : ServerState → ℕ → Bytes → List Request
unfolding segment serialize_with_id_size broadcast
relay_shout_voice_message state peer payload =
    let large_id = not (leb peer 255) in
    broadcast state (if large_id then 40 else 4) unreliable_delivery
      (written (serialize_with_id_size large_id (segment peer payload))) (some peer)
