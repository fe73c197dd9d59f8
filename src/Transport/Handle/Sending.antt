-- ===== src/Transport/Handle/Sending.antt =====
-- Sending to a peer: `send`, `send_many_slices`, `try_send_many_bytes`,
-- `try_send_many_unreliable_bytes` and one round of `reliable_resend_loop`:
-- BasisRustServer/crates/basis-transport/src/lib.rs.
pub mod Delivered
pub mod FastPath
pub mod Routes
use basis_rust_server.Common.{
  ℕ, ◌+◌, ◌%◌, ◌^◌, List, [], ◌∷◌, ◌++◌, length, none, some, ltb, ◌&&◌, if◌then◌else◌,
}
use basis_rust_server.Common.Maps.{lookup, insert, nat_key}
use basis_rust_server.Common.Words.{Bytes, to_le_bytes}
use basis_rust_server.Transport.Address.{SocketAddr}
use basis_rust_server.Transport.Packet.{Message, is_reliable_delivery, header, unreliable, merged}
use basis_rust_server.Transport.Merge.{max_merged_packet_size, build_merged_datagrams}
use basis_rust_server.Transport.Peer.{
  PeerState, build_outbound_packet, record_pending_reliable, enqueue_reliable_payload,
}
use basis_rust_server.Transport.Handle.{TransportHandle, send_raw_to, try_send_raw_to}

-- A message that is queued, or the packet that goes out for it.
unfoldable pub build_one : ℕ → Message → PeerState → List Bytes × PeerState
unfolding build_outbound_packet record_pending_reliable enqueue_reliable_payload
    is_reliable_delivery
build_one now m state =
    let (built, after) = build_outbound_packet state m.channel m.delivery m.payload in
    if is_reliable_delivery m.delivery
    then ([], enqueue_reliable_payload m.channel m.delivery m.payload state)
    else (built.bytes ∷ [], record_pending_reliable now built after)

unfoldable pub build_all : ℕ → List Message → PeerState → List Bytes × PeerState
unfolding build_one
build_all now [] state = ([], state)
build_all now (m ∷ ms) state =
    let (packets, after) = build_one now m state in
    let (more, end) = build_all now ms after in (packets ++ more, end)

abbrev pub put_peer : ℕ → PeerState → TransportHandle → TransportHandle
put_peer id state handle = record handle { peers = insert id state handle.peers }

unfoldable pub send_all : SocketAddr → List Bytes → TransportHandle → TransportHandle
unfolding send_raw_to
send_all addr [] handle = handle
send_all addr (bytes ∷ more) handle = send_all addr more (send_raw_to bytes addr handle)

-- `send`, `send_many`, `send_many_bytes` and `send_many_slices`, of which the first sends one packet
-- as it is and the others join packets.
unfoldable pub send : ℕ → ℕ → Message → TransportHandle → TransportHandle
unfolding build_one send_all
send now id m handle = elim (lookup id handle.peers) [
  | none ↦ handle
  | some state ↦
      let (packets, after) = build_one now m state in
      send_all state.addr packets (put_peer id after handle)
]

unfoldable pub send_many : ℕ → ℕ → List Message → TransportHandle → TransportHandle
unfolding build_all send_all build_merged_datagrams
send_many now id [] handle = handle
send_many now id (m ∷ ms) handle = elim (lookup id handle.peers) [
  | none ↦ handle
  | some state ↦
      let (packets, after) = build_all now (m ∷ ms) state in
      send_all state.addr (build_merged_datagrams state.connection_number packets)
        (put_peer id after handle)
]

unfoldable pub try_send_all : SocketAddr → List Bytes → ℕ → TransportHandle → ℕ × TransportHandle
unfolding try_send_raw_to
try_send_all addr [] sent handle = (sent, handle)
try_send_all addr (bytes ∷ more) sent handle =
    let (taken, after) = try_send_raw_to bytes addr handle in
    try_send_all addr more (if taken then sent + 1 else sent) after

unfoldable pub try_send_many_bytes : ℕ → ℕ → List Message → TransportHandle → ℕ × TransportHandle
unfolding build_all try_send_all build_merged_datagrams
try_send_many_bytes now id [] handle = (0, handle)
try_send_many_bytes now id (m ∷ ms) handle = elim (lookup id handle.peers) [
  | none ↦ (0, handle)
  | some state ↦
      let (packets, after) = build_all now (m ∷ ms) state in
      try_send_all state.addr (build_merged_datagrams state.connection_number packets) 0
        (put_peer id after handle)
]

-- The loop of `try_send_many_unreliable_bytes`, which joins and sends in one pass.
pub record Direct : Type 0 where
  pub current : Bytes
  pub current_count : ℕ
  pub sent : ℕ
  pub handle : TransportHandle

unfoldable pub direct_packet : ℕ → ℕ × Bytes → Bytes
direct_packet connection_number (channel, payload) =
    header unreliable connection_number ∷ channel ∷ payload

unfoldable pub direct_send : SocketAddr → Bytes → Direct → Direct
unfolding try_send_raw_to
direct_send addr bytes d =
    let (taken, after) = try_send_raw_to bytes addr d.handle in
    record d { sent = if taken then d.sent + 1 else d.sent; handle = after }

abbrev pub empty_datagram : ℕ → Bytes
empty_datagram connection_number = header merged connection_number ∷ []

unfoldable pub direct_room : SocketAddr → ℕ → ℕ → Direct → Direct
unfolding direct_send
direct_room addr connection_number framed_len d =
    if ltb 0 d.current_count && ltb max_merged_packet_size (length d.current + framed_len)
    then record (direct_send addr d.current d) {
      current = empty_datagram connection_number;
      current_count = 0;
    }
    else d

unfoldable pub direct_append : ℕ → ℕ × Bytes → Direct → Direct
unfolding direct_packet
direct_append connection_number (channel, payload) d = record d {
  current =
      (d.current ++ to_le_bytes 2 ((length payload + 2) % 2 ^ 16))
      ++ direct_packet connection_number (channel, payload);
  current_count = d.current_count + 1;
}

unfoldable pub direct_step : SocketAddr → ℕ → ℕ × Bytes → Direct → Direct
unfolding direct_room direct_append direct_send direct_packet
direct_step addr connection_number (channel, payload) d =
    let framed_len = length payload + 2 + 2 in
    let ready = direct_room addr connection_number framed_len d in
    if ltb max_merged_packet_size (framed_len + 1)
    then direct_send addr (direct_packet connection_number (channel, payload)) ready
    else direct_append connection_number (channel, payload) ready

unfoldable pub direct_all : SocketAddr → ℕ → List (ℕ × Bytes) → Direct → Direct
unfolding direct_step
direct_all addr connection_number [] d = d
direct_all addr connection_number (p ∷ ps) d =
    direct_all addr connection_number ps (direct_step addr connection_number p d)

direct_end : SocketAddr → Direct → ℕ × TransportHandle
unfolding direct_send
direct_end addr d =
    let last = direct_send addr d.current d in
    if ltb 0 d.current_count then (last.sent, last.handle) else (d.sent, d.handle)

unfoldable pub try_send_many_unreliable_bytes :
    ℕ → List (ℕ × Bytes) → TransportHandle → ℕ × TransportHandle
unfolding direct_all direct_end direct_packet try_send_raw_to
try_send_many_unreliable_bytes id [] handle = (0, handle)
try_send_many_unreliable_bytes id (p ∷ []) handle = elim (lookup id handle.peers) [
  | none ↦ (0, handle)
  | some state ↦
      let (taken, after) =
        try_send_raw_to (direct_packet state.connection_number p) state.addr handle in
      (if taken then 1 else 0, after)
]
try_send_many_unreliable_bytes id (p ∷ q ∷ ps) handle = elim (lookup id handle.peers) [
  | none ↦ (0, handle)
  | some state ↦ direct_end state.addr (
      direct_all state.addr state.connection_number (p ∷ q ∷ ps) (record {
        current = empty_datagram state.connection_number;
        current_count = 0;
        sent = 0;
        handle = handle;
      }))
]
