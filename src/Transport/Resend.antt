-- ===== src/Transport/Resend.antt =====
-- One round of `reliable_resend_loop`: BasisRustServer/crates/basis-transport/src/lib.rs.
pub mod Window
pub mod Order
use basis_rust_server.Common.{
  ℕ, ◌+◌, ◌-◌, ◌%◌, ◌^◌, Bool, List, [], ◌∷◌, ◌++◌, map, take, drop, ℕ_discrete, leb, ◌==◌,
  if◌then◌else◌,
}
use basis_rust_server.Common.Maps.{Key, Map, lookup, insert, nat_key}
use basis_rust_server.Common.Words.{Bytes}
use basis_rust_server.Transport.Address.{SocketAddr, socket_addr_key}
use basis_rust_server.Transport.Merge.{build_merged_datagrams}
use basis_rust_server.Transport.Acks.{AckState, build_ack_packet, default_window_size}
use basis_rust_server.Transport.Peer.{
  PeerState, PendingReliable, PendingReliableKey, pending_key, or_default,
  build_queued_reliable_packet, record_pending_reliable,
}
use basis_rust_server.Transport.Handle.{TransportHandle, build_ping_packet}
use basis_rust_server.Transport.Handle.Peers.{nanoseconds}
use basis_rust_server.Transport.Handle.Sending.{send_all}

-- A peer is pinged every 1.5 s.
unfoldable pub ping_peer : ℕ → PeerState → List Bytes × PeerState
unfolding build_ping_packet
ping_peer now state =
    if leb (nanoseconds 1500) (now - state.last_ping_sent)
    then (
      build_ping_packet state.connection_number state.next_ping_sequence ∷ [],
      record state {
        last_ping_sent = now;
        next_ping_sequence = (state.next_ping_sequence + 1) % 2 ^ 16;
      },
    )
    else ([], state)

ack_packet : ℕ → ℕ × AckState → Bytes
unfolding build_ack_packet
ack_packet connection_number (channel_id, state) =
    build_ack_packet connection_number channel_id state

-- `acks.drain()`.
unfoldable pub drain_acks : PeerState → List Bytes × PeerState
unfolding ack_packet
drain_acks state = (
  map (ack_packet state.connection_number) state.outgoing_acks,
  record state { outgoing_acks = [] },
)

-- `pending_by_channel`.
unfoldable pub pending_count : ℕ → Map PendingReliableKey PendingReliable → ℕ
pending_count channel [] = 0
pending_count channel ((pending_key channel_id sequence, item) ∷ pending) =
    (if channel_id == channel then 1 else 0) + pending_count channel pending

unfoldable pub capacity : ℕ → Map PendingReliableKey PendingReliable → ℕ
unfolding pending_count
capacity channel_id pending = default_window_size - pending_count channel_id pending

tag : ℕ → Bytes → ℕ × Bytes
tag channel_id payload = (channel_id, payload)

-- Takes from the front of every queue as many payloads as its channel has room for.
unfoldable pub newly_queued :
    Map PendingReliableKey PendingReliable → Map ℕ (List Bytes) → List (ℕ × Bytes)
unfolding capacity tag
newly_queued pending [] = []
newly_queued pending ((channel_id, queue) ∷ outgoing) =
    map (tag channel_id) (take (capacity channel_id pending) queue) ++ newly_queued pending outgoing

unfoldable pub still_queued :
    Map PendingReliableKey PendingReliable → Map ℕ (List Bytes) → Map ℕ (List Bytes)
unfolding capacity
still_queued pending [] = []
still_queued pending ((channel_id, queue) ∷ outgoing) =
    (channel_id, drop (capacity channel_id pending) queue) ∷ still_queued pending outgoing

unfoldable pub send_queued : ℕ → List (ℕ × Bytes) → PeerState → List Bytes × PeerState
unfolding build_queued_reliable_packet record_pending_reliable
send_queued now [] state = ([], state)
send_queued now ((channel_id, payload) ∷ queued) state =
    let (built, after) = build_queued_reliable_packet state channel_id payload in
    let (packets, end) = send_queued now queued (record_pending_reliable now built after) in
    (built.bytes ∷ packets, end)

-- What waited for 150 ms goes out again.
is_due : ℕ → PendingReliable → Bool
is_due now item = leb (nanoseconds 150) (now - item.last_sent)

unfoldable pub resent :
    ℕ → Map PendingReliableKey PendingReliable → List Bytes × Map PendingReliableKey PendingReliable
unfolding is_due
resent now [] = ([], [])
resent now ((key, item) ∷ pending) =
    let (packets, rest) = resent now pending in
    if is_due now item
    then (item.bytes ∷ packets, (key, record item { last_sent = now }) ∷ rest)
    else (packets, (key, item) ∷ rest)

unfoldable pub resend_peer : ℕ → PeerState → List Bytes × PeerState
unfolding ping_peer drain_acks newly_queued still_queued send_queued resent
resend_peer now state =
    let (pings, pinged) = ping_peer now state in
    let (acks, drained) = drain_acks pinged in
    let queued = newly_queued drained.pending_reliable drained.outgoing_reliable in
    let (packets, sent) = send_queued now queued (record drained {
      outgoing_reliable = still_queued drained.pending_reliable drained.outgoing_reliable;
    }) in
    let (again, pending) = resent now sent.pending_reliable in
    (((pings ++ acks) ++ packets) ++ again, record sent { pending_reliable = pending })

-- The destination of a datagram, by which the packets of a round are gathered.
pub data Destination : Type 0 where
  destination : SocketAddr → ℕ → Destination

Destination-discrete : Discrete Destination
Destination-discrete = hlevel ℕ_discrete

instance abbrev destination_key : Key Destination
destination_key = record { same = Destination-discrete }

gather : Destination → List Bytes → Map Destination (List Bytes) → Map Destination (List Bytes)
gather to [] by_peer = by_peer
gather to (bytes ∷ sends) by_peer =
    gather to sends (insert to (or_default [] (lookup to by_peer) ++ (bytes ∷ [])) by_peer)

resend_peers :
    ℕ
    → Map ℕ PeerState
    → Map Destination (List Bytes)
    → Map ℕ PeerState × Map Destination (List Bytes)
unfolding resend_peer gather
resend_peers now [] by_peer = ([], by_peer)
resend_peers now ((id, state) ∷ peers) by_peer =
    let (sends, after) = resend_peer now state in
    let (rest, all) =
      resend_peers now peers
        (gather (destination state.addr state.connection_number) sends by_peer) in
    ((id, after) ∷ rest, all)

send_gathered : Map Destination (List Bytes) → TransportHandle → TransportHandle
unfolding send_all build_merged_datagrams
send_gathered [] handle = handle
send_gathered ((destination addr connection_number, packets) ∷ by_peer) handle =
    send_gathered by_peer (send_all addr (build_merged_datagrams connection_number packets) handle)

unfoldable pub resend_round : ℕ → TransportHandle → TransportHandle
unfolding resend_peers send_gathered
resend_round now handle =
    let (peers, by_peer) = resend_peers now handle.peers [] in
    send_gathered by_peer (record handle { peers = peers })
