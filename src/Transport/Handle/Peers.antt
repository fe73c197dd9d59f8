-- ===== src/Transport/Handle/Peers.antt =====
-- Peers come and go: `accept`, `reject`, `disconnect`, what a datagram does to the peer of its
-- address, and one round of `timeout_loop`: BasisRustServer/crates/basis-transport/src/lib.rs.
pub mod Linked
pub mod Timeouts
use basis_rust_server.Common.{
  ℕ, ◌-◌, ◌*◌, Bool, List, [], ◌∷◌, Option, none, some, ltb, not, if◌then◌else◌,
}
use basis_rust_server.Common.Maps.{lookup, insert, remove, nat_key, keys_where}
use basis_rust_server.Common.Words.{Bytes}
use basis_rust_server.Transport.Address.{SocketAddr, socket_addr_key}
use basis_rust_server.Transport.Packet.{shutdown_ok}
use basis_rust_server.Transport.Peer.{PeerState, disconnect_matches}
use basis_rust_server.Transport.Handle.{
  TransportHandle, ConnectionRequest, DisconnectReason, remote, timeout, peer_disconnected,
  send_raw_to, send_connect_accept, disconnect_packet, retire_peer_id, enqueue_event,
  send_simple_property,
}
use basis_rust_server.Transport.Handle.Ids.{allocate_peer_id}

unfoldable pub new_peer : ℕ → ℕ → ConnectionRequest → PeerState
new_peer now id request = record {
  id = id;
  addr = request.remote_addr;
  connection_number = request.connection_number;
  connect_time = request.connect_time;
  last_seen = now;
  last_ping_sent = now;
  next_ping_sequence = 0;
  next_reliable_sequence = [];
  next_sequenced_sequence = [];
  pending_reliable = [];
  outgoing_reliable = [];
  outgoing_acks = [];
}

abbrev pub forget_request : SocketAddr → TransportHandle → TransportHandle
forget_request addr handle = record handle {
  pending_requests = remove addr handle.pending_requests;
}

unfoldable pub add_peer : ℕ → ConnectionRequest → ℕ → TransportHandle → TransportHandle
unfolding new_peer
add_peer now request id handle = record handle {
  by_addr = insert request.remote_addr id handle.by_addr;
  peers = insert id (new_peer now id request) handle.peers;
}

accept_as : ℕ → ConnectionRequest → Option (ℕ × TransportHandle) → Option (ℕ × TransportHandle)
unfolding add_peer send_connect_accept
accept_as now request none = none
accept_as now request (some (id, handle)) = some (
  id,
  send_connect_accept request.remote_addr request.connection_number request.connect_time id
      (add_peer now request id handle),
)

unfoldable pub accept : ℕ → ConnectionRequest → TransportHandle → Option (ℕ × TransportHandle)
unfolding accept_as allocate_peer_id
accept now request handle =
    accept_as now request (allocate_peer_id (forget_request request.remote_addr handle))

unfoldable pub reject : ConnectionRequest → Bytes → TransportHandle → TransportHandle
unfolding send_raw_to disconnect_packet
reject request reason handle =
    send_raw_to (disconnect_packet request.connection_number request.connect_time reason)
      request.remote_addr (forget_request request.remote_addr handle)

-- A peer leaves both tables, and its id is retired.
unfoldable pub take_out : ℕ → PeerState → TransportHandle → TransportHandle
unfolding retire_peer_id
take_out id peer handle =
    retire_peer_id id
      (record handle { peers = remove id handle.peers; by_addr = remove peer.addr handle.by_addr })

unfoldable pub disconnect : ℕ → Bytes → TransportHandle → TransportHandle
unfolding take_out send_raw_to disconnect_packet
disconnect id reason handle = elim (lookup id handle.peers) [
  | none ↦ handle
  | some peer ↦
      send_raw_to (disconnect_packet peer.connection_number peer.connect_time reason) peer.addr
        (take_out id peer handle)
]

unfoldable pub drop_peer : ℕ → PeerState → DisconnectReason → TransportHandle → TransportHandle
unfolding take_out enqueue_event
drop_peer id peer reason handle =
    enqueue_event (peer_disconnected id reason) (take_out id peer handle)

-- The peer of an address changes its own state.
unfoldable pub update_peer_at :
    (PeerState → PeerState) → SocketAddr → TransportHandle → TransportHandle
update_peer_at change addr handle = elim (lookup addr handle.by_addr) [
  | none ↦ handle
  | some id ↦ elim (lookup id handle.peers) [
    | none ↦ handle
    | some peer ↦ record handle { peers = insert id (change peer) handle.peers }
  ]
]

abbrev pub see : ℕ → PeerState → PeerState
see now peer = record peer { last_seen = now }

-- The `Disconnect` arm of `process_packet`.
unfoldable pub remote_disconnect : SocketAddr → Bytes → ℕ → TransportHandle → TransportHandle
unfolding retire_peer_id enqueue_event send_simple_property disconnect_matches
remote_disconnect addr bytes connection_number handle = elim (lookup addr handle.by_addr) [
  | none ↦ handle
  | some id ↦
      let addrs = remove addr handle.by_addr in
      elim (lookup id handle.peers) [
        | none ↦ record handle { by_addr = addrs }
        | some peer ↦
            let peers = remove id handle.peers in
            if not (disconnect_matches peer bytes connection_number)
            then record handle { by_addr = insert addr id addrs; peers = insert id peer peers }
            else enqueue_event (peer_disconnected id remote) (
                send_simple_property addr shutdown_ok
                  (retire_peer_id id (record handle { by_addr = addrs; peers = peers })))
      ]
]

abbrev pub nanoseconds : ℕ → ℕ
nanoseconds ms = ms * 1000000

-- `now.duration_since(last_seen) > 30 s`.
unfoldable pub is_timed_out : ℕ → PeerState → Bool
is_timed_out now peer = ltb (nanoseconds 30000) (now - peer.last_seen)

unfoldable pub expire : List ℕ → TransportHandle → TransportHandle
unfolding drop_peer
expire [] handle = handle
expire (id ∷ ids) handle = elim (lookup id handle.peers) [
  | none ↦ expire ids handle
  | some peer ↦ expire ids (drop_peer id peer timeout handle)
]

-- One round of `timeout_loop`.
unfoldable pub timeout_round : ℕ → TransportHandle → TransportHandle
unfolding expire keys_where
timeout_round now handle = expire (keys_where (is_timed_out now) handle.peers) handle
