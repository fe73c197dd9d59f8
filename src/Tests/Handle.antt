-- ===== src/Tests/Handle.antt =====
-- The transport's handle at concrete inputs.
use basis_rust_server.Common.{
  ℕ, ◌≤◌, ◌≡◌, ◌≢◌, refl, List, [], ◌∷◌, ◌++◌, concat, map, arith, none, some, if◌then◌else◌,
}
use basis_rust_server.Common.Maps.{Map, lookup, nat_key, holds_of}
use basis_rust_server.Common.Words.{Bytes}
use basis_rust_server.Transport.Address.{SocketAddr, v4, socket_addr, socket_addr_key}
use basis_rust_server.Transport.Packet.{Message, reliable_ordered, sequenced, unreliable_delivery}
use basis_rust_server.Transport.Merge.Unmerge.{unmerge}
use basis_rust_server.Transport.Peer.{PeerState, PendingReliable, PendingReliableKey}
use basis_rust_server.Transport.Handle.{TransportHandle, ConnectionRequest, bind}
use basis_rust_server.Transport.Handle.Ids.{allocate_peer_id, Allocates, allocate_peer_id-free}
use basis_rust_server.Transport.Handle.Peers.{new_peer, accept, is_timed_out, timeout_round}
use basis_rust_server.Transport.Handle.Peers.Linked.{IsLinked, accept-IsLinked}
use basis_rust_server.Transport.Handle.Peers.Timeouts.{timeout_round_lem}
use basis_rust_server.Transport.Handle.Sending.{
  send_many, try_send_many_bytes, try_send_many_unreliable_bytes,
}
use basis_rust_server.Transport.Handle.Sending.Delivered.{received, at_once, send_many-received}
use basis_rust_server.Transport.Handle.Sending.FastPath.{to_addr}
use basis_rust_server.Transport.Handle.Sending.Routes.{
  as_message, try_send_many_unreliable_bytes-try_send_many_bytes,
}
use basis_rust_server.Transport.Resend.{pending_count, ping_peer, drain_acks, resent, resend_peer}
use basis_rust_server.Transport.Resend.Window.{resend_peer-bounds}
use basis_rust_server.Transport.Resend.Order.{packet_of, InOrder, resend_peer-order}
use basis_rust_server.Transport.Dispatch.{process_packet, receive_datagram}
use basis_rust_server.Transport.Dispatch.Fuel.{process_packet-enough}
use basis_rust_server.Transport.Dispatch.Linked.{receive_datagram-IsLinked}
use basis_rust_server.Tests.Transport.{peer}

abbrev pub home : SocketAddr
home = socket_addr (v4 (127 ∷ 0 ∷ 0 ∷ 1 ∷ [])) 4296

abbrev pub far : SocketAddr
far = socket_addr (v4 (10 ∷ 0 ∷ 0 ∷ 9 ∷ [])) 700

abbrev nobody : TransportHandle
nobody = bind []

abbrev one_peer : TransportHandle
one_peer = record (bind []) { peers = (3, peer) ∷ []; by_addr = (home, 3) ∷ []; next_peer_id = 4 }

one_peer-IsLinked : IsLinked one_peer
unfolding lookup
one_peer-IsLinked = record {
  of_peer = λ id p e. ground arith;
  of_addr = λ addr id e. (peer, ground arith, ground arith);
}

abbrev request : ConnectionRequest
request = record {
  remote_addr = far;
  payload = [];
  connection_number = 2;
  connect_time = 9;
  local_peer_id = 0;
}

allocate_peer_id-free_example :
    (id : ℕ) × (handle' : TransportHandle) × (allocate_peer_id one_peer ≡ some (id, handle'))
    × Allocates one_peer handle' id
allocate_peer_id-free_example = allocate_peer_id-free one_peer (omega arith) (omega arith)

accept-IsLinked_example :
    (id : ℕ) × (handle' : TransportHandle) × (accept 70 request one_peer ≡ some (id, handle'))
    × (lookup id one_peer.peers ≡ none)
    × (lookup id handle'.peers ≡ some (new_peer 70 id request))
    × (lookup far handle'.by_addr ≡ some id)
    × ((j : ℕ) → id ≢ j → lookup j handle'.peers ≡ lookup j one_peer.peers)
    × ((addr : SocketAddr)
        → far ≢ addr
        → lookup addr handle'.by_addr ≡ lookup addr one_peer.by_addr)
    × IsLinked handle'
unfolding lookup
accept-IsLinked_example =
    accept-IsLinked 70 request one_peer (omega arith) (omega arith) (ground arith) one_peer-IsLinked

timeout_round_lem_example :
    IsLinked (timeout_round 40000000000 one_peer)
    × ((id : ℕ)
        → lookup id (timeout_round 40000000000 one_peer).peers ≡ (
            if holds_of (is_timed_out 40000000000) (lookup id one_peer.peers)
            then none
            else lookup id one_peer.peers))
unfolding lookup
timeout_round_lem_example = timeout_round_lem 40000000000 one_peer (refl, tt) one_peer-IsLinked

-- A ping in a joined datagram in a joined datagram.
abbrev nested : Bytes
nested = 12 ∷ 6 ∷ 0 ∷ 12 ∷ 3 ∷ 0 ∷ 3 ∷ 1 ∷ 0 ∷ []

process_packet-enough_example :
    process_packet 9 (record { now = 5; utc_ticks = 8 }) home nested one_peer
    ≡ process_packet 12 (record { now = 5; utc_ticks = 8 }) home nested one_peer
process_packet-enough_example =
    process_packet-enough 9 12 (record { now = 5; utc_ticks = 8 }) home nested one_peer
      (omega arith) (omega arith)

receive_datagram-IsLinked_example :
    IsLinked (receive_datagram (record { now = 5; utc_ticks = 8 }) home nested one_peer)
receive_datagram-IsLinked_example =
    receive_datagram-IsLinked (record { now = 5; utc_ticks = 8 }) home nested one_peer
      one_peer-IsLinked

abbrev messages : List Message
messages =
    record { channel = 3; delivery = sequenced; payload = 1 ∷ [] }
    ∷ record { channel = 4; delivery = reliable_ordered; payload = 2 ∷ [] }
    ∷ record { channel = 5; delivery = unreliable_delivery; payload = 3 ∷ 3 ∷ [] }
    ∷ []

send_many-received_example :
    (ds : List Bytes) × ((send_many 60 3 messages one_peer).socket.sent
      ≡ [] ++ map (to_addr peer.addr) ds)
    × (received ds ≡ map some (at_once messages))
unfolding lookup
send_many-received_example =
    send_many-received 60 3 messages peer one_peer (ground arith) (omega arith)
      ((omega arith, omega arith), ((omega arith, omega arith), ((omega arith, omega arith), tt)))

abbrev quick : List (ℕ × Bytes)
quick = (7, 1 ∷ []) ∷ (8, []) ∷ []

try_send_many_unreliable_bytes-try_send_many_bytes_example :
    (fast general : List Bytes) × ((try_send_many_unreliable_bytes 3 quick one_peer).1.socket.sent
      ≡ [] ++ map (to_addr peer.addr) fast)
    × ((try_send_many_bytes 60 3 (map as_message quick) one_peer).1.socket.sent
        ≡ [] ++ map (to_addr peer.addr) general)
    × (concat (map unmerge fast) ≡ concat (map unmerge general))
    × (received fast ≡ map some (map as_message quick))
unfolding lookup
try_send_many_unreliable_bytes-try_send_many_bytes_example =
    try_send_many_unreliable_bytes-try_send_many_bytes 60 3 quick peer one_peer (ground arith)
      (omega arith) refl (omega arith, (omega arith, tt))

abbrev queues : Map ℕ (List Bytes)
queues = (6, (1 ∷ []) ∷ (2 ∷ []) ∷ []) ∷ (2, (3 ∷ []) ∷ []) ∷ []

resend_peer-bounds_example :
    pending_count 6 (resend_peer 90 (record peer { outgoing_reliable = queues })).1.pending_reliable
    ≤ 128
unfolding lookup pending_count
resend_peer-bounds_example =
    resend_peer-bounds 6 90 (record peer { outgoing_reliable = queues }) (ground arith, (refl, tt))
      (omega arith)

abbrev busy : PeerState
busy = record peer { outgoing_reliable = queues }

resend_peer-order_example :
    let (packets, after) = resend_peer 90 busy in
    let (pings, pinged) = ping_peer 90 busy in
    (sent : List (ℕ × Bytes)) × (pending : Map PendingReliableKey PendingReliable) × (packets
      ≡ ((pings ++ (drain_acks pinged).0) ++ map packet_of sent) ++ (resent 90 pending).0)
    × (after.pending_reliable ≡ (resent 90 pending).1)
    × ((c : ℕ) → InOrder c busy after sent)
unfolding lookup
resend_peer-order_example = resend_peer-order 90 busy (omega arith) (ground arith, (refl, tt))

abbrev token : Bytes
token = 0x68 ∷ 0xc3 ∷ 0xa9 ∷ []
