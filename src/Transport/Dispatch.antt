-- ===== src/Transport/Dispatch.antt =====
-- `process_packet`: what a datagram does: BasisRustServer/crates/basis-transport/src/lib.rs. The
-- channel of events stays open and the socket takes what it is given, so no step fails.
pub mod Fuel
pub mod Linked
use basis_rust_server.Common.{
  ℕ, zero, suc, ◌+◌, ◌%◌, ◌^◌, Bool, true, false, List, [], ◌∷◌, length, take, drop, get_or, Option,
  none, some, leb, ◌==◌, ◌&&◌, ◌||◌, if◌then◌else◌,
}
use basis_rust_server.Common.Maps.{lookup, insert, nat_key}
use basis_rust_server.Common.Words.{Bytes, from_le_bytes, below_signed}
use basis_rust_server.Protocol.ServerInfo.{
  server_info_min_request_bytes, parse_server_info_query_nonce,
}
use basis_rust_server.Transport.Address.{SocketAddr, socket_addr_key}
use basis_rust_server.Transport.Packet.{
  PacketProperty, unreliable, channeled, ack, ping, connect_request, disconnect, mtu_check, mtu_ok,
  merged, nat_message, invalid_protocol, property_from_byte, connection_number_of, Message,
  DeliveryMethod, reliable_ordered, reliable_unordered, unreliable_delivery, sequenced,
  parse_message_packet,
}
use basis_rust_server.Transport.Merge.{merged_packets}
use basis_rust_server.Transport.Parse.{
  server_info_payload, ParsedConnectRequest, ConnectRequestParse, parsed, bad_protocol, malformed,
  parse_connect_request, parse_nat_introduce_request,
}
use basis_rust_server.Transport.Peer.{PeerState, or_default, process_ack, queue_ack}
use basis_rust_server.Transport.Handle.{
  TransportHandle, ServerEvent, PendingRequestInfo, Clock, connection_request, message,
  unconnected_request, nat_introduction_request, remote, enqueue_event, enqueue_lossy_event,
  send_simple_property, send_connect_accept, send_pong, send_mtu_ok,
}
use basis_rust_server.Transport.Handle.Peers.{drop_peer, update_peer_at, see, remote_disconnect}

-- `connect_time` is an `i64`.
abbrev before : ℕ → ℕ → Bool
before = below_signed (2 ^ 63)

-- A request that is no newer than the one that waits.
is_stale : ParsedConnectRequest → ℕ → Option PendingRequestInfo → Bool
is_stale request connection_number none = false
is_stale request connection_number (some existing) =
    before request.connect_time existing.connect_time
    || request.connect_time == existing.connect_time
      && connection_number == existing.connection_number

unfoldable pub queue_request :
    SocketAddr → ParsedConnectRequest → ℕ → TransportHandle → TransportHandle
unfolding is_stale enqueue_event
queue_request addr request connection_number handle =
    if is_stale request connection_number (lookup addr handle.pending_requests)
    then handle
    else enqueue_event
        (connection_request (record {
          remote_addr = addr;
          payload = request.payload;
          connection_number = connection_number;
          connect_time = request.connect_time;
          local_peer_id = request.local_peer_id;
        }))
        (record handle {
          pending_requests =
              insert addr
                (record {
                  connect_time = request.connect_time;
                  connection_number = connection_number;
                })
                handle.pending_requests;
        })

-- A request from the address of a peer: an answer again, nothing, or the end of that peer.
unfoldable pub request_of_known :
    SocketAddr → ParsedConnectRequest → ℕ → ℕ → Option PeerState → TransportHandle → TransportHandle
unfolding queue_request drop_peer send_connect_accept
request_of_known addr request connection_number id none handle =
    queue_request addr request connection_number handle
request_of_known addr request connection_number id (some peer) handle =
    if request.connect_time == peer.connect_time
    then send_connect_accept addr peer.connection_number peer.connect_time peer.id handle
    else if before request.connect_time peer.connect_time
    then handle
    else queue_request addr request connection_number (drop_peer id peer remote handle)

unfoldable pub receive_request :
    SocketAddr → ParsedConnectRequest → ℕ → TransportHandle → TransportHandle
unfolding request_of_known queue_request
receive_request addr request connection_number handle = elim (lookup addr handle.by_addr) [
  | none ↦ queue_request addr request connection_number handle
  | some id ↦ request_of_known addr request connection_number id (lookup id handle.peers) handle
]

connect : SocketAddr → ConnectRequestParse → ℕ → TransportHandle → TransportHandle
unfolding receive_request send_simple_property
connect addr (parsed request) connection_number handle =
    receive_request addr request connection_number handle
connect addr bad_protocol connection_number handle =
    send_simple_property addr invalid_protocol handle
connect addr malformed connection_number handle = handle

is_acknowledged : DeliveryMethod → Bool
is_acknowledged reliable_ordered = true
is_acknowledged reliable_unordered = true
is_acknowledged _ = false

-- Messages that may be lost on the way may be lost in a full channel of events, too.
enqueue_as : DeliveryMethod → ServerEvent → TransportHandle → TransportHandle
unfolding enqueue_event enqueue_lossy_event
enqueue_as unreliable_delivery = enqueue_lossy_event
enqueue_as sequenced = enqueue_lossy_event
enqueue_as _ = enqueue_event

acknowledge : Bytes → Bool → PeerState → PeerState
unfolding queue_ack
acknowledge bytes wanted peer =
    if wanted
    then queue_ack (get_or bytes 3 0) (from_le_bytes (take 2 (drop 1 bytes))) peer
    else peer

hand_over : SocketAddr → Bytes → ℕ → Option Message → TransportHandle → TransportHandle
unfolding enqueue_as acknowledge is_acknowledged update_peer_at
hand_over addr bytes id none handle = handle
hand_over addr bytes id (some m) handle =
    enqueue_as m.delivery (message id m.channel m.delivery m.payload)
      (update_peer_at (acknowledge bytes (is_acknowledged m.delivery)) addr handle)

unfoldable pub receive_message :
    Clock → SocketAddr → PacketProperty → Bytes → TransportHandle → TransportHandle
unfolding hand_over update_peer_at
receive_message clock addr property bytes handle = elim (lookup addr handle.by_addr) [
  | none ↦ handle
  | some id ↦
      hand_over addr bytes id (parse_message_packet property bytes)
        (update_peer_at (see clock.now) addr handle)
]

answer_ping : Clock → SocketAddr → ℕ → Bytes → TransportHandle → TransportHandle
unfolding send_pong
answer_ping clock addr connection_number bytes handle =
    if leb 3 (length bytes)
    then send_pong clock addr connection_number (from_le_bytes (take 2 (drop 1 bytes))) handle
    else handle

introduce : SocketAddr → Option (SocketAddr × Bytes) → TransportHandle → TransportHandle
unfolding enqueue_event
introduce addr none handle = handle
introduce addr (some (local_addr, token)) handle =
    enqueue_event (nat_introduction_request addr local_addr token) handle

abbrev pub process_all :
    (Bytes → TransportHandle → TransportHandle) → List Bytes → TransportHandle → TransportHandle
process_all inner [] handle = handle
process_all inner (packet ∷ packets) handle = process_all inner packets (inner packet handle)

-- The arms of the match; `inner` handles the packets of a joined datagram.
unfoldable pub handle_property :
    (Bytes → TransportHandle → TransportHandle)
    → Clock
    → SocketAddr
    → Option PacketProperty
    → ℕ
    → Bytes
    → TransportHandle
    → TransportHandle
unfolding connect remote_disconnect update_peer_at answer_ping merged_packets send_mtu_ok introduce
    receive_message process_ack parse_connect_request parse_nat_introduce_request
handle_property inner clock addr (some connect_request) connection_number bytes handle =
    connect addr (parse_connect_request bytes) connection_number handle
handle_property inner clock addr (some disconnect) connection_number bytes handle =
    remote_disconnect addr bytes connection_number handle
handle_property inner clock addr (some ping) connection_number bytes handle =
    answer_ping clock addr connection_number bytes (update_peer_at (see clock.now) addr handle)
handle_property inner clock addr (some merged) connection_number bytes handle =
    process_all inner (merged_packets bytes) (update_peer_at (see clock.now) addr handle)
handle_property inner clock addr (some mtu_check) connection_number bytes handle =
    send_mtu_ok addr bytes (update_peer_at (see clock.now) addr handle)
handle_property inner clock addr (some mtu_ok) connection_number bytes handle =
    update_peer_at (see clock.now) addr handle
handle_property inner clock addr (some nat_message) connection_number bytes handle =
    introduce addr (parse_nat_introduce_request (drop 1 bytes)) handle
handle_property inner clock addr (some ack) connection_number bytes handle =
    update_peer_at (λ peer. process_ack bytes (see clock.now peer)) addr handle
handle_property inner clock addr (some channeled) connection_number bytes handle =
    receive_message clock addr channeled bytes handle
handle_property inner clock addr (some unreliable) connection_number bytes handle =
    receive_message clock addr unreliable bytes handle
handle_property inner clock addr _ connection_number bytes handle = handle

unfoldable pub process_header :
    (Bytes → TransportHandle → TransportHandle)
    → Clock
    → SocketAddr
    → Bytes
    → TransportHandle
    → TransportHandle
unfolding handle_property property_from_byte connection_number_of
process_header inner clock addr [] handle = handle
process_header inner clock addr (header ∷ rest) handle =
    handle_property inner clock addr (property_from_byte header) (connection_number_of header)
      (header ∷ rest) handle

-- A server-list query that is long enough to be answered.
unfoldable pub server_info_request : Bytes → Option Bytes
unfolding server_info_payload
server_info_request bytes = elim (server_info_payload bytes) [
  | none ↦ none
  | some payload ↦ if leb server_info_min_request_bytes (length payload) then some payload else none
]

unfoldable pub process_with :
    (Bytes → TransportHandle → TransportHandle)
    → Clock
    → SocketAddr
    → Bytes
    → TransportHandle
    → TransportHandle
unfolding server_info_request process_header enqueue_event parse_server_info_query_nonce
process_with inner clock addr bytes handle = elim (server_info_request bytes) [
  | none ↦ process_header inner clock addr bytes handle
  | some payload ↦
      enqueue_event
        (unconnected_request addr (or_default 0 (parse_server_info_query_nonce payload)) payload)
        handle
]

-- The packets of a joined datagram may be joined themselves, and are shorter: as many levels as the
-- datagram has bytes are enough.
unfoldable pub process_packet : ℕ → Clock → SocketAddr → Bytes → TransportHandle → TransportHandle
unfolding process_with
process_packet zero clock addr bytes handle = handle
process_packet (suc fuel) clock addr bytes handle =
    process_with (process_packet fuel clock addr) clock addr bytes handle

-- A round of `read_loop`.
unfoldable pub receive_datagram : Clock → SocketAddr → Bytes → TransportHandle → TransportHandle
unfolding process_packet
receive_datagram clock addr bytes handle =
    process_packet (length bytes) clock addr bytes (record handle {
      stats = record handle.stats {
        raw_packets_received = (handle.stats.raw_packets_received + 1) % 2 ^ 64;
        raw_bytes_received = (handle.stats.raw_bytes_received + length bytes) % 2 ^ 64;
      };
    })
