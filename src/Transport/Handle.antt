-- ===== src/Transport/Handle.antt =====
-- `TransportHandle` and the datagrams and events that it produces:
-- BasisRustServer/crates/basis-transport/src/lib.rs. The socket is the list of the datagrams that
-- it took, first one first, and the answers that it has for the coming `try_send_to` calls; the
-- channel of events is the list of the events in it.
pub mod Ids
pub mod Peers
pub mod Sending
use basis_rust_server.Common.{
  ℕ, ◌+◌, ◌%◌, ◌^◌, Bool, true, false, List, [], ◌∷◌, ◌++◌, length, ltb, if◌then◌else◌, ◌|>◌,
  bit_and, bit_or,
}
use basis_rust_server.Common.Maps.{Map, add, nat_key}
use basis_rust_server.Common.Words.{Bytes}
use basis_rust_server.Protocol.Io.{
  NetWriter, new_writer, put_u8, put_u16, put_u32, put_u64, put_bytes, put_string,
}
use basis_rust_server.Transport.Address.{SocketAddr, socket_addr_key}
use basis_rust_server.Transport.Packet.{
  PacketProperty, DeliveryMethod, header, property_code, connect_accept, disconnect, ping, pong,
  mtu_ok,
}
use basis_rust_server.Transport.Peer.{PeerState}

pub record ConnectionRequest : Type 0 where
  pub remote_addr : SocketAddr
  pub payload : Bytes
  pub connection_number : ℕ
  pub connect_time : ℕ
  pub local_peer_id : ℕ

pub data DisconnectReason : Type 0 where
  remote : DisconnectReason
  timeout : DisconnectReason
  rejected : Bytes → DisconnectReason

pub data ServerEvent : Type 0 where
  connection_request : ConnectionRequest → ServerEvent
  peer_connected : ℕ → ServerEvent
  peer_disconnected : ℕ → DisconnectReason → ServerEvent
  message : ℕ → ℕ → DeliveryMethod → Bytes → ServerEvent
  network_error : Bytes → ServerEvent
  unconnected_request : SocketAddr → ℕ → Bytes → ServerEvent
  nat_introduction_request : SocketAddr → SocketAddr → Bytes → ServerEvent

pub record PendingRequestInfo : Type 0 where
  pub connect_time : ℕ
  pub connection_number : ℕ

pub record TransportStats : Type 0 where
  pub raw_packets_received : ℕ
  pub raw_packets_sent : ℕ
  pub raw_bytes_received : ℕ
  pub raw_bytes_sent : ℕ
  pub raw_send_would_block : ℕ

pub record Socket : Type 0 where
  pub sent : List (SocketAddr × Bytes)
  pub would_block : List Bool

pub record TransportHandle : Type 0 where
  pub socket : Socket
  pub peers : Map ℕ PeerState
  pub by_addr : Map SocketAddr ℕ
  pub pending_requests : Map SocketAddr PendingRequestInfo
  pub next_peer_id : ℕ
  pub reusable_peer_ids : List ℕ
  pub retired_peer_ids : List ℕ
  pub shutdown : Bool
  pub stats : TransportStats
  pub events : List ServerEvent

-- `Instant::now` and `dotnet_utc_ticks` while a datagram is handled.
pub record Clock : Type 0 where
  pub now : ℕ
  pub utc_ticks : ℕ

abbrev pub event_capacity : ℕ
event_capacity = 262144

-- `bind`, over a socket that took nothing yet.
abbrev pub bind : List Bool → TransportHandle
bind would_block = record {
  socket = record { sent = []; would_block = would_block };
  peers = [];
  by_addr = [];
  pending_requests = [];
  next_peer_id = 0;
  reusable_peer_ids = [];
  retired_peer_ids = [];
  shutdown = false;
  stats = record {
    raw_packets_received = 0;
    raw_packets_sent = 0;
    raw_bytes_received = 0;
    raw_bytes_sent = 0;
    raw_send_would_block = 0;
  };
  events = [];
}

unfoldable pub count_sent : Bytes → TransportStats → TransportStats
count_sent bytes stats = record stats {
  raw_packets_sent = (stats.raw_packets_sent + 1) % 2 ^ 64;
  raw_bytes_sent = (stats.raw_bytes_sent + length bytes) % 2 ^ 64;
}

-- A datagram that the socket takes whole.
unfoldable pub send_raw_to : Bytes → SocketAddr → TransportHandle → TransportHandle
unfolding count_sent
send_raw_to bytes addr handle = record handle {
  socket = record {
    sent = handle.socket.sent ++ ((addr, bytes) ∷ []);
    would_block = handle.socket.would_block;
  };
  stats = count_sent bytes handle.stats;
}

-- The socket's answer to a `try_send_to`; a socket that has no more of them takes the datagram.
abbrev next_answer : List Bool → Bool × List Bool
next_answer [] = (false, [])
next_answer (b ∷ bs) = (b, bs)

unfoldable pub try_send_raw_to : Bytes → SocketAddr → TransportHandle → Bool × TransportHandle
unfolding count_sent
try_send_raw_to bytes addr handle =
    let (blocks, rest) = next_answer handle.socket.would_block in
    if blocks
    then (
      false,
      record handle {
        socket = record { sent = handle.socket.sent; would_block = rest };
        stats = record handle.stats {
          raw_send_would_block = (handle.stats.raw_send_would_block + 1) % 2 ^ 64;
        };
      },
    )
    else (
      true,
      record handle {
        socket = record { sent = handle.socket.sent ++ ((addr, bytes) ∷ []); would_block = rest };
        stats = count_sent bytes handle.stats;
      },
    )

-- `enqueue_event` waits for room when the channel is full, and `enqueue_lossy_event` does not.
unfoldable pub enqueue_event : ServerEvent → TransportHandle → TransportHandle
enqueue_event event handle = record handle { events = handle.events ++ (event ∷ []) }

unfoldable pub enqueue_lossy_event : ServerEvent → TransportHandle → TransportHandle
enqueue_lossy_event event handle =
    if ltb (length handle.events) event_capacity
    then record handle { events = handle.events ++ (event ∷ []) }
    else handle

unfoldable pub send_simple_property :
    SocketAddr → PacketProperty → TransportHandle → TransportHandle
unfolding send_raw_to property_code
send_simple_property remote_addr property = send_raw_to (property_code property ∷ []) remote_addr

unfoldable pub connect_accept_packet : ℕ → ℕ → ℕ → Bytes
unfolding new_writer put_u8 put_u32 put_u64
connect_accept_packet connection_number connect_time peer_id = NetWriter.bytes (
    new_writer
    |> put_u8 (header connect_accept connection_number)
    |> put_u64 connect_time
    |> put_u8 connection_number
    |> put_u8 0
    |> put_u32 peer_id)

unfoldable pub send_connect_accept : SocketAddr → ℕ → ℕ → ℕ → TransportHandle → TransportHandle
unfolding send_raw_to connect_accept_packet
send_connect_accept remote_addr connection_number connect_time peer_id =
    send_raw_to (connect_accept_packet connection_number connect_time peer_id) remote_addr

-- The packet of `disconnect` and `reject`.
unfoldable pub disconnect_packet : ℕ → ℕ → Bytes → Bytes
unfolding new_writer put_u8 put_u64 put_bytes put_string
disconnect_packet connection_number connect_time reason =
    let payload = put_string reason new_writer in
    NetWriter.bytes (
      new_writer
      |> put_u8 (header disconnect connection_number)
      |> put_u64 connect_time
      |> put_bytes payload.bytes)

unfoldable pub send_pong : Clock → SocketAddr → ℕ → ℕ → TransportHandle → TransportHandle
unfolding send_raw_to new_writer put_u8 put_u16 put_u64
send_pong clock remote_addr connection_number sequence =
    send_raw_to
      (NetWriter.bytes (
        new_writer
        |> put_u8 (header pong connection_number)
        |> put_u16 sequence
        |> put_u64 clock.utc_ticks))
      remote_addr

unfoldable pub build_ping_packet : ℕ → ℕ → Bytes
unfolding new_writer put_u8 put_u16
build_ping_packet connection_number sequence =
    NetWriter.bytes (new_writer |> put_u8 (header ping connection_number) |> put_u16 sequence)

-- Answers with the packet itself, its property changed.
unfoldable pub send_mtu_ok : SocketAddr → Bytes → TransportHandle → TransportHandle
unfolding send_raw_to property_code
send_mtu_ok remote_addr [] handle = handle
send_mtu_ok remote_addr (b ∷ bytes) handle =
    send_raw_to (bit_or (bit_and b 0xe0) (property_code mtu_ok) ∷ bytes) remote_addr handle

-- `retire_peer_id`.
unfoldable pub retire_peer_id : ℕ → TransportHandle → TransportHandle
retire_peer_id peer handle = record handle { retired_peer_ids = add peer handle.retired_peer_ids }
