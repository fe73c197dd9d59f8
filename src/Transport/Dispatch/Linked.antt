-- ===== src/Transport/Dispatch/Linked.antt =====
-- No datagram, whatever it holds, breaks the tables of peers.
use basis_rust_server.Common.{
  ℕ, zero, suc, ◌≡◌, refl, Bool, true, false, List, [], ◌∷◌, Option, none, some, Bool-cases,
  Option-cases, inl, inr, length, leb, ltb, ◌==◌, drop,
}
use basis_rust_server.Common.Maps.{lookup, nat_key}
use basis_rust_server.Common.Words.{Bytes}
use basis_rust_server.Transport.Address.{SocketAddr, socket_addr_key}
use basis_rust_server.Transport.Packet.{
  PacketProperty, unreliable, channeled, ack, ping, connect_request, disconnect, mtu_check, mtu_ok,
  merged, nat_message, property_from_byte, connection_number_of, Message, DeliveryMethod,
  unreliable_delivery, sequenced, parse_message_packet,
}
use basis_rust_server.Transport.Merge.{merged_packets}
use basis_rust_server.Transport.Parse.{
  ParsedConnectRequest, ConnectRequestParse, parsed, bad_protocol, malformed, parse_connect_request,
  parse_nat_introduce_request,
}
use basis_rust_server.Transport.Peer.{PeerState, process_ack, queue_ack}
use basis_rust_server.Transport.Handle.{
  TransportHandle, ServerEvent, Clock, remote, event_capacity, message, enqueue_event,
  enqueue_lossy_event, send_simple_property, send_raw_to, send_connect_accept, send_pong,
  send_mtu_ok,
}
use basis_rust_server.Transport.Handle.Peers.{drop_peer, update_peer_at, see}
use basis_rust_server.Transport.Handle.Peers.Linked.{
  IsLinked, take_out-IsLinked, update_peer_at-IsLinked, remote_disconnect-IsLinked,
}
use basis_rust_server.Transport.Dispatch.{
  before, is_stale, queue_request, request_of_known, receive_request, connect, is_acknowledged,
  enqueue_as, acknowledge, hand_over, receive_message, answer_ping, introduce, process_all,
  handle_property, process_header, server_info_request, process_with, process_packet,
  receive_datagram,
}

queue_request-IsLinked :
    (addr : SocketAddr) (request : ParsedConnectRequest) (c : ℕ) (handle : TransportHandle)
    → IsLinked handle
    → IsLinked (queue_request addr request c handle)
unfolding queue_request enqueue_event
queue_request-IsLinked addr request c handle h =
    elim (Bool-cases (is_stale request c (lookup addr handle.pending_requests))) [
      | inl e ↦ rw (queue_request, e) h
      | inr e ↦ rw (queue_request, e) h
    ]

request_of_known-IsLinked :
    (addr : SocketAddr) (request : ParsedConnectRequest) (c id : ℕ) (known : Option PeerState)
    (handle : TransportHandle)
    → lookup id handle.peers ≡ known
    → IsLinked handle
    → IsLinked (request_of_known addr request c id known handle)
unfolding request_of_known send_connect_accept send_raw_to drop_peer enqueue_event
request_of_known-IsLinked addr request c id none handle e h =
    queue_request-IsLinked addr request c handle h
request_of_known-IsLinked addr request c id (some p) handle e h =
    elim (Bool-cases (request.connect_time == p.connect_time)) [
      | inl same ↦ rw (request_of_known, same) h
      | inr other ↦ elim (Bool-cases (before request.connect_time p.connect_time)) [
        | inl old ↦ rw (request_of_known, other, old) h
        | inr new ↦
            rw (request_of_known, other, new)
              (queue_request-IsLinked addr request c (drop_peer id p remote handle)
                (take_out-IsLinked id p handle e h))
      ]
    ]

receive_request-IsLinked :
    (addr : SocketAddr) (request : ParsedConnectRequest) (c : ℕ) (handle : TransportHandle)
    → IsLinked handle
    → IsLinked (receive_request addr request c handle)
unfolding receive_request
receive_request-IsLinked addr request c handle h =
    elim (Option-cases (lookup addr handle.by_addr)) [
      | inl e ↦ rw (receive_request, e) (queue_request-IsLinked addr request c handle h)
      | inr (id, e) ↦
          rw (receive_request, e)
            (request_of_known-IsLinked addr request c id (lookup id handle.peers) handle refl h)
    ]

connect-IsLinked :
    (addr : SocketAddr) (parse : ConnectRequestParse) (c : ℕ) (handle : TransportHandle)
    → IsLinked handle
    → IsLinked (connect addr parse c handle)
unfolding connect send_simple_property send_raw_to
connect-IsLinked addr (parsed request) c handle h = receive_request-IsLinked addr request c handle h
connect-IsLinked addr bad_protocol c handle h = h
connect-IsLinked addr malformed c handle h = h

lossy-IsLinked :
    (event : ServerEvent) (handle : TransportHandle)
    → IsLinked handle
    → IsLinked (enqueue_lossy_event event handle)
unfolding enqueue_lossy_event
lossy-IsLinked event handle h = elim (Bool-cases (ltb (length handle.events) event_capacity)) [
  | inl e ↦ rw (enqueue_lossy_event, e) h
  | inr e ↦ rw (enqueue_lossy_event, e) h
]

enqueue_as-IsLinked :
    (delivery : DeliveryMethod) (event : ServerEvent) (handle : TransportHandle)
    → IsLinked handle
    → IsLinked (enqueue_as delivery event handle)
unfolding enqueue_as enqueue_event
enqueue_as-IsLinked unreliable_delivery event handle h = lossy-IsLinked event handle h
enqueue_as-IsLinked sequenced event handle h = lossy-IsLinked event handle h
enqueue_as-IsLinked _ event handle h = h

acknowledge-keeps :
    (bytes : Bytes) (wanted : Bool) (p : PeerState)
    → ((acknowledge bytes wanted p).addr ≡ p.addr) × ((acknowledge bytes wanted p).id ≡ p.id)
unfolding acknowledge queue_ack
acknowledge-keeps bytes true p = (refl, refl)
acknowledge-keeps bytes false p = (refl, refl)

process_ack-keeps :
    (bytes : Bytes) (p : PeerState)
    → ((process_ack bytes p).addr ≡ p.addr) × ((process_ack bytes p).id ≡ p.id)
unfolding process_ack
process_ack-keeps bytes p = elim (Bool-cases (ltb (length bytes) 4)) [
  | inl e ↦ rw (process_ack, e) (refl, refl)
  | inr e ↦ rw (process_ack, e) (refl, refl)
]

hand_over-IsLinked :
    (addr : SocketAddr) (bytes : Bytes) (id : ℕ) (m : Option Message) (handle : TransportHandle)
    → IsLinked handle
    → IsLinked (hand_over addr bytes id m handle)
unfolding hand_over
hand_over-IsLinked addr bytes id none handle h = h
hand_over-IsLinked addr bytes id (some m) handle h =
    enqueue_as-IsLinked m.delivery (message id m.channel m.delivery m.payload)
      (update_peer_at (acknowledge bytes (is_acknowledged m.delivery)) addr handle)
      (update_peer_at-IsLinked (acknowledge bytes (is_acknowledged m.delivery)) addr handle
        (acknowledge-keeps bytes (is_acknowledged m.delivery)) h)

see-IsLinked :
    (now : ℕ) (addr : SocketAddr) (handle : TransportHandle)
    → IsLinked handle
    → IsLinked (update_peer_at (see now) addr handle)
see-IsLinked now addr handle h = update_peer_at-IsLinked (see now) addr handle (λ p. (refl, refl)) h

receive_message-IsLinked :
    (clock : Clock) (addr : SocketAddr) (property : PacketProperty) (bytes : Bytes)
    (handle : TransportHandle)
    → IsLinked handle
    → IsLinked (receive_message clock addr property bytes handle)
unfolding receive_message
receive_message-IsLinked clock addr property bytes handle h =
    elim (Option-cases (lookup addr handle.by_addr)) [
      | inl e ↦ rw (receive_message, e) h
      | inr (id, e) ↦
          rw (receive_message, e)
            (hand_over-IsLinked addr bytes id (parse_message_packet property bytes)
              (update_peer_at (see clock.now) addr handle) (see-IsLinked clock.now addr handle h))
    ]

answer_ping-IsLinked :
    (clock : Clock) (addr : SocketAddr) (c : ℕ) (bytes : Bytes) (handle : TransportHandle)
    → IsLinked handle
    → IsLinked (answer_ping clock addr c bytes handle)
unfolding answer_ping send_pong send_raw_to
answer_ping-IsLinked clock addr c bytes handle h = elim (Bool-cases (leb 3 (length bytes))) [
  | inl e ↦ rw (answer_ping, e) h
  | inr e ↦ rw (answer_ping, e) h
]

send_mtu_ok-IsLinked :
    (addr : SocketAddr) (bytes : Bytes) (handle : TransportHandle)
    → IsLinked handle
    → IsLinked (send_mtu_ok addr bytes handle)
unfolding send_mtu_ok send_raw_to
send_mtu_ok-IsLinked addr [] handle h = h
send_mtu_ok-IsLinked addr (b ∷ bytes) handle h = h

introduce-IsLinked :
    (addr : SocketAddr) (request : Option (SocketAddr × Bytes)) (handle : TransportHandle)
    → IsLinked handle
    → IsLinked (introduce addr request handle)
unfolding introduce enqueue_event
introduce-IsLinked addr none handle h = h
introduce-IsLinked addr (some (local_addr, token)) handle h = h

module _ (inner : Bytes → TransportHandle → TransportHandle)
    (keeps : (p : Bytes) (handle : TransportHandle)
      → IsLinked handle
      → IsLinked (inner p handle)) where
  process_all-IsLinked :
      (ps : List Bytes) (handle : TransportHandle)
      → IsLinked handle
      → IsLinked (process_all inner ps handle)
  process_all-IsLinked [] handle h = h
  process_all-IsLinked (p ∷ ps) handle h =
      process_all-IsLinked ps (inner p handle) (keeps p handle h)

  handle_property-IsLinked :
      (clock : Clock) (addr : SocketAddr) (property : Option PacketProperty) (c : ℕ) (bytes : Bytes)
      (handle : TransportHandle)
      → IsLinked handle
      → IsLinked (handle_property inner clock addr property c bytes handle)
  unfolding handle_property
  handle_property-IsLinked clock addr (some connect_request) c bytes handle h =
      connect-IsLinked addr (parse_connect_request bytes) c handle h
  handle_property-IsLinked clock addr (some disconnect) c bytes handle h =
      remote_disconnect-IsLinked addr bytes c handle h
  handle_property-IsLinked clock addr (some ping) c bytes handle h =
      answer_ping-IsLinked clock addr c bytes (update_peer_at (see clock.now) addr handle)
        (see-IsLinked clock.now addr handle h)
  handle_property-IsLinked clock addr (some merged) c bytes handle h =
      process_all-IsLinked (merged_packets bytes) (update_peer_at (see clock.now) addr handle)
        (see-IsLinked clock.now addr handle h)
  handle_property-IsLinked clock addr (some mtu_check) c bytes handle h =
      send_mtu_ok-IsLinked addr bytes (update_peer_at (see clock.now) addr handle)
        (see-IsLinked clock.now addr handle h)
  handle_property-IsLinked clock addr (some mtu_ok) c bytes handle h =
      see-IsLinked clock.now addr handle h
  handle_property-IsLinked clock addr (some nat_message) c bytes handle h =
      introduce-IsLinked addr (parse_nat_introduce_request (drop 1 bytes)) handle h
  handle_property-IsLinked clock addr (some ack) c bytes handle h =
      update_peer_at-IsLinked (λ p. process_ack bytes (see clock.now p)) addr handle
        (λ p. process_ack-keeps bytes (see clock.now p)) h
  handle_property-IsLinked clock addr (some channeled) c bytes handle h =
      receive_message-IsLinked clock addr channeled bytes handle h
  handle_property-IsLinked clock addr (some unreliable) c bytes handle h =
      receive_message-IsLinked clock addr unreliable bytes handle h
  handle_property-IsLinked clock addr _ c bytes handle h = h

  process_header-IsLinked :
      (clock : Clock) (addr : SocketAddr) (bytes : Bytes) (handle : TransportHandle)
      → IsLinked handle
      → IsLinked (process_header inner clock addr bytes handle)
  unfolding process_header
  process_header-IsLinked clock addr [] handle h = h
  process_header-IsLinked clock addr (b ∷ bytes) handle h =
      handle_property-IsLinked clock addr (property_from_byte b) (connection_number_of b)
        (b ∷ bytes) handle h

  process_with-IsLinked :
      (clock : Clock) (addr : SocketAddr) (bytes : Bytes) (handle : TransportHandle)
      → IsLinked handle
      → IsLinked (process_with inner clock addr bytes handle)
  unfolding process_with enqueue_event
  process_with-IsLinked clock addr bytes handle h =
      elim (Option-cases (server_info_request bytes)) [
        | inl e ↦ rw (process_with, e) (process_header-IsLinked clock addr bytes handle h)
        | inr (payload, e) ↦ rw (process_with, e) h
      ]

process_packet-IsLinked :
    (fuel : ℕ) (clock : Clock) (addr : SocketAddr) (bytes : Bytes) (handle : TransportHandle)
    → IsLinked handle
    → IsLinked (process_packet fuel clock addr bytes handle)
unfolding process_packet
process_packet-IsLinked zero clock addr bytes handle h = h
process_packet-IsLinked (suc fuel) clock addr bytes handle h =
    process_with-IsLinked (process_packet fuel clock addr)
      (λ p handle' k. process_packet-IsLinked fuel clock addr p handle' k) clock addr bytes handle h

-- Whatever arrives, from whatever address, the tables still name each other.
pub receive_datagram-IsLinked :
    (clock : Clock) (addr : SocketAddr) (bytes : Bytes) (handle : TransportHandle)
    → IsLinked handle
    → IsLinked (receive_datagram clock addr bytes handle)
unfolding receive_datagram
receive_datagram-IsLinked clock addr bytes handle h =
    process_packet-IsLinked (length bytes) clock addr bytes _ h
