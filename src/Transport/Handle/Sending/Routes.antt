-- ===== src/Transport/Handle/Sending/Routes.antt =====
-- The one-pass loop of `try_send_many_unreliable_bytes` against the general route of
-- `try_send_many_bytes`, which builds the packets with `build_outbound_packet` and joins them with
-- `build_merged_datagrams`.
use basis_rust_server.Common.{
  ℕ, ◌<◌, ◌≡◌, refl, sym, ap, ◌∙◌, List, [], ◌∷◌, ◌++◌, map, concat, All, some, append-nil,
  append_assoc,
}
use basis_rust_server.Common.Maps.{lookup, nat_key}
use basis_rust_server.Common.Words.{Bytes}
use basis_rust_server.Transport.Address.{SocketAddr}
use basis_rust_server.Transport.Packet.{
  Message, unreliable_delivery, unreliable, header, is_reliable_delivery, property_from_byte-header,
}
use basis_rust_server.Transport.Merge.{build_merged_datagrams}
use basis_rust_server.Transport.Merge.RoundTrip.{unmerge-build_merged_datagrams}
use basis_rust_server.Transport.Merge.Unmerge.{IsPacket, unmerge}
use basis_rust_server.Transport.Peer.{
  PeerState, build_outbound_packet, record_pending_reliable, record_pending,
}
use basis_rust_server.Transport.Peer.Packets.{read_packet, parse-unreliable}
use basis_rust_server.Transport.Handle.{TransportHandle, try_send_raw_to}
use basis_rust_server.Transport.Handle.Sending.{
  build_one, build_all, put_peer, try_send_all, try_send_many_bytes, try_send_many_unreliable_bytes,
  direct_packet,
}
use basis_rust_server.Transport.Handle.Sending.FastPath.{
  IsShort, to_addr, direct_packet-IsPacket, try_send_log, try_send_many_unreliable_bytes_lem,
}
use basis_rust_server.Transport.Handle.Sending.Delivered.{received}

-- A message of the fast path, as the general route takes it.
abbrev pub as_message : ℕ × Bytes → Message
as_message p = record { channel = p.0; delivery = unreliable_delivery; payload = p.1 }

build_all-unreliable :
    (now : ℕ) (ps : List (ℕ × Bytes)) (state : PeerState)
    → build_all now (map as_message ps) state
      ≡ (map (direct_packet state.connection_number) ps, state)
unfolding build_all build_one build_outbound_packet is_reliable_delivery record_pending_reliable
    record_pending direct_packet
build_all-unreliable now [] state = refl
build_all-unreliable now ((channel, payload) ∷ ps) state = rw (build_all-unreliable now ps state)

direct_packets-IsPacket :
    (c : ℕ) (ps : List (ℕ × Bytes))
    → c < 4
    → All IsShort ps
    → All IsPacket (map (direct_packet c) ps)
direct_packets-IsPacket c [] hc h = tt
direct_packets-IsPacket c (p ∷ ps) hc h =
    (direct_packet-IsPacket c p hc h.0, direct_packets-IsPacket c ps hc h.1)

read-direct_packets :
    (c : ℕ) (ps : List (ℕ × Bytes))
    → c < 4
    → map read_packet (map (direct_packet c) ps) ≡ map some (map as_message ps)
unfolding direct_packet
read-direct_packets c [] hc = refl
read-direct_packets c ((channel, payload) ∷ ps) hc =
    let read : read_packet (direct_packet c (channel, payload))
        ≡ some (as_message (channel, payload)) =
      rw (property_from_byte-header unreliable c hc)
        (parse-unreliable (header unreliable c) channel payload) in
    rw (read, read-direct_packets c ps hc)

sent-try_send_all :
    (addr : SocketAddr) (ds : List Bytes) (sent : ℕ) (handle : TransportHandle)
    → handle.socket.would_block ≡ []
    → (try_send_all addr ds sent handle).1.socket.sent ≡ handle.socket.sent ++ map (to_addr addr) ds
unfolding try_send_all
sent-try_send_all addr [] sent handle free = sym (append-nil _)
sent-try_send_all addr (d ∷ ds) sent handle free =
    let (log, still) = try_send_log addr d handle free in
    sent-try_send_all addr ds _ (try_send_raw_to d addr handle).1 still
    ∙ ap (λ (t : List (SocketAddr × Bytes)). t ++ map (to_addr addr) ds) log
    ∙ append_assoc handle.socket.sent ((addr, d) ∷ []) (map (to_addr addr) ds)

general_route :
    (now id : ℕ) (ps : List (ℕ × Bytes)) (state : PeerState) (handle : TransportHandle)
    → lookup id handle.peers ≡ some state
    → state.connection_number < 4
    → handle.socket.would_block ≡ []
    → All IsShort ps
    → (ds : List Bytes) × ((try_send_many_bytes now id (map as_message ps) handle).1.socket.sent
        ≡ handle.socket.sent ++ map (to_addr state.addr) ds)
      × (concat (map unmerge ds) ≡ map (direct_packet state.connection_number) ps)
unfolding try_send_many_bytes
general_route now id [] state handle e hc free h = ([], sym (append-nil _), refl)
general_route now id (p ∷ ps) state handle e hc free h =
    let c = state.connection_number in
    let packets = map (direct_packet c) (p ∷ ps) in
    let built = build_all-unreliable now (p ∷ ps) state in
    (
      build_merged_datagrams c packets,
      rw (try_send_many_bytes, e)
          (ap
              (λ (r : List Bytes × PeerState).
                (try_send_all state.addr (build_merged_datagrams c r.0) 0
                  (put_peer id r.1 handle)).1.socket.sent)
              built
            ∙ sent-try_send_all state.addr (build_merged_datagrams c packets) 0
                (put_peer id state handle) free),
      unmerge-build_merged_datagrams c packets hc (direct_packets-IsPacket c (p ∷ ps) hc h),
    )

-- On a socket that takes everything, both routes send datagrams to the address of the peer out of which
-- the other end takes the same packets in the same order, and it reads them as the messages handed in,
-- each with its channel, unreliable, and its payload. No payload is longer than a datagram, and the
-- connection number is below 4. How the packets are spread over datagrams is not compared.
pub try_send_many_unreliable_bytes-try_send_many_bytes :
    (now id : ℕ) (ps : List (ℕ × Bytes)) (state : PeerState) (handle : TransportHandle)
    → lookup id handle.peers ≡ some state
    → state.connection_number < 4
    → handle.socket.would_block ≡ []
    → All IsShort ps
    → (fast general : List Bytes) × ((try_send_many_unreliable_bytes id ps handle).1.socket.sent
        ≡ handle.socket.sent ++ map (to_addr state.addr) fast)
      × ((try_send_many_bytes now id (map as_message ps) handle).1.socket.sent
          ≡ handle.socket.sent ++ map (to_addr state.addr) general)
      × (concat (map unmerge fast) ≡ concat (map unmerge general))
      × (received fast ≡ map some (map as_message ps))
try_send_many_unreliable_bytes-try_send_many_bytes now id ps state handle e hc free h =
    let (fast, log, parts) = try_send_many_unreliable_bytes_lem id ps state handle e hc free h in
    let (general, log', parts') = general_route now id ps state handle e hc free h in
    (
      fast,
      general,
      log,
      log',
      parts ∙ sym parts',
      ap (map read_packet) parts ∙ read-direct_packets state.connection_number ps hc,
    )
