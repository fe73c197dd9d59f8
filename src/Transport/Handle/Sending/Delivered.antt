-- ===== src/Transport/Handle/Sending/Delivered.antt =====
-- `send_many_slices` from the one end to the other.
use basis_rust_server.Common.{
  ℕ, suc, ◌+◌, ◌^◌, ◌<◌, ◌≡◌, refl, sym, ap, ◌∙◌, subst, true, List, [], ◌∷◌, ◌++◌, length, map,
  concat, All, Option, none, some, leb, if◌then◌else◌, arith, Bool-cases, inl, inr, append-nil,
  append_assoc,
}
use basis_rust_server.Common.Maps.{lookup, nat_key}
use basis_rust_server.Common.Words.{Bytes}
use basis_rust_server.Transport.Address.{SocketAddr}
use basis_rust_server.Transport.Packet.{
  PacketProperty, Message, DeliveryMethod, reliable_unordered, sequenced, reliable_ordered,
  reliable_sequenced, unreliable_delivery, is_reliable_delivery, unreliable, channeled, merged,
  header, is_valid_merged_packet, header_size, property_from_byte-header,
}
use basis_rust_server.Transport.Merge.{build_merged_datagrams}
use basis_rust_server.Transport.Merge.RoundTrip.{unmerge-build_merged_datagrams}
use basis_rust_server.Transport.Merge.Unmerge.{IsPacket, unmerge}
use basis_rust_server.Transport.Peer.{
  PeerState, channeled_bytes, build_outbound_packet, enqueue_reliable_payload,
  record_pending_reliable, record_pending,
}
use basis_rust_server.Transport.Peer.Packets.{
  channeled_bytes_lem, read_packet, read_packet-build_outbound_packet,
}
use basis_rust_server.Transport.Handle.{TransportHandle, send_raw_to}
use basis_rust_server.Transport.Handle.Sending.{build_one, build_all, send_all, put_peer, send_many}
use basis_rust_server.Transport.Handle.Sending.FastPath.{to_addr}

-- A channel that an id has room for, and a payload that a datagram has room for.
abbrev pub IsSendable : Message → Type 0
IsSendable m = (m.channel < 64) × (length m.payload + 4 < 2 ^ 16)

-- The messages that go out at once; the others are queued.
abbrev pub at_once : List Message → List Message
at_once [] = []
at_once (m ∷ ms) = if is_reliable_delivery m.delivery then at_once ms else m ∷ at_once ms

-- The messages that the other end takes out of the datagrams.
abbrev pub received : List Bytes → List (Option Message)
received datagrams = map read_packet (concat (map unmerge datagrams))

header-IsPacket :
    (property : PacketProperty) (c : ℕ) (rest : Bytes)
    → c < 4
    → (property ≡ merged → ⊥)
    → leb (header_size property) (suc (length rest)) ≡ true
    → suc (length rest) < 2 ^ 16
    → IsPacket (header property c ∷ rest)
unfolding is_valid_merged_packet
header-IsPacket property c rest hc other size short =
    let e = property_from_byte-header property c hc in
    record {
      valid = rw (is_valid_merged_packet, e) size;
      plain = λ f. other (ground (arith, e, f));
      short = short;
    }

channeled_bytes-IsPacket :
    (c sequence channel_id : ℕ) (payload : Bytes)
    → c < 4
    → length payload + 4 < 2 ^ 16
    → IsPacket (channeled_bytes c sequence channel_id payload)
unfolding header_size
channeled_bytes-IsPacket c sequence channel_id payload hc h =
    subst IsPacket (sym (channeled_bytes_lem c sequence channel_id payload))
      (header-IsPacket channeled c _ hc (λ f. absurd cc) (ground arith) (omega arith))

build_outbound_packet-IsPacket :
    (state : PeerState) (channel : ℕ) (delivery : DeliveryMethod) (payload : Bytes)
    → state.connection_number < 4
    → length payload + 4 < 2 ^ 16
    → IsPacket (build_outbound_packet state channel delivery payload).0.bytes
unfolding build_outbound_packet header_size
build_outbound_packet-IsPacket state channel unreliable_delivery payload hc h =
    header-IsPacket unreliable state.connection_number (channel ∷ payload) hc (λ f. absurd cc)
      (ground arith) (omega arith)
build_outbound_packet-IsPacket state channel sequenced payload hc h =
    channeled_bytes-IsPacket state.connection_number _ _ payload hc h
build_outbound_packet-IsPacket state channel reliable_unordered payload hc h =
    channeled_bytes-IsPacket state.connection_number _ _ payload hc h
build_outbound_packet-IsPacket state channel reliable_ordered payload hc h =
    channeled_bytes-IsPacket state.connection_number _ _ payload hc h
build_outbound_packet-IsPacket state channel reliable_sequenced payload hc h =
    channeled_bytes-IsPacket state.connection_number _ _ payload hc h

record_pending-number :
    (now : ℕ) (bytes : Bytes) (key : Option (ℕ × ℕ)) (state : PeerState)
    → (record_pending now bytes key state).connection_number ≡ state.connection_number
unfolding record_pending
record_pending-number now bytes none state = refl
record_pending-number now bytes (some (i, s)) state = refl

build_outbound_packet-number :
    (state : PeerState) (channel : ℕ) (delivery : DeliveryMethod) (payload : Bytes)
    → (build_outbound_packet state channel delivery payload).1.connection_number
      ≡ state.connection_number
unfolding build_outbound_packet
build_outbound_packet-number state channel unreliable_delivery payload = refl
build_outbound_packet-number state channel sequenced payload = refl
build_outbound_packet-number state channel reliable_unordered payload = refl
build_outbound_packet-number state channel reliable_ordered payload = refl
build_outbound_packet-number state channel reliable_sequenced payload = refl

build_one-number :
    (now : ℕ) (m : Message) (state : PeerState)
    → (build_one now m state).1.connection_number ≡ state.connection_number
unfolding build_one enqueue_reliable_payload record_pending_reliable
build_one-number now m state = elim (Bool-cases (is_reliable_delivery m.delivery)) [
  | inl e ↦ rw (build_one, e)
  | inr e ↦
      let out = build_outbound_packet state m.channel m.delivery m.payload in
      rw (build_one, e)
        (record_pending-number now out.0.bytes out.0.reliable_key out.1
          ∙ build_outbound_packet-number state m.channel m.delivery m.payload)
]

-- The packet of a message that goes out at once.
abbrev packet_now : PeerState → Message → Bytes
packet_now state m = (build_outbound_packet state m.channel m.delivery m.payload).0.bytes

build_one-packets :
    (now : ℕ) (m : Message) (state : PeerState)
    → (build_one now m state).0
      ≡ (if is_reliable_delivery m.delivery then [] else packet_now state m ∷ [])
unfolding build_one
build_one-packets now m state = elim (Bool-cases (is_reliable_delivery m.delivery)) [
  | inl e ↦ rw (build_one, e)
  | inr e ↦ rw (build_one, e)
]

build_all-packets :
    (now : ℕ) (m : Message) (ms : List Message) (state : PeerState)
    → (build_all now (m ∷ ms) state).0
      ≡ (if is_reliable_delivery m.delivery then [] else packet_now state m ∷ [])
        ++ (build_all now ms (build_one now m state).1).0
unfolding build_all
build_all-packets now m ms state =
    ap (λ (t : List Bytes). t ++ (build_all now ms (build_one now m state).1).0)
      (build_one-packets now m state)

-- The packets of a run of messages are packets, and are read as the messages that go out at once.
build_all_lem :
    (now : ℕ) (ms : List Message) (state : PeerState)
    → state.connection_number < 4
    → All IsSendable ms
    → All IsPacket (build_all now ms state).0
      × (map read_packet (build_all now ms state).0 ≡ map some (at_once ms))
build_all_lem now [] state hc h = unfold build_all in (tt, refl)
build_all_lem now (m ∷ ms) state hc h =
    let (good, reads) =
      build_all_lem now ms (build_one now m state).1 (omega (arith, build_one-number now m state))
        h.1 in
    elim (Bool-cases (is_reliable_delivery m.delivery)) [
      | inl e ↦ rw (build_all-packets now m ms state, e) (good, reads)
      | inr e ↦
          let packet =
            build_outbound_packet-IsPacket state m.channel m.delivery m.payload hc h.0.1 in
          let read =
            read_packet-build_outbound_packet state m.channel m.delivery m.payload hc h.0.0 in
          rw (build_all-packets now m ms state, e) ((packet, good), rw (read, reads))
    ]

sent-send_all :
    (addr : SocketAddr) (ds : List Bytes) (handle : TransportHandle)
    → (send_all addr ds handle).socket.sent ≡ handle.socket.sent ++ map (to_addr addr) ds
unfolding send_all send_raw_to
sent-send_all addr [] handle = sym (append-nil _)
sent-send_all addr (d ∷ ds) handle =
    sent-send_all addr ds (send_raw_to d addr handle)
    ∙ append_assoc handle.socket.sent ((addr, d) ∷ []) (map (to_addr addr) ds)

-- The messages handed to `send_many_slices` that are neither reliable nor too long for a datagram
-- reach the other end, which takes out of the datagrams to its address exactly these messages, in
-- their order, each with its channel, its delivery method and its payload.
pub send_many-received :
    (now id : ℕ) (ms : List Message) (state : PeerState) (handle : TransportHandle)
    → lookup id handle.peers ≡ some state
    → state.connection_number < 4
    → All IsSendable ms
    → (ds : List Bytes) × ((send_many now id ms handle).socket.sent
        ≡ handle.socket.sent ++ map (to_addr state.addr) ds)
      × (received ds ≡ map some (at_once ms))
unfolding send_many
send_many-received now id [] state handle e hc h = ([], sym (append-nil _), refl)
send_many-received now id (m ∷ ms) state handle e hc h =
    let built = build_all now (m ∷ ms) state in
    let (good, reads) = build_all_lem now (m ∷ ms) state hc h in
    (
      build_merged_datagrams state.connection_number built.0,
      rw (send_many, e)
          (sent-send_all state.addr (build_merged_datagrams state.connection_number built.0)
            (put_peer id built.1 handle)),
      ap (map read_packet) (unmerge-build_merged_datagrams state.connection_number built.0 hc good)
          ∙ reads,
    )
