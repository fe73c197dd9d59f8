-- ===== src/Tests/Transport.antt =====
-- The transport at concrete inputs.
use basis_rust_server.Common.{
  ℕ, ◌+◌, ◌%◌, ◌<◌, ◌≡◌, refl, List, [], ◌∷◌, concat, map, All, arith, none, some, ltb, leb, ◌==◌,
  ◌&&◌, if◌then◌else◌,
}
use basis_rust_server.Common.Maps.{Map, lookup, nat_key}
use basis_rust_server.Common.Words.{Bytes}
use basis_rust_server.Transport.Packet.{
  channeled, header, property_from_byte, connection_number_of, is_valid_merged_packet,
  reliable_ordered, connection_number_of-header,
}
use basis_rust_server.Transport.Merge.{build_merged_datagrams}
use basis_rust_server.Transport.Merge.RoundTrip.{unmerge-build_merged_datagrams}
use basis_rust_server.Transport.Merge.Unmerge.{IsPacket, unmerge}
use basis_rust_server.Transport.Merge.Sizes.{Within, build_merged_datagrams-Within}
use basis_rust_server.Transport.Acks.{AckState, build_ack_packet}
use basis_rust_server.Transport.Address.{v4, socket_addr}
use basis_rust_server.Transport.Peer.{
  PeerState, PendingReliable, PendingReliableKey, pending_key, pending_key_key,
  build_outbound_packet, process_ack,
}
use basis_rust_server.Transport.Peer.Packets.{read_packet, read_packet-build_outbound_packet}
use basis_rust_server.Transport.Peer.Acked.{window_after, contains, receive_all, acknowledged}

-- Two unreliable packets and a channeled one.
abbrev some_packets : List Bytes
some_packets = (0 ∷ 5 ∷ 7 ∷ []) ∷ (1 ∷ 1 ∷ 0 ∷ 2 ∷ 9 ∷ []) ∷ (0 ∷ 6 ∷ []) ∷ []

some_packets-IsPacket : All IsPacket some_packets
unfolding is_valid_merged_packet property_from_byte
some_packets-IsPacket = (
  record { valid = refl; plain = λ e. absurd cc; short = omega arith },
  (
    record { valid = refl; plain = λ e. absurd cc; short = omega arith },
    (record { valid = refl; plain = λ e. absurd cc; short = omega arith }, tt),
  ),
)

unmerge-build_merged_datagrams_example :
    concat (map unmerge (build_merged_datagrams 2 some_packets)) ≡ some_packets
unmerge-build_merged_datagrams_example =
    unmerge-build_merged_datagrams 2 some_packets (omega arith) some_packets-IsPacket

build_merged_datagrams-Within_example : All (Within 1300) (build_merged_datagrams 2 some_packets)
build_merged_datagrams-Within_example =
    build_merged_datagrams-Within 2 1300 some_packets (omega arith)
      (omega arith, (omega arith, (omega arith, tt)))

abbrev pub peer : PeerState
peer = record {
  id = 3;
  addr = socket_addr (v4 (127 ∷ 0 ∷ 0 ∷ 1 ∷ [])) 4296;
  connection_number = 1;
  connect_time = 42;
  last_seen = 0;
  last_ping_sent = 0;
  next_ping_sequence = 0;
  next_reliable_sequence = [];
  next_sequenced_sequence = [];
  pending_reliable = [];
  outgoing_reliable = [];
  outgoing_acks = [];
}

acknowledged_example :
    let w = window_after 5 (9 ∷ []) in
    (a : AckState) × (lookup 2 (receive_all 2 (5 ∷ 9 ∷ []) peer).outgoing_acks ≡ some a)
    × ((c t : ℕ)
        → w < t + 16384
        → t < w + 16384
        → lookup
            (pending_key c (t % 32768))
            (process_ack (build_ack_packet 1 2 a) peer).pending_reliable
          ≡ (if c == 2 && (leb w t && ltb t (w + 128) && contains (5 ∷ 9 ∷ []) t)
              then none
              else lookup (pending_key c (t % 32768)) peer.pending_reliable))
unfolding lookup
acknowledged_example = acknowledged 2 5 1 (9 ∷ []) peer peer refl (omega arith, omega arith, tt)

read_packet-build_outbound_packet_example :
    read_packet (build_outbound_packet peer 7 reliable_ordered (1 ∷ 2 ∷ [])).0.bytes
    ≡ some (record { channel = 7; delivery = reliable_ordered; payload = 1 ∷ 2 ∷ [] })
read_packet-build_outbound_packet_example =
    read_packet-build_outbound_packet peer 7 reliable_ordered (1 ∷ 2 ∷ []) (omega arith)
      (omega arith)

abbrev waiting : Map PendingReliableKey PendingReliable
waiting =
    (pending_key 4 5, record { bytes = []; last_sent = 8 })
    ∷ (pending_key 4 6, record { bytes = []; last_sent = 3 })
    ∷ []

connection_number_of-header_example : connection_number_of (header channeled 3) ≡ 3
connection_number_of-header_example = connection_number_of-header channeled 3 (omega arith)
