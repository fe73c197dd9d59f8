-- ===== src/Transport/Peer/Packets.antt =====
-- What goes out to a peer is read by the other end as it was meant.
use basis_rust_server.Common.{
  ℕ, ◌+◌, ◌/◌, ◌%◌, ◌<◌, ◌≡◌, refl, List, [], ◌∷◌, Option, none, some, ◌==◌, if◌then◌else◌, arith,
}
use basis_rust_server.Common.Maps.{Map, lookup, lookup-insert, nat_key}
use basis_rust_server.Common.Words.{Bytes, to_le_bytes}
use basis_rust_server.Protocol.Io.{put_u8, put_u16, put_bytes, new_writer}
use basis_rust_server.Transport.Packet.{
  PacketProperty, unreliable, channeled, header, DeliveryMethod, reliable_unordered, sequenced,
  reliable_ordered, reliable_sequenced, unreliable_delivery, channel_id_of,
  delivery_from_channel_id, parse_message_packet, Message, first_property,
  property_from_byte-header,
}
use basis_rust_server.Transport.Peer.{
  PeerState, build_outbound_packet, next_channel_sequence, channeled_bytes, or_default,
}

abbrev read_as : Option PacketProperty → Bytes → Option Message
read_as none bytes = none
read_as (some property) bytes = parse_message_packet property bytes

-- The packet that a datagram holds, as `process_packet` reads it.
abbrev pub read_packet : Bytes → Option Message
read_packet bytes = read_as (first_property bytes) bytes

pub parse-channeled :
    (a b c channel_id : ℕ) (payload : Bytes)
    → parse_message_packet channeled (a ∷ b ∷ c ∷ channel_id ∷ payload)
      ≡ some (record {
        channel = channel_id / 4;
        delivery = delivery_from_channel_id channel_id;
        payload = payload;
      })
unfolding parse_message_packet
parse-channeled a b c channel_id payload = ground arith

pub parse-unreliable :
    (a channel : ℕ) (payload : Bytes)
    → parse_message_packet unreliable (a ∷ channel ∷ payload)
      ≡ some (record { channel = channel; delivery = unreliable_delivery; payload = payload })
unfolding parse_message_packet
parse-unreliable a channel payload = ground arith

pub channeled_bytes_lem :
    (c sequence channel_id : ℕ) (payload : Bytes)
    → channeled_bytes c sequence channel_id payload
      ≡ header channeled c ∷ (sequence % 256) ∷ (sequence / 256 % 256) ∷ channel_id ∷ payload
unfolding channeled_bytes put_u8 put_u16 put_bytes new_writer to_le_bytes
channeled_bytes_lem c sequence channel_id payload = refl

read-channeled :
    (c sequence channel : ℕ) (delivery : DeliveryMethod) (payload : Bytes)
    → c < 4
    → channel_id_of channel delivery / 4 ≡ channel
    → delivery_from_channel_id (channel_id_of channel delivery) ≡ delivery
    → read_packet (channeled_bytes c sequence (channel_id_of channel delivery) payload)
      ≡ some (record { channel = channel; delivery = delivery; payload = payload })
read-channeled c sequence channel delivery payload hc e f =
    rw (channeled_bytes_lem, property_from_byte-header channeled c hc, parse-channeled, e, f)

-- The channel ids of a channel below 64 keep the channel and the method.
module _ (channel : ℕ) (h : channel < 64) where
  channel_id-reliable_unordered :
      (channel_id_of channel reliable_unordered / 4 ≡ channel)
      × (delivery_from_channel_id (channel_id_of channel reliable_unordered) ≡ reliable_unordered)
  unfolding channel_id_of delivery_from_channel_id
  channel_id-reliable_unordered = ground arith

  channel_id-sequenced :
      (channel_id_of channel sequenced / 4 ≡ channel)
      × (delivery_from_channel_id (channel_id_of channel sequenced) ≡ sequenced)
  unfolding channel_id_of delivery_from_channel_id
  channel_id-sequenced = ground arith

  channel_id-reliable_ordered :
      (channel_id_of channel reliable_ordered / 4 ≡ channel)
      × (delivery_from_channel_id (channel_id_of channel reliable_ordered) ≡ reliable_ordered)
  unfolding channel_id_of delivery_from_channel_id
  channel_id-reliable_ordered = ground arith

  channel_id-reliable_sequenced :
      (channel_id_of channel reliable_sequenced / 4 ≡ channel)
      × (delivery_from_channel_id (channel_id_of channel reliable_sequenced) ≡ reliable_sequenced)
  unfolding channel_id_of delivery_from_channel_id
  channel_id-reliable_sequenced = ground arith

-- Every packet built for a peer is parsed to the message it was built from, for a channel below 64.
pub read_packet-build_outbound_packet :
    (state : PeerState) (channel : ℕ) (delivery : DeliveryMethod) (payload : Bytes)
    → state.connection_number < 4
    → channel < 64
    → read_packet (build_outbound_packet state channel delivery payload).0.bytes
      ≡ some (record { channel = channel; delivery = delivery; payload = payload })
unfolding build_outbound_packet
read_packet-build_outbound_packet state channel unreliable_delivery payload hc h =
    rw (property_from_byte-header unreliable state.connection_number hc)
      (parse-unreliable (header unreliable state.connection_number) channel payload)
read_packet-build_outbound_packet state channel sequenced payload hc h =
    read-channeled state.connection_number _ channel sequenced payload hc
      (channel_id-sequenced channel h).0 (channel_id-sequenced channel h).1
read_packet-build_outbound_packet state channel reliable_unordered payload hc h =
    read-channeled state.connection_number _ channel reliable_unordered payload hc
      (channel_id-reliable_unordered channel h).0 (channel_id-reliable_unordered channel h).1
read_packet-build_outbound_packet state channel reliable_ordered payload hc h =
    read-channeled state.connection_number _ channel reliable_ordered payload hc
      (channel_id-reliable_ordered channel h).0 (channel_id-reliable_ordered channel h).1
read_packet-build_outbound_packet state channel reliable_sequenced payload hc h =
    read-channeled state.connection_number _ channel reliable_sequenced payload hc
      (channel_id-reliable_sequenced channel h).0 (channel_id-reliable_sequenced channel h).1

-- The tables after a run of packets, each given by the id of its channel.
abbrev pub after_packets : List ℕ → Map ℕ ℕ → Map ℕ ℕ
after_packets [] sequences = sequences
after_packets (channel_id ∷ ids) sequences =
    after_packets ids (next_channel_sequence channel_id sequences).1

abbrev pub count : ℕ → List ℕ → ℕ
count c [] = 0
count c (channel_id ∷ ids) = (if channel_id == c then 1 else 0) + count c ids

next-next :
    (c d : ℕ) (m : Map ℕ ℕ)
    → (next_channel_sequence c m).0 < 32768
    → (next_channel_sequence c (next_channel_sequence d m).1).0
      ≡ ((next_channel_sequence c m).0 + (if d == c then 1 else 0)) % 32768
unfolding next_channel_sequence
next-next c d m h =
    ground (arith, lookup-insert d c ((or_default 0 (lookup d m) + 1) % 65536 % 32768) m)

-- Whatever other channels send in between, a channel numbers its packets one after the other, by the
-- remainder by 32768.
next_channel_sequence-after_packets :
    (c : ℕ) (ids : List ℕ) (sequences : Map ℕ ℕ)
    → (next_channel_sequence c sequences).0 < 32768
    → (next_channel_sequence c (after_packets ids sequences)).0
      ≡ ((next_channel_sequence c sequences).0 + count c ids) % 32768
next_channel_sequence-after_packets c [] m h = omega arith
next_channel_sequence-after_packets c (d ∷ ids) m h =
    let step = next-next c d m h in
    omega (
      arith,
      step,
      next_channel_sequence-after_packets c ids (next_channel_sequence d m).1 (omega (arith, step)),
    )
