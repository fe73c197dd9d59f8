-- ===== src/Transport/Peer.antt =====
-- The state of one peer, and what is done to it by a packet that goes out or an acknowledgement
-- that comes in: BasisRustServer/crates/basis-transport/src/lib.rs. Instants are numbers.
pub mod Pending
pub mod Packets
pub mod Acked
use basis_rust_server.Common.{
  ℕ, ◌+◌, ◌-◌, ◌%◌, ◌^◌, Bool, false, List, [], ◌∷◌, ◌++◌, length, take, drop, get_or, Option, none,
  some, ltb, leb, ◌==◌, not, ◌||◌, if◌then◌else◌, ℕ_discrete, ◌|>◌,
}
use basis_rust_server.Common.Maps.{Key, Map, lookup, insert, remove, retain_keys, nat_key}
use basis_rust_server.Common.Words.{Bytes, from_le_bytes}
use basis_rust_server.Protocol.Io.{NetWriter, new_writer, put_u8, put_u16, put_bytes}
use basis_rust_server.Transport.Packet.{
  unreliable, channeled, header, DeliveryMethod, sequenced, unreliable_delivery, channel_id_of,
}
use basis_rust_server.Transport.Acks.{AckState, fresh_ack, queue_in_window, is_acked, max_sequence}
use basis_rust_server.Transport.Address.{SocketAddr}

pub data PendingReliableKey : Type 0 where
  pending_key : ℕ → ℕ → PendingReliableKey

pub PendingReliableKey-discrete : Discrete PendingReliableKey
PendingReliableKey-discrete = hlevel ℕ_discrete

instance abbrev pub pending_key_key : Key PendingReliableKey
pending_key_key = record { same = PendingReliableKey-discrete }

pub record PendingReliable : Type 0 where
  pub bytes : Bytes
  pub last_sent : ℕ

pub record PeerState : Type 0 where
  pub id : ℕ
  pub addr : SocketAddr
  pub connection_number : ℕ
  pub connect_time : ℕ
  pub last_seen : ℕ
  pub last_ping_sent : ℕ
  pub next_ping_sequence : ℕ
  pub next_reliable_sequence : Map ℕ ℕ
  pub next_sequenced_sequence : Map ℕ ℕ
  pub pending_reliable : Map PendingReliableKey PendingReliable
  pub outgoing_reliable : Map ℕ (List Bytes)
  pub outgoing_acks : Map ℕ AckState

abbrev pub max_pending_reliable_per_peer : ℕ
max_pending_reliable_per_peer = 4096

abbrev pub or_default {ℓ} : {A : Type ℓ} → A → Option A → A
or_default a none = a
or_default a (some b) = b

-- The number of the next packet of a channel, and the table with the one after it.
unfoldable pub next_channel_sequence : ℕ → Map ℕ ℕ → ℕ × Map ℕ ℕ
next_channel_sequence channel_id sequences =
    let current = or_default 0 (lookup channel_id sequences) in
    (current, insert channel_id ((current + 1) % 2 ^ 16 % max_sequence) sequences)

pub record BuiltPacket : Type 0 where
  pub bytes : Bytes
  pub reliable_key : Option (ℕ × ℕ)

unfoldable pub channeled_bytes : ℕ → ℕ → ℕ → Bytes → Bytes
channeled_bytes connection_number sequence channel_id payload = NetWriter.bytes (
    new_writer
    |> put_u8 (header channeled connection_number)
    |> put_u16 sequence
    |> put_u8 channel_id
    |> put_bytes payload)

-- The three shapes of a packet. `build_outbound_packet` also moves the sequence of its channel on.
unfoldable pub build_outbound_packet :
    PeerState → ℕ → DeliveryMethod → Bytes → BuiltPacket × PeerState
unfolding next_channel_sequence channeled_bytes put_u8 put_u16 put_bytes new_writer
build_outbound_packet state channel unreliable_delivery payload = (
  record {
    bytes = NetWriter.bytes (
        new_writer
        |> put_u8 (header unreliable state.connection_number)
        |> put_u8 channel
        |> put_bytes payload);
    reliable_key = none;
  },
  state,
)
build_outbound_packet state channel sequenced payload =
    let channel_id = channel_id_of channel sequenced in
    let (sequence, sequences) = next_channel_sequence channel_id state.next_sequenced_sequence in
    (
      record {
        bytes = channeled_bytes state.connection_number sequence channel_id payload;
        reliable_key = none;
      },
      record state { next_sequenced_sequence = sequences },
    )
build_outbound_packet state channel delivery payload =
    let channel_id = channel_id_of channel delivery in
    let (sequence, sequences) = next_channel_sequence channel_id state.next_reliable_sequence in
    (
      record {
        bytes = channeled_bytes state.connection_number sequence channel_id payload;
        reliable_key = some (channel_id, sequence);
      },
      record state { next_reliable_sequence = sequences },
    )

unfoldable pub build_queued_reliable_packet : PeerState → ℕ → Bytes → BuiltPacket × PeerState
unfolding next_channel_sequence channeled_bytes put_u8 put_u16 put_bytes new_writer
build_queued_reliable_packet state channel_id payload =
    let (sequence, sequences) = next_channel_sequence channel_id state.next_reliable_sequence in
    (
      record {
        bytes = channeled_bytes state.connection_number sequence channel_id payload;
        reliable_key = some (channel_id, sequence);
      },
      record state { next_reliable_sequence = sequences },
    )

-- `iter().min_by_key(last_sent)`: the first of the least.
unfoldable pub oldest : Map PendingReliableKey PendingReliable → Option (PendingReliableKey × ℕ)
oldest [] = none
oldest ((k, item) ∷ m) = elim (oldest m) [
  | none ↦ some (k, item.last_sent)
  | some (j, t) ↦ if ltb t item.last_sent then some (j, t) else some (k, item.last_sent)
]

unfoldable pub drop_oldest :
    Map PendingReliableKey PendingReliable → Map PendingReliableKey PendingReliable
unfolding oldest
drop_oldest pending = elim (oldest pending) [ none ↦ pending | some (k, _) ↦ remove k pending ]

unfoldable pub record_pending : ℕ → Bytes → Option (ℕ × ℕ) → PeerState → PeerState
unfolding drop_oldest
record_pending now bytes none state = state
record_pending now bytes (some (channel_id, sequence)) state =
    let pending = state.pending_reliable in
    let kept =
      if leb max_pending_reliable_per_peer (length pending) then drop_oldest pending else pending in
    record state {
      pending_reliable =
          insert (pending_key channel_id sequence) (record { bytes = bytes; last_sent = now }) kept;
    }

unfoldable pub record_pending_reliable : ℕ → BuiltPacket → PeerState → PeerState
unfolding record_pending
record_pending_reliable now built state = record_pending now built.bytes built.reliable_key state

unfoldable pub enqueue_reliable_payload : ℕ → DeliveryMethod → Bytes → PeerState → PeerState
enqueue_reliable_payload channel delivery payload state =
    let channel_id = channel_id_of channel delivery in
    let queue = or_default [] (lookup channel_id state.outgoing_reliable) in
    record state {
      outgoing_reliable = insert channel_id (queue ++ (payload ∷ [])) state.outgoing_reliable;
    }

keeps_pending : ℕ → ℕ → Bytes → PendingReliableKey → Bool
keeps_pending window_start channel_id ack_bits (pending_key channel sequence) =
    not (channel == channel_id) || not (is_acked window_start ack_bits sequence)

unfoldable pub process_ack : Bytes → PeerState → PeerState
unfolding keeps_pending
process_ack bytes state =
    let window_start = from_le_bytes (take 2 (drop 1 bytes)) in
    if ltb (length bytes) 4 then state else record state {
      pending_reliable =
          retain_keys (keeps_pending window_start (get_or bytes 3 0) (drop 4 bytes))
            state.pending_reliable;
    }

unfoldable pub queue_ack : ℕ → ℕ → PeerState → PeerState
queue_ack channel_id sequence state =
    let ack = or_default (fresh_ack sequence) (lookup channel_id state.outgoing_acks) in
    record state {
      outgoing_acks = insert channel_id (queue_in_window sequence ack) state.outgoing_acks;
    }

unfoldable pub disconnect_matches : PeerState → Bytes → ℕ → Bool
disconnect_matches peer bytes connection_number =
    if ltb (length bytes) 9 || not (connection_number == peer.connection_number)
    then false
    else from_le_bytes (take 8 (drop 1 bytes)) == peer.connect_time
