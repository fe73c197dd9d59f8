-- ===== src/Transport/Merge.antt =====
-- Packets joined into datagrams, and taken apart: `build_merged_datagrams` and
-- `process_merged_packet` of BasisRustServer/crates/basis-transport/src/lib.rs.
pub mod Unmerge
pub mod RoundTrip
pub mod Sizes
use mathlib.Core.List.{foldl}
use basis_rust_server.Common.{
  ℕ, zero, suc, ◌+◌, ◌%◌, ◌^◌, List, [], ◌∷◌, ◌++◌, length, take, drop, ltb, leb, ◌==◌, ◌&&◌,
  if◌then◌else◌,
}
use basis_rust_server.Common.Words.{Bytes, to_le_bytes, from_le_bytes}
use basis_rust_server.Transport.Packet.{merged, header, is_valid_merged_packet}

abbrev pub max_merged_packet_size : ℕ
max_merged_packet_size = 1200

unfoldable pub unpack_single_merged_packet : Bytes → Bytes
unpack_single_merged_packet bytes =
    let size = from_le_bytes (take 2 (drop 1 bytes)) in
    if ltb (length bytes) 3
    then bytes
    else if ltb (length bytes) (3 + size)
    then bytes
    else take size (drop 3 bytes)

-- The variables of the loop of `build_merged_datagrams`.
pub record Merging : Type 0 where
  pub datagrams : List Bytes
  pub current : Bytes
  pub current_count : ℕ

abbrev pub fresh : ℕ → Bytes
fresh connection_number = header merged connection_number ∷ []

-- The datagram that `current` ends as: a lone packet goes out bare.
unfoldable pub closed : Merging → Bytes
closed m = if m.current_count == 1 then unpack_single_merged_packet m.current else m.current

unfoldable pub flush : ℕ → Merging → Merging
unfolding closed
flush connection_number m = record {
  datagrams = m.datagrams ++ (closed m ∷ []);
  current = fresh connection_number;
  current_count = 0;
}

unfoldable pub make_room : ℕ → Bytes → Merging → Merging
unfolding flush
make_room connection_number packet m =
    if ltb 0 m.current_count && ltb max_merged_packet_size (length m.current + (2 + length packet))
    then flush connection_number m
    else m

-- A packet too large for a merged datagram goes out by itself, after what waits.
unfoldable pub send_alone : ℕ → Bytes → Merging → Merging
unfolding flush
send_alone connection_number packet m =
    let m' = if ltb 0 m.current_count then flush connection_number m else m in
    record m' { datagrams = m'.datagrams ++ (packet ∷ []) }

unfoldable pub append_packet : Bytes → Merging → Merging
append_packet packet m = record m {
  current = (m.current ++ to_le_bytes 2 (length packet % 2 ^ 16)) ++ packet;
  current_count = m.current_count + 1;
}

unfoldable pub merge_packet : ℕ → Merging → Bytes → Merging
unfolding make_room send_alone append_packet
merge_packet connection_number m packet =
    let m' = make_room connection_number packet m in
    if ltb max_merged_packet_size (2 + length packet + 1)
    then send_alone connection_number packet m'
    else append_packet packet m'

unfoldable pub finish : Merging → List Bytes
unfolding closed
finish m = if ltb 0 m.current_count then m.datagrams ++ (closed m ∷ []) else m.datagrams

abbrev pub start : ℕ → Merging
start connection_number = record {
  datagrams = [];
  current = fresh connection_number;
  current_count = 0;
}

unfoldable pub build_merged_datagrams : ℕ → List Bytes → List Bytes
unfolding merge_packet finish
build_merged_datagrams connection_number packets =
    if leb (length packets) 1
    then packets
    else finish (foldl (merge_packet connection_number) (start connection_number) packets)

-- The packets that the loop of `process_merged_packet` cuts out of `bytes[position..]`. Every round
-- but the last takes two bytes at least, so as many rounds as bytes are enough.
unfoldable pub frames : ℕ → Bytes → List Bytes
frames zero rest = []
frames (suc fuel) [] = []
frames (suc fuel) (b ∷ []) = []
frames (suc fuel) (a ∷ b ∷ rest) =
    let size = from_le_bytes (a ∷ b ∷ []) in
    let more = frames fuel (drop size rest) in
    if size == 0 then [] else if ltb (length rest) size then [] else take size rest ∷ more

unfoldable pub valid_packets : List Bytes → List Bytes
valid_packets [] = []
valid_packets (packet ∷ packets) =
    if is_valid_merged_packet packet then packet ∷ valid_packets packets else valid_packets packets

-- The packets that `process_merged_packet` hands to `process_packet`, in order.
unfoldable pub merged_packets : Bytes → List Bytes
unfolding frames valid_packets
merged_packets bytes = valid_packets (frames (length bytes) (drop 1 bytes))
