-- ===== src/Transport/Dispatch/Fuel.antt =====
-- The levels of joined datagrams: as many as bytes are enough.
use basis_rust_server.Common.{
  ℕ, zero, suc, ◌<◌, ◌≤◌, ◌≡◌, refl, sym, ap, ◌∙◌, List, [], ◌∷◌, length, drop, All, Option, none,
  some, arith, Bool-cases, Option-cases, inl, inr, ltb, ◌==◌, length-take, length-drop,
}
use basis_rust_server.Common.Words.{Bytes, from_le_bytes}
use basis_rust_server.Transport.Address.{SocketAddr}
use basis_rust_server.Transport.Packet.{
  PacketProperty, merged, property_from_byte, connection_number_of, is_valid_merged_packet,
}
use basis_rust_server.Transport.Merge.{frames, valid_packets, merged_packets}
use basis_rust_server.Transport.Handle.{TransportHandle, Clock}
use basis_rust_server.Transport.Handle.Peers.{update_peer_at, see}
use basis_rust_server.Transport.Dispatch.{
  process_all, handle_property, process_header, server_info_request, process_with, process_packet,
}

abbrev Shorter : ℕ → Bytes → Type 0
Shorter n p = length p < n

frames-Shorter : (fuel n : ℕ) (rest : Bytes) → length rest ≤ n → All (Shorter n) (frames fuel rest)
unfolding frames
frames-Shorter zero n rest h = tt
frames-Shorter (suc fuel) n [] h = tt
frames-Shorter (suc fuel) n (b ∷ []) h = tt
frames-Shorter (suc fuel) n (a ∷ b ∷ rest) h =
    let size = from_le_bytes (a ∷ b ∷ []) in
    let more : All (Shorter n) (frames fuel (drop size rest)) =
      frames-Shorter fuel n (drop size rest) (omega (arith, length-drop size rest)) in
    elim (Bool-cases (size == 0)) [
      | inl e ↦ rw (frames, e) tt
      | inr e ↦ elim (Bool-cases (ltb (length rest) size)) [
        | inl k ↦ rw (frames, e, k) tt
        | inr k ↦ rw (frames, e, k) (omega (arith, length-take size rest), more)
      ]
    ]

valid_packets-Shorter :
    (n : ℕ) (ps : List Bytes) → All (Shorter n) ps → All (Shorter n) (valid_packets ps)
unfolding valid_packets
valid_packets-Shorter n [] h = tt
valid_packets-Shorter n (p ∷ ps) h = elim (Bool-cases (is_valid_merged_packet p)) [
  | inl e ↦ rw (valid_packets, e) (h.0, valid_packets-Shorter n ps h.1)
  | inr e ↦ rw (valid_packets, e) (valid_packets-Shorter n ps h.1)
]

-- The packets in a joined datagram are shorter than it.
pub merged_packets-Shorter : (bytes : Bytes) → All (Shorter (length bytes)) (merged_packets bytes)
unfolding merged_packets
merged_packets-Shorter bytes =
    valid_packets-Shorter (length bytes) (frames (length bytes) (drop 1 bytes)) (
      frames-Shorter (length bytes) (length bytes) (drop 1 bytes)
        (omega (arith, length-drop 1 bytes)))

module _ (inner inner' : Bytes → TransportHandle → TransportHandle) where
  abbrev Agree : ℕ → Type 0
  Agree n = (p : Bytes) (handle : TransportHandle) → length p < n → inner p handle ≡ inner' p handle

  process_all-Agree :
      (n : ℕ) (ps : List Bytes) (handle : TransportHandle)
      → Agree n
      → All (Shorter n) ps
      → process_all inner ps handle ≡ process_all inner' ps handle
  process_all-Agree n [] handle same h = refl
  process_all-Agree n (p ∷ ps) handle same h =
      ap (process_all inner ps) (same p handle h.0)
      ∙ process_all-Agree n ps (inner' p handle) same h.1

  handle_property-Agree :
      (clock : Clock) (addr : SocketAddr) (property : Option PacketProperty) (c : ℕ) (bytes : Bytes)
      (handle : TransportHandle)
      → Agree (length bytes)
      → handle_property inner clock addr property c bytes handle
        ≡ handle_property inner' clock addr property c bytes handle
  unfolding handle_property
  handle_property-Agree clock addr (some merged) c bytes handle same =
      process_all-Agree (length bytes) (merged_packets bytes)
        (update_peer_at (see clock.now) addr handle) same (merged_packets-Shorter bytes)
  handle_property-Agree clock addr (some _) c bytes handle same = refl
  handle_property-Agree clock addr none c bytes handle same = refl

  process_header-Agree :
      (clock : Clock) (addr : SocketAddr) (bytes : Bytes) (handle : TransportHandle)
      → Agree (length bytes)
      → process_header inner clock addr bytes handle ≡ process_header inner' clock addr bytes handle
  unfolding process_header
  process_header-Agree clock addr [] handle same = refl
  process_header-Agree clock addr (b ∷ bytes) handle same =
      handle_property-Agree clock addr (property_from_byte b) (connection_number_of b) (b ∷ bytes)
        handle same

  process_with-Agree :
      (clock : Clock) (addr : SocketAddr) (bytes : Bytes) (handle : TransportHandle)
      → Agree (length bytes)
      → process_with inner clock addr bytes handle ≡ process_with inner' clock addr bytes handle
  unfolding process_with
  process_with-Agree clock addr bytes handle same =
      elim (Option-cases (server_info_request bytes)) [
        | inl e ↦ rw (process_with, e) (process_header-Agree clock addr bytes handle same)
        | inr (payload, e) ↦ rw (process_with, e)
      ]

process_with-empty :
    (inner : Bytes → TransportHandle → TransportHandle) (clock : Clock) (addr : SocketAddr)
    (handle : TransportHandle)
    → process_with inner clock addr [] handle ≡ handle
unfolding process_with server_info_request process_header
process_with-empty inner clock addr handle = refl

-- Every number of levels from the length of the datagram on gives the same result: the recursion of
-- `process_packet` into joined datagrams ends by itself.
pub process_packet-enough :
    (n m : ℕ) (clock : Clock) (addr : SocketAddr) (bytes : Bytes) (handle : TransportHandle)
    → length bytes ≤ n
    → length bytes ≤ m
    → process_packet n clock addr bytes handle ≡ process_packet m clock addr bytes handle
unfolding process_packet
process_packet-enough zero zero clock addr bytes handle h k = refl
process_packet-enough zero (suc m) clock addr [] handle h k =
    sym (process_with-empty (process_packet m clock addr) clock addr handle)
process_packet-enough (suc n) zero clock addr [] handle h k =
    process_with-empty (process_packet n clock addr) clock addr handle
process_packet-enough zero (suc m) clock addr (b ∷ bytes) handle h k = absurd (omega arith)
process_packet-enough (suc n) zero clock addr (b ∷ bytes) handle h k = absurd (omega arith)
process_packet-enough (suc n) (suc m) clock addr bytes handle h k =
    process_with-Agree (process_packet n clock addr) (process_packet m clock addr) clock addr bytes
      handle
      (λ p handle' shorter.
        process_packet-enough n m clock addr p handle' (omega arith) (omega arith))
