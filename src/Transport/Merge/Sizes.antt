-- ===== src/Transport/Merge/Sizes.antt =====
-- How large the datagrams of `build_merged_datagrams` get.
use mathlib.Core.List.{foldl}
use basis_rust_server.Common.{
  ℕ, ◌+◌, ◌%◌, ◌^◌, ◌≤◌, ◌≡◌, refl, Bool, true, false, List, [], ◌∷◌, ◌++◌, length, take, drop, ltb,
  leb, ◌&&◌, if◌then◌else◌, arith, All, All-append, length-append, Bool-cases, inl, inr,
  length-take, length-drop,
}
use basis_rust_server.Common.Words.{Bytes, to_le_bytes, length-to_le_bytes, from_le_bytes}
use basis_rust_server.Transport.Merge.{
  unpack_single_merged_packet, Merging, closed, flush, make_room, send_alone, append_packet,
  merge_packet, finish, start, build_merged_datagrams, max_merged_packet_size,
}

abbrev pub Within : ℕ → Bytes → Type 0
Within n d = length d ≤ n

-- The sizes of what a loop of `build_merged_datagrams` holds, for packets of `n` bytes at most.
record IsSized (n : ℕ) (m : Merging) : Type 0 where
  sent : All (Within n) m.datagrams
  bounded : length m.current ≤ max_merged_packet_size
  clean : m.current_count ≡ 0 → length m.current ≡ 1

length-unpack-le : (bs : Bytes) → length (unpack_single_merged_packet bs) ≤ length bs
unfolding unpack_single_merged_packet
length-unpack-le bs =
    ground (arith, length-take (from_le_bytes (take 2 (drop 1 bs))) (drop 3 bs), length-drop 3 bs)

length-closed-le : (m : Merging) → length (closed m) ≤ length m.current
unfolding closed
length-closed-le m = ground (arith, length-unpack-le m.current)

module _ (c n : ℕ) (wide : max_merged_packet_size ≤ n) where
  flush-IsSized : (m : Merging) → IsSized n m → IsSized n (flush c m)
  unfolding flush
  flush-IsSized m s = record {
    sent =
        All-append (Within n) m.datagrams (closed m ∷ []) s.sent
          (omega (arith, length-closed-le m, s.bounded), tt);
    bounded = omega arith;
    clean = λ _. refl;
  }

  make_room-IsSized :
      (packet : Bytes) (m : Merging)
      → IsSized n m
      → IsSized n (make_room c packet m)
        × (2 + length packet + 1 ≤ max_merged_packet_size
            → length (make_room c packet m).current + (2 + length packet) ≤ max_merged_packet_size)
  unfolding make_room
  make_room-IsSized packet m s =
      let full = ltb 0 m.current_count && ltb 1200 (length m.current + (2 + length packet)) in
      elim (Bool-cases full) [
        | inl over ↦ rw over (flush-IsSized m s, λ h. unfold flush in omega arith)
        | inr room ↦ rw room (s, λ h. ground (arith, s.clean))
      ]

  send_alone-IsSized :
      (packet : Bytes) (m : Merging)
      → Within n packet
      → IsSized n m
      → IsSized n (send_alone c packet m)
  unfolding send_alone
  send_alone-IsSized packet m h s =
      let m' = if ltb 0 m.current_count then flush c m else m in
      let s' : IsSized n m' = emptied (ltb 0 m.current_count) in
      record {
        sent = All-append (Within n) m'.datagrams (packet ∷ []) s'.sent (h, tt);
        bounded = s'.bounded;
        clean = s'.clean;
      }
    where
      emptied : (b : Bool) → IsSized n (if b then flush c m else m)
      emptied true = flush-IsSized m s
      emptied false = s

  merge_packet-IsSized :
      (packet : Bytes) (m : Merging)
      → Within n packet
      → IsSized n m
      → IsSized n (merge_packet c m packet)
  unfolding merge_packet append_packet
  merge_packet-IsSized packet m h s =
      let (s', room) = make_room-IsSized packet m s in
      let m' = make_room c packet m in
      elim (Bool-cases (ltb 1200 (2 + length packet + 1))) [
        | inl large ↦ rw large (send_alone-IsSized packet m' h s')
        | inr small ↦ rw small (record {
          sent = s'.sent;
          bounded = ground (
            arith,
            room,
            length-append (m'.current ++ to_le_bytes 2 (length packet % 2 ^ 16)) packet,
            length-append m'.current (to_le_bytes 2 (length packet % 2 ^ 16)),
            length-to_le_bytes 2 (length packet % 2 ^ 16),
          );
          clean = λ e. absurd (omega arith);
        })
      ]

  foldl-IsSized :
      (packets : List Bytes) (m : Merging)
      → All (Within n) packets
      → IsSized n m
      → IsSized n (foldl (merge_packet c) m packets)
  foldl-IsSized [] m h s = s
  foldl-IsSized (p ∷ ps) m h s =
      foldl-IsSized ps (merge_packet c m p) h.1 (merge_packet-IsSized p m h.0 s)

  finish-IsSized : (m : Merging) → IsSized n m → All (Within n) (finish m)
  unfolding finish
  finish-IsSized m s = elim (Bool-cases (ltb 0 m.current_count)) [
    | inl some_left ↦ rw some_left (
        All-append (Within n) m.datagrams (closed m ∷ []) s.sent
          (omega (arith, length-closed-le m, s.bounded), tt))
    | inr none_left ↦ rw none_left s.sent
  ]

-- No datagram is longer than the limit of 1200 bytes, or than the longest packet if that is longer.
pub build_merged_datagrams-Within :
    (c n : ℕ) (packets : List Bytes)
    → max_merged_packet_size ≤ n
    → All (Within n) packets
    → All (Within n) (build_merged_datagrams c packets)
unfolding build_merged_datagrams
build_merged_datagrams-Within c n packets wide h = elim (Bool-cases (leb (length packets) 1)) [
  | inl few ↦ rw few h
  | inr many ↦ rw many (
      finish-IsSized c n wide (foldl (merge_packet c) (start c) packets) (
        foldl-IsSized c n wide packets (start c) h
          (record { sent = tt; bounded = omega arith; clean = λ _. refl })))
]
