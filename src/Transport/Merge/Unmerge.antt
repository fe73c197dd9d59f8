-- ===== src/Transport/Merge/Unmerge.antt =====
-- What is taken out of one datagram.
use basis_rust_server.Common.{
  ℕ, zero, suc, ◌^◌, ◌<◌, ◌≤◌, ◌≡◌, ◌≢◌, refl, sym, ap, ◌∙◌, true, List, [], ◌∷◌, ◌++◌, length,
  Option, some, arith, All, take-append, drop-append, append_assoc, append-nil, length-append,
}
use basis_rust_server.Common.Words.{
  Bytes, to_le_bytes, from_le_bytes-to_le_bytes, length-to_le_bytes,
}
use basis_rust_server.Transport.Packet.{
  PacketProperty, merged, header, is_valid_merged_packet, first_property, property_from_byte-header,
}
use basis_rust_server.Transport.Merge.{
  unpack_single_merged_packet, frames, valid_packets, merged_packets,
}

-- What a peer is sent: whole packets of their property, none merged already.
pub record IsPacket (p : Bytes) : Type 0 where
  pub valid : is_valid_merged_packet p ≡ true
  pub plain : first_property p ≢ some merged
  pub short : length p < 2 ^ 16

-- The packets that a received datagram stands for.
unmerge_as : Option PacketProperty → Bytes → List Bytes
unmerge_as (some merged) bytes = merged_packets bytes
unmerge_as _ bytes = bytes ∷ []

unfoldable pub unmerge : Bytes → List Bytes
unfolding unmerge_as
unmerge bytes = unmerge_as (first_property bytes) bytes

abbrev pub frame : Bytes → Bytes
frame p = to_le_bytes 2 (length p) ++ p

abbrev pub framed : List Bytes → Bytes
framed [] = []
framed (p ∷ ps) = frame p ++ framed ps

pub valid_nonempty : (p : Bytes) → is_valid_merged_packet p ≡ true → 0 < length p
unfolding is_valid_merged_packet
valid_nonempty [] h = cc
valid_nonempty (b ∷ p) h = omega arith

frames_step :
    (fuel : ℕ) (p rest : Bytes)
    → 0 < length p
    → length p < 2 ^ 16
    → frames (suc fuel) (frame p ++ rest) ≡ p ∷ frames fuel rest
unfolding frames to_le_bytes
frames_step fuel p rest h k = ground (
  arith,
  from_le_bytes-to_le_bytes 2 (length p),
  take-append p rest,
  drop-append p rest,
  length-append p rest,
)

frames-framed :
    (ps : List Bytes) (fuel : ℕ) → All IsPacket ps → length ps ≤ fuel → frames fuel (framed ps) ≡ ps
frames-framed [] zero h k = unfold frames in refl
frames-framed [] (suc fuel) h k = unfold frames in refl
frames-framed (p ∷ ps) zero h k = absurd (omega arith)
frames-framed (p ∷ ps) (suc fuel) h k =
    frames_step fuel p (framed ps) (valid_nonempty p h.0.valid) h.0.short
    ∙ ap (◌∷◌ p) (frames-framed ps fuel h.1 (omega arith))

valid_packets-All : (ps : List Bytes) → All IsPacket ps → valid_packets ps ≡ ps
unfolding valid_packets
valid_packets-All [] h = refl
valid_packets-All (p ∷ ps) h = rw h.0.valid (ap (◌∷◌ p) (valid_packets-All ps h.1))

length-le-framed : (ps : List Bytes) → length ps ≤ length (framed ps)
length-le-framed [] = omega arith
length-le-framed (p ∷ ps) = omega (
  arith,
  length-le-framed ps,
  length-append (frame p) (framed ps),
  length-append (to_le_bytes 2 (length p)) p,
  length-to_le_bytes 2 (length p),
)

merged_packets-framed :
    (h : ℕ) (ps : List Bytes) → All IsPacket ps → merged_packets (h ∷ framed ps) ≡ ps
unfolding merged_packets
merged_packets-framed h ps good =
    ap valid_packets
      (frames-framed ps (suc (length (framed ps))) good (omega (arith, length-le-framed ps)))
    ∙ valid_packets-All ps good

unmerge_as_plain :
    (o : Option PacketProperty) (p : Bytes) → o ≢ some merged → unmerge_as o p ≡ p ∷ []
unfolding unmerge_as
unmerge_as_plain (some merged) p h = absurd (h refl)
unmerge_as_plain _ p h = refl

pub unmerge-packet : (p : Bytes) → IsPacket p → unmerge p ≡ p ∷ []
unfolding unmerge
unmerge-packet p h = unmerge_as_plain (first_property p) p h.plain

pub unmerge-framed :
    (c : ℕ) (ps : List Bytes) → c < 4 → All IsPacket ps → unmerge (header merged c ∷ framed ps) ≡ ps
unfolding unmerge
unmerge-framed c ps hc good =
    rw (property_from_byte-header merged c hc, unmerge)
      (merged_packets-framed (header merged c) ps good)

pub unpack-frame :
    (h : ℕ) (p : Bytes)
    → 0 < length p
    → length p < 2 ^ 16
    → unpack_single_merged_packet (h ∷ (frame p ++ [])) ≡ p
unfolding unpack_single_merged_packet to_le_bytes
unpack-frame h p pos short =
    ground (arith, from_le_bytes-to_le_bytes 2 (length p), append-nil p, take-append p [])

pub framed-append : (ps : List Bytes) (p : Bytes) → framed (ps ++ (p ∷ [])) ≡ framed ps ++ frame p
framed-append [] p = append-nil (frame p)
framed-append (q ∷ ps) p =
    rw (framed-append ps p) (sym (append_assoc (frame q) (framed ps) (frame p)))
