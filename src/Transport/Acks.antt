-- ===== src/Transport/Acks.antt =====
-- Sequence numbers and acknowledgements of BasisRustServer/crates/basis-transport/src/lib.rs.
pub mod Bits
pub mod Window
use basis_rust_server.Common.{
  ℕ, zero, suc, ◌+◌, ◌-◌, ◌/◌, ◌%◌, ◌^◌, Bool, false, [], ◌∷◌, ◌++◌, get_elem?, get_or, set,
  replicate, none, some, leb, if◌then◌else◌,
}
use basis_rust_server.Common.Int.{ℤ, pos, negsuc, sub_ℕ, ◌+ℤ◌, ◌-ℤ◌, leb_ℤ}
use basis_rust_server.Common.Bits.{test_bit, set_bit, clear_bit}
use basis_rust_server.Common.Words.{Bytes, to_le_bytes}
use basis_rust_server.Transport.Packet.{ack, header}

abbrev pub default_window_size : ℕ
default_window_size = 128

abbrev pub max_sequence : ℕ
max_sequence = 32768

-- On sequences below `max_sequence` nothing leaves the range of i32.
unfoldable pub relative_sequence : ℕ → ℕ → ℤ
relative_sequence seq expected =
    let diff = sub_ℕ seq expected in
    if leb_ℤ diff (negsuc (max_sequence / 2 - 1))
    then diff +ℤ pos max_sequence
    else if leb_ℤ (pos (max_sequence / 2)) diff
    then diff -ℤ pos max_sequence
    else diff

pub record AckState : Type 0 where
  pub window_start : ℕ
  pub bits : Bytes

-- `if let Some(byte) = bits.get_mut(i) { *byte = f(*byte) }`.
abbrev pub update_byte : (ℕ → ℕ) → ℕ → Bytes → Bytes
update_byte f i bits = set bits i (f (get_or bits i 0))

unfoldable pub clear_mark : ℕ → Bytes → Bytes
clear_mark seq bits =
    let idx = seq % default_window_size in
    update_byte (λ byte. clear_bit byte (idx % 8)) (idx / 8) bits

unfoldable pub set_mark : ℕ → Bytes → Bytes
set_mark seq bits =
    let idx = seq % default_window_size in
    update_byte (λ byte. set_bit byte (idx % 8)) (idx / 8) bits

-- `for old_seq in from..from + count`.
unfoldable pub clear_marks : ℕ → ℕ → Bytes → Bytes
unfolding clear_mark
clear_marks zero from bits = bits
clear_marks (suc count) from bits = clear_marks count (from + 1) (clear_mark from bits)

unfoldable pub slide : ℕ → AckState → AckState
unfolding clear_marks
slide shift state =
    let end = (state.window_start + shift % 2 ^ 16) % 2 ^ 16 in
    record {
      window_start = end % max_sequence;
      bits = clear_marks (end - state.window_start) state.window_start state.bits;
    }

unfoldable pub fresh_ack : ℕ → AckState
fresh_ack sequence = record {
  window_start = sequence;
  bits = replicate ((default_window_size - 1) / 8 + 2) 0;
}

mark : ℕ → AckState → AckState
unfolding set_mark
mark sequence state = record state { bits = set_mark sequence state.bits }

-- What `queue_ack` does to the state of its channel.
unfoldable pub queue_in_window : ℕ → AckState → AckState
unfolding slide mark
queue_in_window sequence state = elim (relative_sequence sequence state.window_start) [
  | negsuc _ ↦ state
  | pos rel ↦
      mark sequence
        (if leb default_window_size rel then slide (rel - default_window_size + 1) state else state)
]

unfoldable pub build_ack_packet : ℕ → ℕ → AckState → Bytes
build_ack_packet connection_number channel_id state =
    ((header ack connection_number ∷ to_le_bytes 2 state.window_start) ++ (channel_id ∷ []))
    ++ state.bits

-- The bit of `pos` in the bytes of an acknowledgement, false past their end.
unfoldable pub acked_at : Bytes → ℕ → Bool
acked_at ack_bits position = elim (get_elem? ack_bits (position / 8)) [
  | none ↦ false
  | some b ↦ test_bit b (position % 8)
]

-- Whether `process_ack` drops a pending packet of the acknowledged channel.
unfoldable pub is_acked : ℕ → Bytes → ℕ → Bool
unfolding acked_at
is_acked window_start ack_bits sequence = elim (relative_sequence sequence window_start) [
  | negsuc _ ↦ false
  | pos rel ↦
      if leb default_window_size rel
      then false
      else acked_at ack_bits (sequence % default_window_size)
]
