-- ===== src/Protocol/Io/Fields.antt =====
-- Sequences of the fields of io.rs: what a run of `put_…` calls writes, the `get_…` calls of the
-- same kinds read back.
use basis_rust_server.Common.{
  ℕ, ◌+◌, ◌-◌, ◌^◌, ◌<◌, ◌≤◌, ◌≡◌, refl, sym, ◌∙◌, Bool, List, [], ◌∷◌, ◌++◌, length, All, arith,
  append-nil, append_assoc, if◌then◌else◌, length-take, length-drop, true, ◌⊎◌, inl, inr, take,
  drop, ltb, Bool-cases,
}
use native.Mathlib.Nat.{zero-add}
use basis_rust_server.Common.Words.{Bytes, to_le_bytes}
use basis_rust_server.Common.Utf8.{is_utf8}
use basis_rust_server.Protocol.Io.Reads.{Reads, advance, return-Reads, bind-Reads, map-Reads}
use basis_rust_server.Protocol.Io.RoundTrip.{
  text_bytes, counted_bytes, get_u8-Reads, get_bool-Reads, get_u16-Reads, get_u32-Reads,
  get_u64-Reads, get_string-Reads, get_raw_len_string-Reads, get_bytes_with_length-Reads,
  bytes-put_string, bytes-put_bytes_with_length,
}
use basis_rust_server.Protocol.Io.{
  NetWriter, NetReader, ok, err, underflow, Read, ◌>>=◌, return, new_writer, new_reader, put_u8,
  put_bool, put_u16, put_u32, put_u64, put_string, put_bytes_with_length, get_u8, get_bool, get_u16,
  get_u32, get_u64, get_string, get_raw_len_string, get_bytes_with_length, remaining, take_bytes,
}

pub data Field : Type 0 where
  bool : Bool → Field
  u8 u16 u32 u64 : ℕ → Field
  text raw_text blob : Bytes → Field

-- The values that the Rust types and the length prefixes have room for.
abbrev pub Fits : Field → Type 0
Fits (bool b) = Unit {0}
Fits (u8 v) = v < 2 ^ 8
Fits (u16 v) = v < 2 ^ 16
Fits (u32 v) = v < 2 ^ 32
Fits (u64 v) = v < 2 ^ 64
Fits (text s) = (is_utf8 s ≡ true) × (length s + 1 < 2 ^ 16)
Fits (raw_text s) = (is_utf8 s ≡ true) × (length s < 2 ^ 16)
Fits (blob bs) = length bs < 2 ^ 16

unfoldable pub put_field : Field → NetWriter → NetWriter
put_field (bool b) = put_bool b
put_field (u8 v) = put_u8 v
put_field (u16 v) = put_u16 v
put_field (u32 v) = put_u32 v
put_field (u64 v) = put_u64 v
put_field (text s) = put_string s
put_field (raw_text s) = put_bytes_with_length s
put_field (blob bs) = put_bytes_with_length bs

-- Reads a field of the kind of the one given, whose value it ignores.
unfoldable pub get_field : Field → Read Field
get_field (bool _) = do b ← get_bool; return (bool b)
get_field (u8 _) = do v ← get_u8; return (u8 v)
get_field (u16 _) = do v ← get_u16; return (u16 v)
get_field (u32 _) = do v ← get_u32; return (u32 v)
get_field (u64 _) = do v ← get_u64; return (u64 v)
get_field (text _) = do s ← get_string; return (text s)
get_field (raw_text _) = do s ← get_raw_len_string; return (raw_text s)
get_field (blob _) = do bs ← get_bytes_with_length; return (blob bs)

unfoldable pub put_fields : List Field → NetWriter → NetWriter
unfolding put_field
put_fields [] w = w
put_fields (f ∷ fs) w = put_fields fs (put_field f w)

unfoldable pub get_fields : List Field → Read (List Field)
unfolding get_field
get_fields [] = return []
get_fields (f ∷ fs) = do g ← get_field f; gs ← get_fields fs; return (g ∷ gs)

abbrev field_bytes : Field → Bytes
field_bytes (bool b) = (if b then 1 else 0) ∷ []
field_bytes (u8 v) = v ∷ []
field_bytes (u16 v) = to_le_bytes 2 v
field_bytes (u32 v) = to_le_bytes 4 v
field_bytes (u64 v) = to_le_bytes 8 v
field_bytes (text s) = text_bytes s
field_bytes (raw_text s) = counted_bytes s
field_bytes (blob bs) = counted_bytes bs

abbrev all_bytes : List Field → Bytes
all_bytes [] = []
all_bytes (f ∷ fs) = field_bytes f ++ all_bytes fs

bytes-put_field :
    (f : Field) (w : NetWriter) → Fits f → (put_field f w).bytes ≡ w.bytes ++ field_bytes f
unfolding put_field put_bool put_u8 put_u16 put_u32 put_u64
bytes-put_field (bool b) w h = refl
bytes-put_field (u8 v) w h = refl
bytes-put_field (u16 v) w h = refl
bytes-put_field (u32 v) w h = refl
bytes-put_field (u64 v) w h = refl
bytes-put_field (text s) w h = bytes-put_string s w h.1
bytes-put_field (raw_text s) w h = bytes-put_bytes_with_length s w h.1
bytes-put_field (blob bs) w h = bytes-put_bytes_with_length bs w h

bytes-put_fields :
    (fs : List Field) (w : NetWriter)
    → All Fits fs
    → (put_fields fs w).bytes ≡ w.bytes ++ all_bytes fs
unfolding put_fields
bytes-put_fields [] w h = sym (append-nil w.bytes)
bytes-put_fields (f ∷ fs) w h =
    bytes-put_fields fs (put_field f w) h.1
    ∙ rw (bytes-put_field f w h.0) (append_assoc w.bytes (field_bytes f) (all_bytes fs))

get_field-Reads : (f : Field) → Fits f → Reads (get_field f) (field_bytes f) f
unfolding get_field
get_field-Reads (bool b) h = map-Reads bool (get_bool-Reads b) refl
get_field-Reads (u8 v) h = map-Reads u8 (get_u8-Reads v) refl
get_field-Reads (u16 v) h = map-Reads u16 (get_u16-Reads v h) refl
get_field-Reads (u32 v) h = map-Reads u32 (get_u32-Reads v h) refl
get_field-Reads (u64 v) h = map-Reads u64 (get_u64-Reads v h) refl
get_field-Reads (text s) h = map-Reads text (get_string-Reads s h.0 h.1) refl
get_field-Reads (raw_text s) h = map-Reads raw_text (get_raw_len_string-Reads s h.0 h.1) refl
get_field-Reads (blob bs) h = map-Reads blob (get_bytes_with_length-Reads bs h) refl

get_fields-Reads : (fs : List Field) → All Fits fs → Reads (get_fields fs) (all_bytes fs) fs
unfolding get_fields
get_fields-Reads [] h = return-Reads []
get_fields-Reads (f ∷ fs) h =
    bind-Reads _ (get_field-Reads f h.0) (map-Reads (λ gs. f ∷ gs) (get_fields-Reads fs h.1) refl)

-- Fields whose values fit their types and length prefixes, written one after the other and followed
-- by any bytes, are read back by the reads of the same kinds, and the reader stands behind them.
pub get_fields-put_fields :
    (fs : List Field) (tail : Bytes)
    → All Fits fs
    → let written = (put_fields fs new_writer).bytes in
      get_fields fs (new_reader (written ++ tail))
      ≡ ok (fs, record { bytes = written ++ tail; pos = length written })
unfolding new_writer new_reader
get_fields-put_fields fs tail h =
    rw (bytes-put_fields fs _ h) (
      Reads.run (get_fields-Reads fs h) (new_reader (all_bytes fs ++ tail)) tail refl ∙ rw zero-add)

-- A read takes exactly the bytes it asks for and stays within the buffer, or it reports how many it
-- needed and how many were left, and then there were fewer left than needed.
take_bytes_bounds :
    (n : ℕ) (r : NetReader)
    → r.pos ≤ length r.bytes
    → ((bs : Bytes) × (take_bytes n r ≡ ok (bs, advance n r))
        × (length bs ≡ n)
        × (r.pos + n ≤ length r.bytes))
      ⊎ ((take_bytes n r ≡ err (underflow n (length r.bytes - r.pos)))
          × (length r.bytes < r.pos + n))
unfolding take_bytes remaining
take_bytes_bounds n r h = elim (Bool-cases (ltb (length r.bytes - r.pos) n)) [
  | inl short ↦ inr (rw short, ground arith)
  | inr enough ↦ inl (
    take n (drop r.pos r.bytes),
    rw enough,
    ground (arith, length-take n (drop r.pos r.bytes), length-drop r.pos r.bytes),
    ground arith,
  )
]
