-- ===== src/Protocol/Io.antt =====
-- BasisRustServer/crates/basis-protocol/src/io.rs: the writer and the reader of packets.
-- A text is its bytes. A float is its bit pattern, as are the signed integers. A failed read leaves
-- its caller with the error alone: the reader that it leaves behind is not used again.
pub mod Reads
pub mod RoundTrip
pub mod Fields
pub mod Carries
use basis_rust_server.Common.{
  ℕ, zero, suc, ◌+◌, ◌-◌, ◌%◌, ◌^◌, Bool, not, [], ◌∷◌, ◌++◌, length, take, drop, ltb, ◌==◌,
  if◌then◌else◌, get_or,
}
use basis_rust_server.Common.Words.{Bytes, to_le_bytes, from_le_bytes}
use basis_rust_server.Common.Utf8.{is_utf8}

pub data NetReadError : Type 0 where
  underflow : ℕ → ℕ → NetReadError
  utf8 : NetReadError

pub data Result {ℓ} (A : Type ℓ) : Type ℓ where
  ok : A → Result A
  err : NetReadError → Result A

pub record NetWriter : Type 0 where
  pub bytes : Bytes

unfoldable pub new_writer : NetWriter
new_writer = record { bytes = [] }

unfoldable pub len : NetWriter → ℕ
len w = length w.bytes

unfoldable pub is_empty : NetWriter → Bool
is_empty w = length w.bytes == 0

unfoldable pub clear : NetWriter → NetWriter
clear w = record w { bytes = [] }

unfoldable pub put_u8 : ℕ → NetWriter → NetWriter
put_u8 value w = record w { bytes = w.bytes ++ (value ∷ []) }

unfoldable pub put_bool : Bool → NetWriter → NetWriter
unfolding put_u8
put_bool value w = put_u8 (if value then 1 else 0) w

-- `put_u16` and `put_i16`.
unfoldable pub put_u16 : ℕ → NetWriter → NetWriter
put_u16 value w = record w { bytes = w.bytes ++ to_le_bytes 2 value }

-- `put_u32`, `put_i32` and `put_f32`.
unfoldable pub put_u32 : ℕ → NetWriter → NetWriter
put_u32 value w = record w { bytes = w.bytes ++ to_le_bytes 4 value }

-- `put_u64`, `put_i64` and `put_f64`.
unfoldable pub put_u64 : ℕ → NetWriter → NetWriter
put_u64 value w = record w { bytes = w.bytes ++ to_le_bytes 8 value }

unfoldable pub put_bytes : Bytes → NetWriter → NetWriter
put_bytes value w = record w { bytes = w.bytes ++ value }

-- The length is cut to 16 bits, as `as u16` does.
unfoldable pub put_string : Bytes → NetWriter → NetWriter
unfolding put_u16 put_bytes
put_string [] w = put_u16 0 w
put_string (c ∷ cs) w = put_bytes (c ∷ cs) (put_u16 ((length (c ∷ cs) + 1) % 2 ^ 16) w)

-- `put_raw_len_string` on a text and `put_bytes_with_length` on bytes.
unfoldable pub put_bytes_with_length : Bytes → NetWriter → NetWriter
unfolding put_u16 put_bytes
put_bytes_with_length value w = put_bytes value (put_u16 (length value % 2 ^ 16) w)

pub record NetReader : Type 0 where
  pub bytes : Bytes
  pub pos : ℕ

unfoldable pub new_reader : Bytes → NetReader
new_reader bs = record { bytes = bs; pos = 0 }

unfoldable pub remaining : NetReader → ℕ
remaining r = length r.bytes - r.pos

unfoldable pub remaining_slice : NetReader → Bytes
remaining_slice r = drop r.pos r.bytes

-- What a `get_…` method is: it returns a value and moves the reader on, or fails.
abbrev pub Read {ℓ} : Type ℓ → Type ℓ
Read A = NetReader → Result (A × NetReader)

infixl 5 ◌>>=◌
abbrev pub ◌>>=◌ {ℓ κ} : {A : Type ℓ} {B : Type κ} → Read A → (A → Read B) → Read B
◌>>=◌ m f r = elim (m r) [ ok (a, r') ↦ f a r' | err e ↦ err e ]

abbrev pub return {ℓ} : {A : Type ℓ} → A → Read A
return a r = ok (a, r)

abbrev pub fail {ℓ} : {A : Type ℓ} → NetReadError → Read A
fail e r = err e

unfoldable pub take_bytes : ℕ → Read Bytes
take_bytes n r =
    if ltb (remaining r) n
    then err (underflow n (remaining r))
    else ok (take n (drop r.pos r.bytes), record r { pos = r.pos + n })

unfoldable pub get_u8 : Read ℕ
get_u8 = do bytes ← take_bytes 1; return (get_or bytes 0 0)

unfoldable pub get_bool : Read Bool
get_bool = do b ← get_u8; return (not (b == 0))

unfoldable pub get_u16 : Read ℕ
get_u16 = do bytes ← take_bytes 2; return (from_le_bytes bytes)

unfoldable pub get_u32 : Read ℕ
get_u32 = do bytes ← take_bytes 4; return (from_le_bytes bytes)

unfoldable pub get_u64 : Read ℕ
get_u64 = do bytes ← take_bytes 8; return (from_le_bytes bytes)

unfoldable pub get_bytes : ℕ → Read Bytes
get_bytes n = take_bytes n

-- `std::str::from_utf8(bytes)` with its error mapped.
unfoldable pub as_text : Bytes → Read Bytes
as_text bytes = if is_utf8 bytes then return bytes else fail utf8

after_length : ℕ → Read Bytes
after_length zero = return []
after_length (suc n) = do bytes ← take_bytes n; as_text bytes

unfoldable pub get_string : Read Bytes
unfolding after_length
get_string = do len_plus ← get_u16; after_length len_plus

unfoldable pub get_raw_len_string : Read Bytes
get_raw_len_string = do n ← get_u16; bytes ← take_bytes n; as_text bytes

unfoldable pub get_bytes_with_length : Read Bytes
get_bytes_with_length = do n ← get_u16; take_bytes n
