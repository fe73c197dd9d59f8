-- ===== src/Protocol/Io/RoundTrip.antt =====
-- What each `put_…` of the writer writes, each `get_…` of the reader takes.
use basis_rust_server.Common.{
  ℕ, zero, suc, ◌+◌, ◌^◌, ◌<◌, ◌≡◌, refl, sym, Bool, true, false, [], ◌∷◌, ◌++◌, length, arith,
  if◌then◌else◌, append_assoc,
}
use basis_rust_server.Common.Words.{
  Bytes, to_le_bytes, from_le_bytes, length-to_le_bytes, from_le_bytes-to_le_bytes,
}
use basis_rust_server.Common.Utf8.{is_utf8}
use basis_rust_server.Protocol.Io.Reads.{
  Reads, take_bytes-Reads, return-Reads, bind-Reads, map-Reads, last-Reads,
}
use basis_rust_server.Protocol.Io.{
  NetWriter, put_string, put_bytes_with_length, ◌>>=◌, return, take_bytes, get_u8, get_bool,
  get_u16, get_u32, get_u64, get_bytes, as_text, after_length, get_string, get_raw_len_string,
  get_bytes_with_length,
}

pub get_u8-Reads : (v : ℕ) → Reads get_u8 (v ∷ []) v
unfolding get_u8
get_u8-Reads v = map-Reads _ (take_bytes-Reads 1 (v ∷ []) refl) refl

word-Reads :
    (n v : ℕ)
    → v < 256 ^ n
    → Reads (take_bytes n >>= λ bytes. return (from_le_bytes bytes)) (to_le_bytes n v) v
word-Reads n v h =
    map-Reads _ (take_bytes-Reads n (to_le_bytes n v) (sym (length-to_le_bytes n v)))
      (from_le_bytes-to_le_bytes n v h)

pub get_u16-Reads : (v : ℕ) → v < 2 ^ 16 → Reads get_u16 (to_le_bytes 2 v) v
unfolding get_u16
get_u16-Reads v h = word-Reads 2 v h

pub get_u32-Reads : (v : ℕ) → v < 2 ^ 32 → Reads get_u32 (to_le_bytes 4 v) v
unfolding get_u32
get_u32-Reads v h = word-Reads 4 v h

pub get_u64-Reads : (v : ℕ) → v < 2 ^ 64 → Reads get_u64 (to_le_bytes 8 v) v
unfolding get_u64
get_u64-Reads v h = word-Reads 8 v h

pub get_bool-Reads : (b : Bool) → Reads get_bool ((if b then 1 else 0) ∷ []) b
unfolding get_bool
get_bool-Reads true = map-Reads _ (get_u8-Reads 1) refl
get_bool-Reads false = map-Reads _ (get_u8-Reads 0) refl

pub get_bytes-Reads : (n : ℕ) (xs : Bytes) → n ≡ length xs → Reads (get_bytes n) xs xs
unfolding get_bytes
get_bytes-Reads n xs e = take_bytes-Reads n xs e

-- The encodings of a text: its length plus one before it, or its plain length.
abbrev pub text_bytes : Bytes → Bytes
text_bytes [] = to_le_bytes 2 0
text_bytes (c ∷ cs) = to_le_bytes 2 (length (c ∷ cs) + 1) ++ (c ∷ cs)

abbrev pub counted_bytes : Bytes → Bytes
counted_bytes bs = to_le_bytes 2 (length bs) ++ bs

as_text-Reads : (s : Bytes) → is_utf8 s ≡ true → Reads (as_text s) [] s
unfolding as_text
as_text-Reads s h = rw h (return-Reads s)

after_length-Reads :
    (n : ℕ) (s : Bytes) → is_utf8 s ≡ true → n ≡ length s + 1 → Reads (after_length n) s s
unfolding after_length
after_length-Reads zero s u e = absurd (omega arith)
after_length-Reads (suc n) s u e =
    last-Reads _ (take_bytes-Reads n s (omega arith)) (as_text-Reads s u)

pub get_string-Reads :
    (s : Bytes) → is_utf8 s ≡ true → length s + 1 < 2 ^ 16 → Reads get_string (text_bytes s) s
unfolding get_string
get_string-Reads [] u h = last-Reads _ (get_u16-Reads 0 (omega arith)) empty
  where
    empty : Reads (after_length 0) [] []
    empty = unfold after_length in return-Reads []
get_string-Reads (c ∷ cs) u h =
    bind-Reads _ (get_u16-Reads (length (c ∷ cs) + 1) h) (after_length-Reads _ (c ∷ cs) u refl)

pub get_bytes_with_length-Reads :
    (bs : Bytes) → length bs < 2 ^ 16 → Reads get_bytes_with_length (counted_bytes bs) bs
unfolding get_bytes_with_length
get_bytes_with_length-Reads bs h =
    bind-Reads _ (get_u16-Reads (length bs) h) (take_bytes-Reads (length bs) bs refl)

pub get_raw_len_string-Reads :
    (s : Bytes)
    → is_utf8 s ≡ true
    → length s < 2 ^ 16
    → Reads get_raw_len_string (counted_bytes s) s
unfolding get_raw_len_string
get_raw_len_string-Reads s u h =
    bind-Reads _ (get_u16-Reads (length s) h)
      (last-Reads _ (take_bytes-Reads (length s) s refl) (as_text-Reads s u))

-- What the writer appends.
pub bytes-put_string :
    (s : Bytes) (w : NetWriter)
    → length s + 1 < 2 ^ 16
    → (put_string s w).bytes ≡ w.bytes ++ text_bytes s
unfolding put_string
bytes-put_string [] w h = refl
bytes-put_string (c ∷ cs) w h =
    ground (arith, append_assoc w.bytes (to_le_bytes 2 (length (c ∷ cs) + 1)) (c ∷ cs))

pub bytes-put_bytes_with_length :
    (bs : Bytes) (w : NetWriter)
    → length bs < 2 ^ 16
    → (put_bytes_with_length bs w).bytes ≡ w.bytes ++ counted_bytes bs
unfolding put_bytes_with_length
bytes-put_bytes_with_length bs w h =
    ground (arith, append_assoc w.bytes (to_le_bytes 2 (length bs)) bs)
