-- ===== src/Protocol/Avatar/Bundle.antt =====
-- Bundles of avatar packets: BasisRustServer/crates/basis-protocol/src/avatar.rs. LZ4 is a library:
-- `compress` and `decompress` are arguments.
pub mod RoundTrip
use basis_rust_server.Common.{
  ℕ, ◌+◌, ◌%◌, ◌^◌, List, [], ◌∷◌, length, take, drop, map, Option, none, some, ltb, ◌==◌, not,
  if◌then◌else◌,
}
use basis_rust_server.Common.Words.{Bytes}
use basis_rust_server.Protocol.Io.{
  NetReadError, NetWriter, ok, err, Read, ◌>>=◌, return, new_writer, new_reader, put_u8, put_u16,
  put_bytes, get_u8, get_u16, get_bytes,
}
use basis_rust_server.Protocol.Io.Carries.{Write, ◌⨾◌, get_times}
use basis_rust_server.Protocol.Messages.Rest.{rest_of_packet}

pub data BundleError : Type 0 where
  too_many_items item_too_large raw_too_large not_decompressed length_mismatch : BundleError
  unreadable : NetReadError → BundleError

pub data Attempt (A : Type 0) : Type 0 where
  success : A → Attempt A
  failed : BundleError → Attempt A

pub record AvatarBundleItem : Type 0 where
  pub original_channel : ℕ
  pub payload : Bytes

-- The patch is the place of a byte and its value.
pub record AvatarBundleSlice : Type 0 where
  pub original_channel : ℕ
  pub payload : Bytes
  pub interval_patch : Option (ℕ × ℕ)

pub record EncodedAvatarBundle : Type 0 where
  pub bytes : Bytes
  pub raw_len : ℕ
  pub compressed_len : ℕ

put_patched : Bytes → Option (ℕ × ℕ) → Write
put_patched payload none = put_bytes payload
put_patched payload (some (offset, value)) =
    if ltb offset (length payload)
    then put_bytes (take offset payload) ⨾ put_u8 value ⨾ put_bytes (drop (offset + 1) payload)
    else put_bytes payload

unfoldable pub put_slice : AvatarBundleSlice → Write
unfolding put_patched
put_slice item =
    put_u8 item.original_channel
    ⨾ put_u16 (length item.payload % 2 ^ 16)
    ⨾ put_patched item.payload item.interval_patch

unfoldable pub put_slices : List AvatarBundleSlice → NetWriter → Attempt NetWriter
put_slices [] raw = success raw
put_slices (item ∷ items) raw =
    if ltb 65535 (length item.payload)
    then failed item_too_large
    else put_slices items (put_slice item raw)

unfoldable pub finish_bundle : (Bytes → Bytes) → ℕ → Attempt NetWriter → Attempt EncodedAvatarBundle
finish_bundle compress count (failed e) = failed e
finish_bundle compress count (success raw) =
    let compressed = compress raw.bytes in
    let write =
      put_u8 (count % 2 ^ 8) ⨾ put_u16 (length raw.bytes % 2 ^ 16) ⨾ put_bytes compressed in
    if ltb 65535 (length raw.bytes)
    then failed raw_too_large
    else success (record {
      bytes = (write new_writer).bytes;
      raw_len = length raw.bytes;
      compressed_len = length compressed;
    })

unfoldable pub try_encode_avatar_bundle_slices :
    (Bytes → Bytes) → List AvatarBundleSlice → Attempt EncodedAvatarBundle
try_encode_avatar_bundle_slices compress items =
    if ltb 255 (length items)
    then failed too_many_items
    else finish_bundle compress (length items) (put_slices items new_writer)

unfoldable pub encode_avatar_bundle : (Bytes → Bytes) → List AvatarBundleItem → Attempt Bytes
encode_avatar_bundle compress items =
    elim (try_encode_avatar_bundle_slices compress (
      map
        (λ (item : AvatarBundleItem). record {
          original_channel = item.original_channel;
          payload = item.payload;
          interval_patch = none;
        })
        items)) [ failed e ↦ failed e | success encoded ↦ success encoded.bytes ]

unfoldable pub get_item : Read AvatarBundleItem
get_item = do
  original_channel ← get_u8
  len ← get_u16
  payload ← get_bytes len
  return (record { original_channel = original_channel; payload = payload })

unfoldable pub bundle_header : Read (ℕ × ℕ × Bytes)
bundle_header = do
  count ← get_u8
  raw_len ← get_u16
  compressed ← rest_of_packet
  return (count, raw_len, compressed)

unfoldable pub read_items : ℕ → ℕ → Option Bytes → Attempt (List AvatarBundleItem)
read_items count raw_len none = failed not_decompressed
read_items count raw_len (some raw) =
    if not (length raw == raw_len)
    then failed length_mismatch
    else elim (get_times count get_item (new_reader raw)) [
      | ok (items, reader) ↦ success items
      | err e ↦ failed (unreadable e)
    ]

unfoldable pub decode_avatar_bundle :
    (Bytes → ℕ → Option Bytes) → Bytes → Attempt (List AvatarBundleItem)
decode_avatar_bundle decompress bytes = elim (bundle_header (new_reader bytes)) [
  | ok ((count, raw_len, compressed), reader) ↦
      read_items count raw_len (decompress compressed raw_len)
  | err e ↦ failed (unreadable e)
]
