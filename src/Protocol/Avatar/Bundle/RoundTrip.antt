-- ===== src/Protocol/Avatar/Bundle/RoundTrip.antt =====
-- A bundle is decoded to the packets that it was made from, with their patches.
use basis_rust_server.Common.{
  ℕ, ◌+◌, ◌%◌, ◌^◌, ◌≤◌, ◌≡◌, refl, sym, ap, ◌∙◌, true, false, List, [], ◌∷◌, ◌++◌, length, take,
  drop, map, All, Option, none, some, ltb, ◌==◌, if◌then◌else◌, arith, append_assoc, append-nil,
  length-append, length-take, length-drop, Bool-cases, inl, inr,
}
use basis_rust_server.Common.Words.{Bytes, to_le_bytes, length-to_le_bytes}
use basis_rust_server.Protocol.Io.{
  NetWriter, new_writer, new_reader, put_u8, put_u16, put_bytes, get_bytes,
}
use basis_rust_server.Protocol.Io.Carries.{
  ◌⨾◌, put_each, get_times, Carries, bind-Carries, map-Carries, return-Carries, same-Carries,
  reads_back,
}
use basis_rust_server.Protocol.Io.Carries.Words.{u8-Carries, u16-Carries, bytes-Carries}
use basis_rust_server.Protocol.Messages.Rest.{
  Closes, bind-Closes, map-Closes, rest-Closes, reads_to_end,
}
use basis_rust_server.Protocol.Avatar.Bundle.{
  success, AvatarBundleItem, AvatarBundleSlice, EncodedAvatarBundle, put_patched, put_slice,
  put_slices, finish_bundle, try_encode_avatar_bundle_slices, get_item, bundle_header, read_items,
  decode_avatar_bundle,
}

-- The payload with its patch, unless that lies outside.
abbrev pub patched : Bytes → Option (ℕ × ℕ) → Bytes
patched payload none = payload
patched payload (some (offset, value)) =
    if ltb offset (length payload)
    then take offset payload ++ (value ∷ drop (offset + 1) payload)
    else payload

abbrev pub item_of : AvatarBundleSlice → AvatarBundleItem
item_of item = record {
  original_channel = item.original_channel;
  payload = patched item.payload item.interval_patch;
}

length-patched :
    (payload : Bytes) (patch : Option (ℕ × ℕ)) → length (patched payload patch) ≡ length payload
length-patched payload none = refl
length-patched payload (some (offset, value)) = ground (
  arith,
  length-append (take offset payload) (value ∷ drop (offset + 1) payload),
  length-take offset payload,
  length-drop (offset + 1) payload,
)

bytes-put_patched :
    (payload : Bytes) (patch : Option (ℕ × ℕ)) (w : NetWriter)
    → (put_patched payload patch w).bytes ≡ w.bytes ++ patched payload patch
unfolding put_patched put_bytes put_u8
bytes-put_patched payload none w = refl
bytes-put_patched payload (some (offset, value)) w =
    elim (Bool-cases (ltb offset (length payload))) [
      | inl e ↦ rw e (
          ap (λ (t : Bytes). t ++ drop (offset + 1) payload)
            (append_assoc w.bytes (take offset payload) (value ∷ []))
          ∙ append_assoc w.bytes (take offset payload ++ (value ∷ [])) (drop (offset + 1) payload)
          ∙ ap (◌++◌ w.bytes)
              (append_assoc (take offset payload) (value ∷ []) (drop (offset + 1) payload)))
      | inr e ↦ rw e
    ]

patched-Carries :
    (n : ℕ) (payload : Bytes) (patch : Option (ℕ × ℕ))
    → n ≡ length payload
    → Carries (put_patched payload patch) (get_bytes n) (patched payload patch)
unfolding put_bytes
patched-Carries n payload patch e =
    same-Carries (put_patched payload patch)
      (bytes-Carries n (patched payload patch) (e ∙ sym (length-patched payload patch)))
      (bytes-put_patched payload patch)

item-Carries :
    (item : AvatarBundleSlice)
    → length item.payload ≤ 65535
    → Carries (put_slice item) get_item (item_of item)
unfolding put_slice get_item
item-Carries item h = bind-Carries _ (u8-Carries item.original_channel) (
    bind-Carries _ (u16-Carries (length item.payload % 2 ^ 16) (omega arith)) (
      map-Carries _
        (patched-Carries (length item.payload % 2 ^ 16) item.payload item.interval_patch
          (omega (arith, h)))
        refl))

abbrev IsSmall : AvatarBundleSlice → Type 0
IsSmall item = length item.payload ≤ 65535

items-Carries :
    (items : List AvatarBundleSlice)
    → All IsSmall items
    → Carries (put_each put_slice items) (get_times (length items) get_item) (map item_of items)
items-Carries [] h = return-Carries []
items-Carries (item ∷ items) h =
    bind-Carries _ (item-Carries item h.0)
      (map-Carries (λ rest. item_of item ∷ rest) (items-Carries items h.1) refl)

put_slices-success :
    (items : List AvatarBundleSlice) (w : NetWriter)
    → All IsSmall items
    → put_slices items w ≡ success (put_each put_slice items w)
unfolding put_slices
put_slices-success [] w h = refl
put_slices-success (item ∷ items) w h =
    let small : ltb 65535 (length item.payload) ≡ false = ground (arith, h.0) in
    rw small (put_slices-success items (put_slice item w) h.1)

abbrev pub raw_size : List AvatarBundleSlice → ℕ
raw_size [] = 0
raw_size (item ∷ items) = 3 + length item.payload + raw_size items

length-put_slice :
    (item : AvatarBundleSlice) (w : NetWriter)
    → length (put_slice item w).bytes ≡ length w.bytes + 3 + length item.payload
unfolding put_slice put_u8 put_u16
length-put_slice item w =
    let w2 = put_u16 (length item.payload % 2 ^ 16) (put_u8 item.original_channel w) in
    omega (
      arith,
      ap length (bytes-put_patched item.payload item.interval_patch w2),
      length-append w2.bytes (patched item.payload item.interval_patch),
      length-append (w.bytes ++ (item.original_channel ∷ []))
          (to_le_bytes 2 (length item.payload % 2 ^ 16)),
      length-to_le_bytes 2 (length item.payload % 2 ^ 16),
      length-append w.bytes (item.original_channel ∷ []),
      length-patched item.payload item.interval_patch,
    )

length-put_slices :
    (items : List AvatarBundleSlice) (w : NetWriter)
    → length (put_each put_slice items w).bytes ≡ length w.bytes + raw_size items
length-put_slices [] w = omega arith
length-put_slices (item ∷ items) w =
    omega (arith, length-put_slices items (put_slice item w), length-put_slice item w)

header-Closes :
    (count raw_len : ℕ) (compressed : Bytes)
    → raw_len ≤ 65535
    → Closes
        (put_u8 (count % 2 ^ 8) ⨾ put_u16 (raw_len % 2 ^ 16) ⨾ put_bytes compressed)
        bundle_header
        (count % 2 ^ 8, raw_len % 2 ^ 16, compressed)
unfolding bundle_header
header-Closes count raw_len compressed h = bind-Closes _ (u8-Carries (count % 2 ^ 8)) (
    bind-Closes _ (u16-Carries (raw_len % 2 ^ 16) (omega arith))
      (map-Closes _ (rest-Closes compressed) refl))

read_items-raw :
    (count raw_len : ℕ) (raw : Bytes) (items : List AvatarBundleSlice)
    → raw_len ≡ length raw
    → raw ≡ (put_each put_slice items new_writer).bytes
    → count ≡ length items
    → All IsSmall items
    → read_items count raw_len (some raw) ≡ success (map item_of items)
unfolding read_items
read_items-raw count raw_len raw items e is n h =
    let same : (length raw == raw_len) ≡ true = ground arith in
    let back =
      reads_back (put_each put_slice items) (get_times (length items) get_item) []
        (items-Carries items h) in
    let whole : get_times (length items) get_item
          (new_reader (put_each put_slice items new_writer).bytes)
        ≡ _ =
      rw append-nil at back in
    rw (same, is, n, whole)

IsSmall-items : (items : List AvatarBundleSlice) → raw_size items ≤ 65535 → All IsSmall items
IsSmall-items [] h = tt
IsSmall-items (item ∷ items) h = (omega (arith, h), IsSmall-items items (omega (arith, h)))

-- Up to 255 packets, with three bytes more for each in up to 65535 bytes, are bundled, and the bundle is
-- decoded to these packets in their order, each on its channel and with its patch. LZ4 gives back what it
-- compressed, if it is told the length.
pub decode-try_encode :
    (compress : Bytes → Bytes) (decompress : Bytes → ℕ → Option Bytes)
    (items : List AvatarBundleSlice)
    → ((raw : Bytes) → length raw ≤ 65535 → decompress (compress raw) (length raw) ≡ some raw)
    → length items ≤ 255
    → raw_size items ≤ 65535
    → (encoded : EncodedAvatarBundle) × (try_encode_avatar_bundle_slices compress items
        ≡ success encoded)
      × (encoded.raw_len ≡ raw_size items)
      × (decode_avatar_bundle decompress encoded.bytes ≡ success (map item_of items))
unfolding try_encode_avatar_bundle_slices finish_bundle decode_avatar_bundle
decode-try_encode compress decompress items lz4 few size =
    let small = IsSmall-items items size in
    let w = put_each put_slice items new_writer in
    let empty : length new_writer.bytes ≡ 0 = unfold new_writer in refl in
    let len : length w.bytes ≡ raw_size items = omega (arith, length-put_slices items new_writer) in
    let few_items : ltb 255 (length items) ≡ false = ground arith in
    let short : ltb 65535 (length w.bytes) ≡ false = ground arith in
    let (r, header) =
      reads_to_end _ bundle_header
        (header-Closes (length items) (length w.bytes) (compress w.bytes) (omega (arith, len))) in
    let back : decompress (compress w.bytes) (length w.bytes % 2 ^ 16) ≡ some w.bytes =
      ap (decompress (compress w.bytes)) (omega (arith, len)) ∙ lz4 w.bytes (omega (arith, len)) in
    (
      record {
        bytes =
            ((put_u8 (length items % 2 ^ 8)
                ⨾ put_u16 (length w.bytes % 2 ^ 16)
                ⨾ put_bytes (compress w.bytes))
              new_writer).bytes;
        raw_len = length w.bytes;
        compressed_len = length (compress w.bytes);
      },
      rw (few_items, put_slices-success items new_writer small, finish_bundle, short),
      len,
      rw (header, decode_avatar_bundle, back)
          (read_items-raw (length items % 2 ^ 8) (length w.bytes % 2 ^ 16) w.bytes items
            (omega (arith, len)) refl (omega (arith, few)) small),
    )
