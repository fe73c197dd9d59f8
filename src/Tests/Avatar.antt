-- ===== src/Tests/Avatar.antt =====
-- Bundles of avatar packets at concrete inputs.
use basis_rust_server.Common.{◌≡◌, refl, [], ◌∷◌, List, map, none, some, arith}
use basis_rust_server.Protocol.Avatar.Bundle.{
  AvatarBundleSlice, EncodedAvatarBundle, success, try_encode_avatar_bundle_slices,
  decode_avatar_bundle,
}
use basis_rust_server.Protocol.Avatar.Bundle.RoundTrip.{raw_size, item_of, decode-try_encode}

abbrev packets : List AvatarBundleSlice
packets =
    record { original_channel = 2; payload = 7 ∷ 8 ∷ 9 ∷ []; interval_patch = some (1, 40) }
    ∷ record { original_channel = 3; payload = 5 ∷ []; interval_patch = none }
    ∷ []

decode-try_encode_example :
    (encoded : EncodedAvatarBundle) × (try_encode_avatar_bundle_slices (λ bytes. bytes) packets
      ≡ success encoded)
    × (encoded.raw_len ≡ raw_size packets)
    × (decode_avatar_bundle (λ bytes len. some bytes) encoded.bytes ≡ success (map item_of packets))
decode-try_encode_example =
    decode-try_encode (λ bytes. bytes) (λ bytes len. some bytes) packets (λ raw short. refl)
      (omega arith) (omega arith)
