-- ===== src/Protocol/Channels.antt =====
-- The channels of avatars: BasisRustServer/crates/basis-protocol/src/channels.rs. A byte that goes below
-- zero wraps.
use basis_rust_server.Common.{
  ℕ, ◌+◌, ◌*◌, ◌%◌, ◌/◌, ◌^◌, Bool, leb, ◌==◌, ◌&&◌, ◌||◌, if◌then◌else◌,
}

abbrev pub player_avatar_very_low : ℕ
player_avatar_very_low = 6

abbrev pub player_avatar_very_low_large : ℕ
player_avatar_very_low_large = 41

abbrev pub player_avatar_high_additional_large : ℕ
player_avatar_high_additional_large = 48

abbrev pub voice_large : ℕ
voice_large = 40

unfoldable pub player_avatar_channel_for_quality : ℕ → Bool → ℕ
player_avatar_channel_for_quality quality_index has_additional_data =
    (player_avatar_very_low + quality_index * 2 + (if has_additional_data then 1 else 0)) % 2 ^ 8

unfoldable pub player_avatar_large_channel_for_quality : ℕ → Bool → ℕ
player_avatar_large_channel_for_quality quality_index has_additional_data =
    (player_avatar_very_low_large + quality_index * 2 + (if has_additional_data then 1 else 0))
    % 2 ^ 8

unfoldable pub is_large_player_id_channel : ℕ → Bool
is_large_player_id_channel channel =
    (channel == voice_large)
    || (leb player_avatar_very_low_large channel && leb channel player_avatar_high_additional_large)

-- The channel less the first one of its kind.
unfoldable pub above_first : ℕ → ℕ
above_first channel =
    if leb player_avatar_very_low_large channel
    then (channel + 215) % 2 ^ 8
    else (channel + 250) % 2 ^ 8

unfoldable pub quality_from_channel : ℕ → ℕ
unfolding above_first
quality_from_channel channel = above_first channel / 2

unfoldable pub channel_has_additional_data : ℕ → Bool
unfolding above_first
channel_has_additional_data channel = above_first channel % 2 == 1
