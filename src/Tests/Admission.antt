-- ===== src/Tests/Admission.antt =====
-- Connection requests at concrete inputs.
use basis_rust_server.Common.{
  ℕ, length, ◌≡◌, refl, ◌∙◌, ◌<◌, ◌≤◌, true, false, [], ◌∷◌, ◌++◌, none, arith, ℕ_discrete,
}
use basis_rust_server.Common.Maps.{member, nat_key, text_key, text_discrete}
use basis_rust_server.Common.Words.{Bytes}
use basis_rust_server.Protocol.Io.{ok, NetReader, new_writer, new_reader, put_u16}
use basis_rust_server.Protocol.Io.Carries.{
  ◌⨾◌, Write, Carries, bind-Carries, map-Carries, reads_back,
}
use basis_rust_server.Protocol.Io.Carries.Words.{u16-Carries}
use basis_rust_server.Protocol.Messages.Players.{
  BytesMessage, serialize_bytes_message, non_empty_or_failure,
}
use basis_rust_server.Protocol.Messages.Players.Carried.{bytes_message-Carries}
use basis_rust_server.Protocol.Messages.Avatars.{ReadyMessage, serialize_ready_message}
use basis_rust_server.Protocol.Messages.Avatars.Carried.{ready_message-Carries, kept_ready}
use basis_rust_server.Permissions.Text.{is_empty}
use basis_rust_server.Moderation.{is_ip_banned, is_uuid_banned, is_whitelisted, is_blacklisted}
use basis_rust_server.Core.Admission.{
  white_list, Gate, admitted, limit, password_matches, is_headless_platform, to_ascii_lowercase,
  server_version, black_list,
}
use basis_rust_server.Core.Admission.Decisions.{
  request_fields, obstacles, first_obstacle, judge_request_lem, admitted_safe,
}
use basis_rust_server.Tests.Messages.{ada_ready, ada_ready-Fits}

abbrev gate : Gate
gate = record {
  config = record {
    peer_limit = 10;
    use_auth = true;
    password = 0x70 ∷ [];
    basis_user_restriction_mode = white_list;
  };
  moderation = record {
    banned_uuids = [];
    banned_ips = (0x31 ∷ []) ∷ [];
    banned_players = [];
    blacklist = [];
    whitelist = (0x61 ∷ 0x64 ∷ 0x61 ∷ []) ∷ [];
    paths = none;
  };
  disallow_headless = true;
  player_count = 3;
}

abbrev auth : BytesMessage
auth = record { bytes = 0x70 ∷ [] }

abbrev request : Write
request = put_u16 33 ⨾ serialize_bytes_message auth ⨾ serialize_ready_message ada_ready

abbrev payload : Bytes
payload = (request new_writer).bytes ++ []

abbrev kept : ReadyMessage
kept = kept_ready ada_ready

asked-Carries : Carries request request_fields (33, auth, kept)
asked-Carries = bind-Carries _ (u16-Carries 33 (omega arith)) (
    bind-Carries _ (bytes_message-Carries auth (omega arith))
      (map-Carries _ (ready_message-Carries ada_ready ada_ready-Fits) refl))

asked :
    request_fields (new_reader payload)
    ≡ ok ((33, auth, kept), record { bytes = payload; pos = length (request new_writer).bytes })
asked = reads_back request request_fields [] asked-Carries

no_obstacle : first_obstacle kept (obstacles gate (0x32 ∷ []) 33 auth kept) ≡ admitted kept
unfolding is_ip_banned is_uuid_banned is_whitelisted is_blacklisted limit password_matches
    is_headless_platform to_ascii_lowercase is_empty member text_discrete ℕ_discrete
    non_empty_or_failure
no_obstacle = refl

admitted_safe_example :
    let player = kept.player_meta_data_message in
    let mode = gate.config.basis_user_restriction_mode in
    (version : ℕ) × (a : BytesMessage) × (r : NetReader) × (request_fields (new_reader payload)
      ≡ ok ((version, a, kept), r))
    × (server_version ≤ version)
    × (gate.config.use_auth ≡ true → password_matches gate.config.password a.bytes ≡ true)
    × (gate.player_count < limit gate.config)
    × (is_ip_banned (0x32 ∷ []) gate.moderation ≡ false)
    × (is_uuid_banned player.player_uuid gate.moderation ≡ false)
    × (mode ≡ white_list → is_whitelisted player.player_uuid gate.moderation ≡ true)
    × (mode ≡ black_list → is_blacklisted player.player_uuid gate.moderation ≡ false)
    × (gate.disallow_headless ≡ true → is_headless_platform player.player_platform ≡ false)
admitted_safe_example =
    admitted_safe gate (0x32 ∷ []) payload kept
      (judge_request_lem gate (0x32 ∷ []) payload 33 auth kept _ asked ∙ no_obstacle)
