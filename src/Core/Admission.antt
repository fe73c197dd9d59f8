-- ===== src/Core/Admission.antt =====
-- Which connection requests are accepted: `handle_connection_request` of
-- BasisRustServer/crates/basis-server-core/src/lib.rs. The text of the address is an argument, since
-- the standard library prints it.
pub mod Decisions
use basis_rust_server.Common.{
  ℕ, ◌+◌, ◌-◌, ◌^◌, Bool, true, false, List, [], ◌∷◌, map, ltb, leb, not, ◌&&◌, if◌then◌else◌, ite,
}
use basis_rust_server.Common.Maps.{member, text_key, text_discrete}
use basis_rust_server.Common.Words.{Bytes}
use basis_rust_server.Protocol.Io.{Result, ok, err, NetReader, new_reader, get_u16}
use basis_rust_server.Protocol.Messages.Players.{BytesMessage, deserialize_bytes_message}
use basis_rust_server.Protocol.Messages.Avatars.{ReadyMessage, deserialize_ready_message}
use basis_rust_server.Permissions.Text.{is_empty}
use basis_rust_server.Moderation.{
  ModerationLists, is_ip_banned, is_uuid_banned, is_whitelisted, is_blacklisted,
}

pub data BasisUserRestrictionMode : Type 0 where
  unrestricted white_list black_list : BasisUserRestrictionMode

-- The limit is an `i32`, by its bits.
pub record ServerConfig : Type 0 where
  pub peer_limit : ℕ
  pub use_auth : Bool
  pub password : Bytes
  pub basis_user_restriction_mode : BasisUserRestrictionMode

-- What the requests are judged by.
pub record Gate : Type 0 where
  pub config : ServerConfig
  pub moderation : ModerationLists
  pub disallow_headless : Bool
  pub player_count : ℕ

pub data Refusal : Type 0 where
  banned_ip server_full invalid_data outdated malformed_auth wrong_password malformed_ready headless
        banned not_on_whitelist on_blacklist :
      Refusal

unfoldable pub reason : Refusal → Bytes
-- "Banned IP".
reason banned_ip = 66 ∷ 97 ∷ 110 ∷ 110 ∷ 101 ∷ 100 ∷ 32 ∷ 73 ∷ 80 ∷ []
-- "Server is full! Rejected.".
reason server_full =
    83 ∷ 101 ∷ 114 ∷ 118 ∷ 101 ∷ 114 ∷ 32 ∷ 105 ∷ 115 ∷ 32 ∷ 102 ∷ 117 ∷ 108 ∷ 108 ∷ 33 ∷ 32 ∷ 82
    ∷ 101 ∷ 106 ∷ 101 ∷ 99 ∷ 116 ∷ 101 ∷ 100 ∷ 46 ∷ []
-- "Invalid client data.".
reason invalid_data =
    73 ∷ 110 ∷ 118 ∷ 97 ∷ 108 ∷ 105 ∷ 100 ∷ 32 ∷ 99 ∷ 108 ∷ 105 ∷ 101 ∷ 110 ∷ 116 ∷ 32 ∷ 100 ∷ 97
    ∷ 116 ∷ 97 ∷ 46 ∷ []
-- "Outdated client version.".
reason outdated =
    79 ∷ 117 ∷ 116 ∷ 100 ∷ 97 ∷ 116 ∷ 101 ∷ 100 ∷ 32 ∷ 99 ∷ 108 ∷ 105 ∷ 101 ∷ 110 ∷ 116 ∷ 32 ∷ 118
    ∷ 101 ∷ 114 ∷ 115 ∷ 105 ∷ 111 ∷ 110 ∷ 46 ∷ []
-- "Malformed auth payload".
reason malformed_auth =
    77 ∷ 97 ∷ 108 ∷ 102 ∷ 111 ∷ 114 ∷ 109 ∷ 101 ∷ 100 ∷ 32 ∷ 97 ∷ 117 ∷ 116 ∷ 104 ∷ 32 ∷ 112 ∷ 97
    ∷ 121 ∷ 108 ∷ 111 ∷ 97 ∷ 100 ∷ []
-- "Authentication failed, Auth rejected".
reason wrong_password =
    65 ∷ 117 ∷ 116 ∷ 104 ∷ 101 ∷ 110 ∷ 116 ∷ 105 ∷ 99 ∷ 97 ∷ 116 ∷ 105 ∷ 111 ∷ 110 ∷ 32 ∷ 102 ∷ 97
    ∷ 105 ∷ 108 ∷ 101 ∷ 100 ∷ 44 ∷ 32 ∷ 65 ∷ 117 ∷ 116 ∷ 104 ∷ 32 ∷ 114 ∷ 101 ∷ 106 ∷ 101 ∷ 99 ∷ 116
    ∷ 101 ∷ 100 ∷ []
-- "Malformed ready payload".
reason malformed_ready =
    77 ∷ 97 ∷ 108 ∷ 102 ∷ 111 ∷ 114 ∷ 109 ∷ 101 ∷ 100 ∷ 32 ∷ 114 ∷ 101 ∷ 97 ∷ 100 ∷ 121 ∷ 32 ∷ 112
    ∷ 97 ∷ 121 ∷ 108 ∷ 111 ∷ 97 ∷ 100 ∷ []
-- "Headless client disallowed by server.".
reason headless =
    72 ∷ 101 ∷ 97 ∷ 100 ∷ 108 ∷ 101 ∷ 115 ∷ 115 ∷ 32 ∷ 99 ∷ 108 ∷ 105 ∷ 101 ∷ 110 ∷ 116 ∷ 32 ∷ 100
    ∷ 105 ∷ 115 ∷ 97 ∷ 108 ∷ 108 ∷ 111 ∷ 119 ∷ 101 ∷ 100 ∷ 32 ∷ 98 ∷ 121 ∷ 32 ∷ 115 ∷ 101 ∷ 114
    ∷ 118 ∷ 101 ∷ 114 ∷ 46 ∷ []
-- "Banned".
reason banned = 66 ∷ 97 ∷ 110 ∷ 110 ∷ 101 ∷ 100 ∷ []
-- "You are not on the whitelist.".
reason not_on_whitelist =
    89 ∷ 111 ∷ 117 ∷ 32 ∷ 97 ∷ 114 ∷ 101 ∷ 32 ∷ 110 ∷ 111 ∷ 116 ∷ 32 ∷ 111 ∷ 110 ∷ 32 ∷ 116 ∷ 104
    ∷ 101 ∷ 32 ∷ 119 ∷ 104 ∷ 105 ∷ 116 ∷ 101 ∷ 108 ∷ 105 ∷ 115 ∷ 116 ∷ 46 ∷ []
-- "You are on the blacklist.".
reason on_blacklist =
    89 ∷ 111 ∷ 117 ∷ 32 ∷ 97 ∷ 114 ∷ 101 ∷ 32 ∷ 111 ∷ 110 ∷ 32 ∷ 116 ∷ 104 ∷ 101 ∷ 32 ∷ 98 ∷ 108
    ∷ 97 ∷ 99 ∷ 107 ∷ 108 ∷ 105 ∷ 115 ∷ 116 ∷ 46 ∷ []

pub data Decision : Type 0 where
  refused : Refusal → Decision
  admitted : ReadyMessage → Decision

abbrev pub server_version : ℕ
server_version = 33

-- `peer_limit as usize`.
unfoldable pub limit : ServerConfig → ℕ
limit config =
    if ltb config.peer_limit (2 ^ 31)
    then config.peer_limit
    else config.peer_limit + (2 ^ 64 - 2 ^ 32)

unfoldable pub password_matches : Bytes → Bytes → Bool
password_matches server_password auth_bytes =
    if is_empty server_password
    then true
    else if is_empty auth_bytes
    then false
    else ite (text_discrete auth_bytes server_password) true false

unfoldable pub to_ascii_lowercase : Bytes → Bytes
to_ascii_lowercase = map (λ (b : ℕ). if leb 65 b && leb b 90 then b + 32 else b)

-- "headless", "windowsserver", "linuxserver", "osxserver".
abbrev headless_platforms : List Bytes
headless_platforms =
    (104 ∷ 101 ∷ 97 ∷ 100 ∷ 108 ∷ 101 ∷ 115 ∷ 115 ∷ [])
    ∷ (119 ∷ 105 ∷ 110 ∷ 100 ∷ 111 ∷ 119 ∷ 115 ∷ 115 ∷ 101 ∷ 114 ∷ 118 ∷ 101 ∷ 114 ∷ [])
    ∷ (108 ∷ 105 ∷ 110 ∷ 117 ∷ 120 ∷ 115 ∷ 101 ∷ 114 ∷ 118 ∷ 101 ∷ 114 ∷ [])
    ∷ (111 ∷ 115 ∷ 120 ∷ 115 ∷ 101 ∷ 114 ∷ 118 ∷ 101 ∷ 114 ∷ [])
    ∷ []

unfoldable pub is_headless_platform : Bytes → Bool
unfolding to_ascii_lowercase member
is_headless_platform platform = member (to_ascii_lowercase platform) headless_platforms

unfoldable pub after_ready : Gate → Result (ReadyMessage × NetReader) → Decision
unfolding is_headless_platform is_uuid_banned is_whitelisted is_blacklisted
after_ready gate (err e) = refused malformed_ready
after_ready gate (ok (ready, r)) =
    let uuid = ready.player_meta_data_message.player_uuid in
    if gate.disallow_headless && is_headless_platform ready.player_meta_data_message.player_platform
    then refused headless
    else if is_uuid_banned uuid gate.moderation
    then refused banned
    else elim gate.config.basis_user_restriction_mode [
      | unrestricted ↦ admitted ready
      | white_list ↦
          if not (is_whitelisted uuid gate.moderation)
          then refused not_on_whitelist
          else admitted ready
      | black_list ↦
          if is_blacklisted uuid gate.moderation then refused on_blacklist else admitted ready
    ]

unfoldable pub after_auth : Gate → Result (BytesMessage × NetReader) → Decision
unfolding password_matches after_ready
after_auth gate (err e) = refused malformed_auth
after_auth gate (ok (auth, r)) =
    if gate.config.use_auth && not (password_matches gate.config.password auth.bytes)
    then refused wrong_password
    else after_ready gate (deserialize_ready_message r)

unfoldable pub after_version : Gate → Result (ℕ × NetReader) → Decision
unfolding after_auth
after_version gate (err e) = refused invalid_data
after_version gate (ok (client_version, r)) =
    if ltb client_version server_version
    then refused outdated
    else after_auth gate (deserialize_bytes_message r)

-- The part of `handle_connection_request` up to the call of `accept`.
unfoldable pub judge_request : Gate → Bytes → Bytes → Decision
unfolding is_ip_banned limit after_version
judge_request gate ip payload =
    if is_ip_banned ip gate.moderation
    then refused banned_ip
    else if leb (limit gate.config) gate.player_count
    then refused server_full
    else after_version gate (get_u16 (new_reader payload))
