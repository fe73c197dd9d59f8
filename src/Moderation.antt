-- ===== src/Moderation.antt =====
-- Bans, the whitelist and the blacklist: BasisRustServer/crates/basis-server-admin/src/lib.rs.
-- An operation gives the lists after it and what it writes to a file, which it does last: if that
-- fails, its error is the result of the operation and the lists stay changed. The time is an argument.
pub mod Indexed
pub mod Bans
pub mod Locks
use basis_rust_server.Common.{
  Bool, true, false, not, ◌&&◌, List, [], ◌∷◌, ◌++◌, length, Option, none, some, ◌==◌,
  if◌then◌else◌, ite,
}
use basis_rust_server.Common.Maps.{member, add, discard, text_key, text_discrete}
use basis_rust_server.Common.Words.{Bytes}
use basis_rust_server.Permissions.Text.{trim, is_empty}

pub record BannedPlayer : Type 0 where
  pub uuid : Bytes
  pub banned_ip : Bytes
  pub reason : Bytes
  pub has_banned_ip : Bool
  pub time_of_ban : Bytes

pub record ModerationPaths : Type 0 where
  pub banned_players : Bytes
  pub whitelist : Bytes
  pub blacklist : Bytes

pub record ModerationLists : Type 0 where
  pub banned_uuids : List Bytes
  pub banned_ips : List Bytes
  pub banned_players : List BannedPlayer
  pub blacklist : List Bytes
  pub whitelist : List Bytes
  pub paths : Option ModerationPaths

-- A file that is written: its path, and the players or the text.
pub data Save : Type 0 where
  save_players : Bytes → List BannedPlayer → Save
  save_text : Bytes → Bytes → Save

unfoldable pub is_blank : Bytes → Bool
is_blank s = is_empty (trim s)

unfoldable pub line_list : List Bytes → Bytes
line_list [] = []
line_list (value ∷ values) =
    if is_blank value then line_list values else value ++ (10 ∷ []) ++ line_list values

save_banned_players : ModerationLists → List Save
save_banned_players lists = elim lists.paths [
  | none ↦ []
  | some paths ↦ save_players paths.banned_players lists.banned_players ∷ []
]

save_whitelist : ModerationLists → List Save
unfolding line_list
save_whitelist lists = elim lists.paths [
  | none ↦ []
  | some paths ↦ save_text paths.whitelist (line_list lists.whitelist) ∷ []
]

save_blacklist : ModerationLists → List Save
unfolding line_list
save_blacklist lists = elim lists.paths [
  | none ↦ []
  | some paths ↦ save_text paths.blacklist (line_list lists.blacklist) ∷ []
]

unfoldable pub is_uuid_banned : Bytes → ModerationLists → Bool
is_uuid_banned uuid lists = member uuid lists.banned_uuids

unfoldable pub is_ip_banned : Bytes → ModerationLists → Bool
is_ip_banned ip lists = member ip lists.banned_ips

unfoldable pub is_whitelisted : Bytes → ModerationLists → Bool
is_whitelisted uuid lists = member uuid lists.whitelist

unfoldable pub is_blacklisted : Bytes → ModerationLists → Bool
is_blacklisted uuid lists = member uuid lists.blacklist

unfoldable pub push_unique : Bytes → List Bytes → List Bytes
push_unique value values = if is_blank value then values else add value values

unfoldable pub remove_value : Bytes → List Bytes → Bool × List Bytes
remove_value value values =
    let left = discard value values in (not (length left == length values), left)

abbrev pub Outcome : Type 0
Outcome = ModerationLists × List Save

unfoldable pub add_whitelist : Bytes → ModerationLists → Outcome
unfolding push_unique save_whitelist
add_whitelist uuid lists =
    let after = record lists { whitelist = push_unique uuid lists.whitelist } in
    (after, save_whitelist after)

unfoldable pub remove_whitelist : Bytes → ModerationLists → Bool × Outcome
unfolding remove_value save_whitelist
remove_whitelist uuid lists =
    let (changed, left) = remove_value uuid lists.whitelist in
    let after = record lists { whitelist = left } in
    (changed, (after, if changed then save_whitelist after else []))

unfoldable pub add_blacklist : Bytes → ModerationLists → Outcome
unfolding push_unique save_blacklist
add_blacklist uuid lists =
    let after = record lists { blacklist = push_unique uuid lists.blacklist } in
    (after, save_blacklist after)

unfoldable pub remove_blacklist : Bytes → ModerationLists → Bool × Outcome
unfolding remove_value save_blacklist
remove_blacklist uuid lists =
    let (changed, left) = remove_value uuid lists.blacklist in
    let after = record lists { blacklist = left } in
    (changed, (after, if changed then save_blacklist after else []))

-- The uuids and the addresses that the players are banned by.
unfoldable pub index_uuids : List BannedPlayer → List Bytes → List Bytes
index_uuids [] uuids = uuids
index_uuids (p ∷ players) uuids =
    index_uuids players (if is_blank p.uuid then uuids else add p.uuid uuids)

unfoldable pub index_ips : List BannedPlayer → List Bytes → List Bytes
index_ips [] ips = ips
index_ips (p ∷ players) ips =
    index_ips players
      (if p.has_banned_ip && not (is_blank p.banned_ip) then add p.banned_ip ips else ips)

unfoldable pub rebuild_ban_indexes : ModerationLists → ModerationLists
unfolding index_uuids index_ips
rebuild_ban_indexes lists = record lists {
  banned_uuids = index_uuids lists.banned_players [];
  banned_ips = index_ips lists.banned_players [];
}

-- In place of the first player with the uuid, or at the end.
unfoldable pub put_player : BannedPlayer → List BannedPlayer → List BannedPlayer
put_player banned [] = banned ∷ []
put_player banned (p ∷ players) =
    ite (text_discrete p.uuid banned.uuid) (banned ∷ players) (p ∷ put_player banned players)

ban : BannedPlayer → ModerationLists → Outcome
unfolding put_player rebuild_ban_indexes save_banned_players
ban banned lists =
    let after =
      rebuild_ban_indexes
        (record lists { banned_players = put_player banned lists.banned_players }) in
    (after, save_banned_players after)

has_address : Option Bytes → Bool
has_address none = false
has_address (some ip) = not (is_blank ip)

address : Option Bytes → Bytes
address none = []
address (some ip) = ip

unfoldable pub add_ban_with_details :
    Bytes → Bytes → Option Bytes → Bytes → ModerationLists → Outcome
unfolding ban has_address address
add_ban_with_details uuid reason banned_ip now lists =
    if is_blank uuid
    then (lists, [])
    else ban
        (record {
          uuid = uuid;
          banned_ip = address banned_ip;
          reason = reason;
          has_banned_ip = has_address banned_ip;
          time_of_ban = now;
        })
        lists

unfoldable pub add_ban : Bytes → Bytes → ModerationLists → Outcome
unfolding add_ban_with_details
add_ban uuid now lists = add_ban_with_details uuid [] none now lists

-- `retain`, and the indexes and the file if that removed a player.
pub keep_players : (BannedPlayer → Bool) → List BannedPlayer → List BannedPlayer
keep_players keep [] = []
keep_players keep (p ∷ players) =
    if keep p then p ∷ keep_players keep players else keep_players keep players

abbrev has_uuid : Bytes → BannedPlayer → Bool
has_uuid uuid p = ite (text_discrete p.uuid uuid) true false

abbrev pub has_ip : Bytes → BannedPlayer → Bool
has_ip ip p = p.has_banned_ip && ite (text_discrete p.banned_ip ip) true false

unfoldable pub remove_ban : Bytes → ModerationLists → Bool × Outcome
unfolding keep_players rebuild_ban_indexes save_banned_players
remove_ban uuid lists =
    let left = keep_players (λ p. not (has_uuid uuid p)) lists.banned_players in
    let after = record lists { banned_players = left } in
    let rebuilt = rebuild_ban_indexes after in
    if length left == length lists.banned_players
    then (false, (after, []))
    else (true, (rebuilt, save_banned_players rebuilt))

-- "ip-ban:".
abbrev ip_ban_prefix : Bytes
ip_ban_prefix = 0x69 ∷ 0x70 ∷ 0x2d ∷ 0x62 ∷ 0x61 ∷ 0x6e ∷ 0x3a ∷ []

-- "IP banned".
abbrev ip_banned : Bytes
ip_banned = 0x49 ∷ 0x50 ∷ 0x20 ∷ 0x62 ∷ 0x61 ∷ 0x6e ∷ 0x6e ∷ 0x65 ∷ 0x64 ∷ []

unfoldable pub add_ip_ban : Bytes → Bytes → ModerationLists → Outcome
unfolding ban
add_ip_ban ip now lists =
    if is_blank ip
    then (lists, [])
    else ban
        (record {
          uuid = ip_ban_prefix ++ ip;
          banned_ip = ip;
          reason = ip_banned;
          has_banned_ip = true;
          time_of_ban = now;
        })
        lists

-- If no player was banned by the address, it is taken out of the index alone.
unfoldable pub remove_ip_ban : Bytes → ModerationLists → Bool × Outcome
unfolding keep_players rebuild_ban_indexes save_banned_players remove_value
remove_ip_ban ip lists =
    let left = keep_players (λ p. not (has_ip ip p)) lists.banned_players in
    let after = record lists { banned_players = left } in
    let rebuilt = rebuild_ban_indexes after in
    let (changed, ips) = remove_value ip after.banned_ips in
    let indexed = record after { banned_ips = ips } in
    if length left == length lists.banned_players
    then (changed, (indexed, if changed then save_banned_players indexed else []))
    else (true, (rebuilt, save_banned_players rebuilt))
