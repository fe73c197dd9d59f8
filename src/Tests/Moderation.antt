-- ===== src/Tests/Moderation.antt =====
-- The lists of the moderation at concrete inputs.
use basis_rust_server.Common.{◌≡◌, ◌≢◌, refl, true, false, not, ◌&&◌, [], ◌∷◌, some}
use basis_rust_server.Common.Maps.{member, add, text_key}
use basis_rust_server.Common.Words.{Bytes}
use basis_rust_server.Permissions.Text.{trim, is_empty}
use basis_rust_server.Moderation.{
  ModerationLists, is_blank, is_uuid_banned, is_ip_banned, has_ip, save_text, add_whitelist,
}
use basis_rust_server.Moderation.Indexed.{
  IsIndexed, any, bans_uuid, operate, ban_uuid, unban_uuid, unban_address, operate-IsIndexed,
}
use basis_rust_server.Moderation.Bans.{ban_uuid_lem, unban_lem}

abbrev ada : Bytes
ada = 0x61 ∷ []

abbrev home : Bytes
home = 0x31 ∷ []

abbrev unused_lists : ModerationLists
unused_lists = record {
  banned_uuids = [];
  banned_ips = [];
  banned_players = [];
  blacklist = [];
  whitelist = [];
  paths = some (record { banned_players = 0x62 ∷ []; whitelist = 0x77 ∷ []; blacklist = [] });
}

unused_lists-IsIndexed : IsIndexed unused_lists
unfolding is_uuid_banned is_ip_banned member
unused_lists-IsIndexed = record { uuids = λ uuid. refl; ips = λ ip. refl }

operate-IsIndexed_example :
    IsIndexed
      (operate [] (unban_address home) (operate [] (ban_uuid ada [] (some home)) unused_lists))
operate-IsIndexed_example =
    operate-IsIndexed [] (unban_address home)
      (operate [] (ban_uuid ada [] (some home)) unused_lists)
      (operate-IsIndexed [] (ban_uuid ada [] (some home)) unused_lists unused_lists-IsIndexed)

ada_named : is_blank ada ≡ false
unfolding is_blank trim is_empty
ada_named = refl

ban_uuid_lem_example :
    let after = operate [] (ban_uuid ada [] (some home)) unused_lists in
    (is_uuid_banned ada after ≡ true)
    × ((other : Bytes)
        → ada ≢ other
        → is_uuid_banned other after ≡ is_uuid_banned other unused_lists)
    × ((address : Bytes)
        → some home ≡ some address
        → is_blank address ≡ false
        → is_ip_banned address after ≡ true)
ban_uuid_lem_example =
    ban_uuid_lem [] ada [] (some home) unused_lists unused_lists-IsIndexed ada_named

unban_lem_example :
    let lists = operate [] (ban_uuid ada [] (some home)) unused_lists in
    let by_uuid = operate [] (unban_uuid home) lists in
    let by_ip = operate [] (unban_address home) lists in
    (is_uuid_banned home by_uuid ≡ false)
    × ((other : Bytes) → home ≢ other → is_uuid_banned other by_uuid ≡ is_uuid_banned other lists)
    × (is_ip_banned home by_ip ≡ false)
    × ((other : Bytes) → home ≢ other → is_ip_banned other by_ip ≡ is_ip_banned other lists)
    × ((uuid : Bytes)
        → is_uuid_banned uuid by_ip
          ≡ any (λ p. not (has_ip home p) && bans_uuid uuid p) lists.banned_players)
unban_lem_example =
    unban_lem [] home (operate [] (ban_uuid ada [] (some home)) unused_lists)
      (operate-IsIndexed [] (ban_uuid ada [] (some home)) unused_lists unused_lists-IsIndexed)

-- The list is written behind the change, a line for each name.
listed : (add_whitelist ada unused_lists).1 ≡ save_text (0x77 ∷ []) (0x61 ∷ 10 ∷ []) ∷ []
unfolding add_whitelist is_blank trim is_empty add
listed = refl
