-- ===== src/Moderation/Bans.antt =====
-- What a ban does, and what lifting it does.
use basis_rust_server.Common.{
  ◌≡◌, ◌≢◌, refl, sym, ap, ◌∙◌, Bool, true, false, not, ◌&&◌, ◌||◌, List, [], ◌∷◌, Option, some,
  if◌then◌else◌, arith,
}
use basis_rust_server.Common.Maps.{text_key}
use basis_rust_server.Common.Words.{Bytes}
use basis_rust_server.Moderation.{
  BannedPlayer, ModerationLists, is_blank, is_uuid_banned, is_ip_banned, rebuild_ban_indexes,
  put_player, ban, add_ban_with_details, keep_players, has_uuid, has_ip, remove_ban, remove_ip_ban,
  has_address, address,
}
use basis_rust_server.Moderation.Indexed.{
  any, bans_uuid, bans_ip, IsIndexed, ban_uuid, unban_uuid, unban_address, operate,
  operate-IsIndexed, any-keep_players, none_left, any-none,
}

-- A player that was put in is there, and those that other uuids are banned by stay.
any-put_player :
    (uuid : Bytes) (banned : BannedPlayer) (players : List BannedPlayer)
    → any (bans_uuid uuid) (put_player banned players)
      ≡ (bans_uuid uuid banned || any (bans_uuid uuid) players)
unfolding put_player
any-put_player uuid banned [] = refl
any-put_player uuid banned (p ∷ players) = ground (arith, any-put_player uuid banned players)

put_player-has :
    (test : BannedPlayer → Bool) (banned : BannedPlayer) (players : List BannedPlayer)
    → test banned ≡ true
    → any test (put_player banned players) ≡ true
unfolding put_player
put_player-has test banned [] h = rw h
put_player-has test banned (p ∷ players) h = ground (arith, put_player-has test banned players)

any-same :
    (f g : BannedPlayer → Bool) (players : List BannedPlayer)
    → ((p : BannedPlayer) → f p ≡ g p)
    → any f players ≡ any g players
any-same f g [] h = refl
any-same f g (p ∷ players) h = rw (h p, any-same f g players h)

players-ban :
    (blank : Bool) (banned : BannedPlayer) (lists : ModerationLists)
    → blank ≡ false
    → ModerationLists.banned_players (if blank then (lists, []) else ban banned lists).0
      ≡ put_player banned lists.banned_players
unfolding ban rebuild_ban_indexes
players-ban true banned lists h = cc
players-ban false banned lists h = refl

-- A ban by uuid that is not blank bans the uuid, bans its address if one is given that is not blank, and
-- bans or unbans no other uuid.
pub ban_uuid_lem :
    (now uuid reason : Bytes) (ip : Option Bytes) (lists : ModerationLists)
    → IsIndexed lists
    → is_blank uuid ≡ false
    → let after = operate now (ban_uuid uuid reason ip) lists in
      (is_uuid_banned uuid after ≡ true)
      × ((other : Bytes) → uuid ≢ other → is_uuid_banned other after ≡ is_uuid_banned other lists)
      × ((address : Bytes)
          → ip ≡ some address
          → is_blank address ≡ false
          → is_ip_banned address after ≡ true)
unfolding operate add_ban_with_details has_address address
ban_uuid_lem now uuid reason ip lists h named =
    let now_indexed = operate-IsIndexed now (ban_uuid uuid reason ip) lists h in
    let banned : BannedPlayer = record {
      uuid = uuid;
      banned_ip = address ip;
      reason = reason;
      has_banned_ip = has_address ip;
      time_of_ban = now;
    } in
    let players = players-ban (is_blank uuid) banned lists named in
    (
      now_indexed.uuids uuid
          ∙ ap (any (bans_uuid uuid)) players
          ∙ put_player-has (bans_uuid uuid) banned lists.banned_players (ground arith),
      λ other ne.
          now_indexed.uuids other
          ∙ ap (any (bans_uuid other)) players
          ∙ any-put_player other banned lists.banned_players
          ∙ ground (arith, h.uuids other),
      λ given e real.
          now_indexed.ips given
          ∙ ap (any (bans_ip given)) players
          ∙ put_player-has (bans_ip given) banned lists.banned_players (rw e (ground arith)),
    )

players-remove_ban :
    (uuid : Bytes) (lists : ModerationLists)
    → (remove_ban uuid lists).1.0.banned_players
      ≡ keep_players (λ p. not (has_uuid uuid p)) lists.banned_players
unfolding remove_ban rebuild_ban_indexes
players-remove_ban uuid lists = ground arith

players-remove_ip_ban :
    (ip : Bytes) (lists : ModerationLists)
    → (remove_ip_ban ip lists).1.0.banned_players
      ≡ keep_players (λ p. not (has_ip ip p)) lists.banned_players
unfolding remove_ip_ban rebuild_ban_indexes
players-remove_ip_ban ip lists = ground arith

-- Lifting a ban by uuid unbans the uuid and no other. Lifting a ban by address unbans the address and no
-- other, and with it every uuid whose players were all banned by that address.
pub unban_lem :
    (now target : Bytes) (lists : ModerationLists)
    → IsIndexed lists
    → let by_uuid = operate now (unban_uuid target) lists in
      let by_ip = operate now (unban_address target) lists in
      (is_uuid_banned target by_uuid ≡ false)
      × ((other : Bytes)
          → target ≢ other
          → is_uuid_banned other by_uuid ≡ is_uuid_banned other lists)
      × (is_ip_banned target by_ip ≡ false)
      × ((other : Bytes) → target ≢ other → is_ip_banned other by_ip ≡ is_ip_banned other lists)
      × ((uuid : Bytes)
          → is_uuid_banned uuid by_ip
            ≡ any (λ p. not (has_ip target p) && bans_uuid uuid p) lists.banned_players)
unfolding operate
unban_lem now target lists h =
    let after_uuid = operate-IsIndexed now (unban_uuid target) lists h in
    let after_ip = operate-IsIndexed now (unban_address target) lists h in
    let players = players-remove_ban target lists in
    let left = players-remove_ip_ban target lists in
    let keep : BannedPlayer → Bool = λ p. not (has_uuid target p) in
    let keep_ip : BannedPlayer → Bool = λ p. not (has_ip target p) in
    (
      after_uuid.uuids target
          ∙ ap (any (bans_uuid target)) players
          ∙ any-keep_players keep (bans_uuid target) lists.banned_players
          ∙ any-none _ lists.banned_players (λ p. ground arith),
      λ other ne.
          after_uuid.uuids other
          ∙ ap (any (bans_uuid other)) players
          ∙ any-keep_players keep (bans_uuid other) lists.banned_players
          ∙ any-same _ (bans_uuid other) lists.banned_players (λ p. ground arith)
          ∙ sym (h.uuids other),
      after_ip.ips target ∙ ap (any (bans_ip target)) left ∙ none_left target lists.banned_players,
      λ other ne.
          after_ip.ips other
          ∙ ap (any (bans_ip other)) left
          ∙ any-keep_players keep_ip (bans_ip other) lists.banned_players
          ∙ any-same _ (bans_ip other) lists.banned_players (λ p. ground arith)
          ∙ sym (h.ips other),
      λ uuid.
          after_ip.uuids uuid
          ∙ ap (any (bans_uuid uuid)) left
          ∙ any-keep_players keep_ip (bans_uuid uuid) lists.banned_players,
    )
