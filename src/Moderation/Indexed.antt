-- ===== src/Moderation/Indexed.antt =====
-- The indexes of the bans name what the banned players are banned by, whatever is done to the lists.
use basis_rust_server.Common.{
  ◌≤◌, ◌≡◌, refl, subst, ◌∙◌, Bool, true, false, not, ◌&&◌, ◌||◌, List, [], ◌∷◌, length, Option,
  ◌==◌, if◌then◌else◌, arith, Bool-cases, inl, inr,
}
use basis_rust_server.Common.Maps.{member, add, discard, text_key, member-add, member-discard}
use basis_rust_server.Common.Words.{Bytes}
use basis_rust_server.Moderation.{
  BannedPlayer, ModerationLists, Outcome, is_blank, is_uuid_banned, is_ip_banned, add_whitelist,
  remove_whitelist, add_blacklist, remove_blacklist, index_uuids, index_ips, rebuild_ban_indexes,
  put_player, ban, add_ban_with_details, keep_players, has_uuid, has_ip, remove_ban, add_ip_ban,
  remove_ip_ban, remove_value,
}

abbrev pub any : (BannedPlayer → Bool) → List BannedPlayer → Bool
any test [] = false
any test (p ∷ players) = test p || any test players

-- Is the player banned by the uuid, or by the address?
abbrev pub bans_uuid : Bytes → BannedPlayer → Bool
bans_uuid uuid p = not (is_blank p.uuid) && has_uuid uuid p

abbrev pub bans_ip : Bytes → BannedPlayer → Bool
bans_ip ip p = not (is_blank p.banned_ip) && has_ip ip p

pub member-index_uuids :
    (uuid : Bytes) (players : List BannedPlayer) (uuids : List Bytes)
    → member uuid (index_uuids players uuids) ≡ (member uuid uuids || any (bans_uuid uuid) players)
unfolding index_uuids
member-index_uuids uuid [] uuids = ground arith
member-index_uuids uuid (p ∷ players) uuids =
    member-index_uuids uuid players (if is_blank p.uuid then uuids else add p.uuid uuids)
    ∙ ground (arith, member-add p.uuid uuid uuids)

pub member-index_ips :
    (ip : Bytes) (players : List BannedPlayer) (ips : List Bytes)
    → member ip (index_ips players ips) ≡ (member ip ips || any (bans_ip ip) players)
unfolding index_ips
member-index_ips ip [] ips = ground arith
member-index_ips ip (p ∷ players) ips =
    member-index_ips ip players
      (if p.has_banned_ip && not (is_blank p.banned_ip) then add p.banned_ip ips else ips)
    ∙ ground (arith, member-add p.banned_ip ip ips)

-- A uuid and an address are banned just if a player is banned by them.
pub record IsIndexed (lists : ModerationLists) : Type 0 where
  pub uuids : (uuid : Bytes) → is_uuid_banned uuid lists ≡ any (bans_uuid uuid) lists.banned_players
  pub ips : (ip : Bytes) → is_ip_banned ip lists ≡ any (bans_ip ip) lists.banned_players

rebuild_ban_indexes-IsIndexed : (lists : ModerationLists) → IsIndexed (rebuild_ban_indexes lists)
unfolding rebuild_ban_indexes is_uuid_banned is_ip_banned member
rebuild_ban_indexes-IsIndexed lists = record {
  uuids = λ uuid. member-index_uuids uuid lists.banned_players [];
  ips = λ ip. member-index_ips ip lists.banned_players [];
}

ban-IsIndexed : (banned : BannedPlayer) (lists : ModerationLists) → IsIndexed (ban banned lists).0
unfolding ban
ban-IsIndexed banned lists =
    rebuild_ban_indexes-IsIndexed
      (record lists { banned_players = put_player banned lists.banned_players })

length-keep_players-le :
    (keep : BannedPlayer → Bool) (players : List BannedPlayer)
    → length (keep_players keep players) ≤ length players
unfolding keep_players
length-keep_players-le keep [] = omega arith
length-keep_players-le keep (p ∷ players) = ground (arith, length-keep_players-le keep players)

-- If no player is dropped, none was to be.
kept_all :
    (keep : BannedPlayer → Bool) (players : List BannedPlayer)
    → length (keep_players keep players) ≡ length players
    → keep_players keep players ≡ players
unfolding keep_players
kept_all keep [] e = refl
kept_all keep (p ∷ players) e =
    ground (arith, kept_all keep players, length-keep_players-le keep players)

-- Nobody is left of those who are dropped.
pub any-keep_players :
    (keep test : BannedPlayer → Bool) (players : List BannedPlayer)
    → any test (keep_players keep players) ≡ any (λ p. keep p && test p) players
unfolding keep_players
any-keep_players keep test [] = refl
any-keep_players keep test (p ∷ players) = ground (arith, any-keep_players keep test players)

pub any-none :
    (test : BannedPlayer → Bool) (players : List BannedPlayer)
    → ((p : BannedPlayer) → test p ≡ false)
    → any test players ≡ false
any-none test [] h = refl
any-none test (p ∷ players) h = rw (h p) (any-none test players h)

-- Nobody with the address is left.
pub none_left :
    (ip : Bytes) (players : List BannedPlayer)
    → any (bans_ip ip) (keep_players (λ p. not (has_ip ip p)) players) ≡ false
none_left ip players =
    any-keep_players (λ p. not (has_ip ip p)) (bans_ip ip) players
    ∙ any-none _ players (λ p. ground arith)

remove_ban-IsIndexed :
    (uuid : Bytes) (lists : ModerationLists)
    → IsIndexed lists
    → IsIndexed (remove_ban uuid lists).1.0
unfolding remove_ban
remove_ban-IsIndexed uuid lists h =
    let left = keep_players (λ p. not (has_uuid uuid p)) lists.banned_players in
    elim (Bool-cases (length left == length lists.banned_players)) [
      | inl e ↦
          let same : left ≡ lists.banned_players = kept_all _ lists.banned_players (ground arith) in
          rw (e, same) h
      | inr e ↦ rw e (rebuild_ban_indexes-IsIndexed (record lists { banned_players = left }))
    ]

-- An address that bans no player is not in the index either.
discard-IsIndexed :
    (ip : Bytes) (lists : ModerationLists)
    → any (bans_ip ip) lists.banned_players ≡ false
    → IsIndexed lists
    → IsIndexed (record lists { banned_ips = discard ip lists.banned_ips })
unfolding is_uuid_banned is_ip_banned
discard-IsIndexed ip lists none_banned h = record {
  uuids = λ uuid. h.uuids uuid;
  ips = λ other. ground (arith, member-discard ip other lists.banned_ips, h.ips other, none_banned);
}

remove_ip_ban-IsIndexed :
    (ip : Bytes) (lists : ModerationLists)
    → IsIndexed lists
    → IsIndexed (remove_ip_ban ip lists).1.0
unfolding remove_ip_ban remove_value
remove_ip_ban-IsIndexed ip lists h =
    let left = keep_players (λ p. not (has_ip ip p)) lists.banned_players in
    elim (Bool-cases (length left == length lists.banned_players)) [
      | inl e ↦
          let same : left ≡ lists.banned_players = kept_all _ lists.banned_players (ground arith) in
          let gone : any (bans_ip ip) lists.banned_players ≡ false =
            subst (λ players. any (bans_ip ip) players ≡ false) same
              (none_left ip lists.banned_players) in
          rw (e, same) (discard-IsIndexed ip lists gone h)
      | inr e ↦ rw e (rebuild_ban_indexes-IsIndexed (record lists { banned_players = left }))
    ]

either-IsIndexed :
    (blank : Bool) (x y : Outcome)
    → IsIndexed x.0
    → IsIndexed y.0
    → IsIndexed (if blank then x else y).0
either-IsIndexed true x y h k = h
either-IsIndexed false x y h k = k

pub data Operation : Type 0 where
  ban_uuid : Bytes → Bytes → Option Bytes → Operation
  unban_uuid ban_address unban_address : Bytes → Operation
  allow disallow block unblock : Bytes → Operation

-- The lists after an operation at the time `now`.
unfoldable pub operate : Bytes → Operation → ModerationLists → ModerationLists
operate now (ban_uuid uuid reason ip) lists = (add_ban_with_details uuid reason ip now lists).0
operate now (unban_uuid uuid) lists = (remove_ban uuid lists).1.0
operate now (ban_address ip) lists = (add_ip_ban ip now lists).0
operate now (unban_address ip) lists = (remove_ip_ban ip lists).1.0
operate now (allow uuid) lists = (add_whitelist uuid lists).0
operate now (disallow uuid) lists = (remove_whitelist uuid lists).1.0
operate now (block uuid) lists = (add_blacklist uuid lists).0
operate now (unblock uuid) lists = (remove_blacklist uuid lists).1.0

-- Every operation keeps the indexes in step with the players: a uuid or an address is banned just if some
-- player is banned by it. So the second try of `remove_ip_ban`, on the index alone, finds nothing.
pub operate-IsIndexed :
    (now : Bytes) (operation : Operation) (lists : ModerationLists)
    → IsIndexed lists
    → IsIndexed (operate now operation lists)
unfolding operate add_ban_with_details add_ip_ban add_whitelist remove_whitelist add_blacklist
    remove_blacklist is_uuid_banned is_ip_banned
operate-IsIndexed now (ban_uuid uuid reason ip) lists h =
    either-IsIndexed (is_blank uuid) (lists, []) (ban _ lists) h (ban-IsIndexed _ lists)
operate-IsIndexed now (unban_uuid uuid) lists h = remove_ban-IsIndexed uuid lists h
operate-IsIndexed now (ban_address ip) lists h =
    either-IsIndexed (is_blank ip) (lists, []) (ban _ lists) h (ban-IsIndexed _ lists)
operate-IsIndexed now (unban_address ip) lists h = remove_ip_ban-IsIndexed ip lists h
operate-IsIndexed now (allow uuid) lists h = record { uuids = h.uuids; ips = h.ips }
operate-IsIndexed now (disallow uuid) lists h = record { uuids = h.uuids; ips = h.ips }
operate-IsIndexed now (block uuid) lists h = record { uuids = h.uuids; ips = h.ips }
operate-IsIndexed now (unblock uuid) lists h = record { uuids = h.uuids; ips = h.ips }
