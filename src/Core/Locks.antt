-- ===== src/Core/Locks.antt =====
-- What the locks of the server forbid: `content_locked`, `resource_locked` and `has_protection_permission`
-- of BasisRustServer/crates/basis-server-core/src/lib.rs. The nodes are those of
-- BasisRustServer/crates/basis-protocol/src/permissions.rs.
use basis_rust_server.Common.{
  ℕ, Bool, true, false, [], ◌∷◌, none, some, ◌==◌, not, ◌&&◌, if◌then◌else◌,
}
use basis_rust_server.Common.Maps.{lookup, nat_key}
use basis_rust_server.Common.Words.{Bytes}
use basis_rust_server.Permissions.{has}
use basis_rust_server.Protocol.Messages.Sharing.{ContentShareType, avatar, prop, world, server}
use basis_rust_server.Protocol.Messages.Objects.{LocalLoadResource}
use basis_rust_server.Core.{ServerState}

-- "basis.resource.lockbypass.avatar".
abbrev pub resource_lock_bypass_avatar : Bytes
resource_lock_bypass_avatar =
    98 ∷ 97 ∷ 115 ∷ 105 ∷ 115 ∷ 46 ∷ 114 ∷ 101 ∷ 115 ∷ 111 ∷ 117 ∷ 114 ∷ 99 ∷ 101 ∷ 46 ∷ 108 ∷ 111
    ∷ 99 ∷ 107 ∷ 98 ∷ 121 ∷ 112 ∷ 97 ∷ 115 ∷ 115 ∷ 46 ∷ 97 ∷ 118 ∷ 97 ∷ 116 ∷ 97 ∷ 114 ∷ []

-- "basis.resource.lockbypass.prop".
abbrev pub resource_lock_bypass_prop : Bytes
resource_lock_bypass_prop =
    98 ∷ 97 ∷ 115 ∷ 105 ∷ 115 ∷ 46 ∷ 114 ∷ 101 ∷ 115 ∷ 111 ∷ 117 ∷ 114 ∷ 99 ∷ 101 ∷ 46 ∷ 108 ∷ 111
    ∷ 99 ∷ 107 ∷ 98 ∷ 121 ∷ 112 ∷ 97 ∷ 115 ∷ 115 ∷ 46 ∷ 112 ∷ 114 ∷ 111 ∷ 112 ∷ []

-- "basis.resource.lockbypass.world".
abbrev pub resource_lock_bypass_world : Bytes
resource_lock_bypass_world =
    98 ∷ 97 ∷ 115 ∷ 105 ∷ 115 ∷ 46 ∷ 114 ∷ 101 ∷ 115 ∷ 111 ∷ 117 ∷ 114 ∷ 99 ∷ 101 ∷ 46 ∷ 108 ∷ 111
    ∷ 99 ∷ 107 ∷ 98 ∷ 121 ∷ 112 ∷ 97 ∷ 115 ∷ 115 ∷ 46 ∷ 119 ∷ 111 ∷ 114 ∷ 108 ∷ 100 ∷ []

-- "basis.resource.lockbypass.server".
abbrev pub resource_lock_bypass_server : Bytes
resource_lock_bypass_server =
    98 ∷ 97 ∷ 115 ∷ 105 ∷ 115 ∷ 46 ∷ 114 ∷ 101 ∷ 115 ∷ 111 ∷ 117 ∷ 114 ∷ 99 ∷ 101 ∷ 46 ∷ 108 ∷ 111
    ∷ 99 ∷ 107 ∷ 98 ∷ 121 ∷ 112 ∷ 97 ∷ 115 ∷ 115 ∷ 46 ∷ 115 ∷ 101 ∷ 114 ∷ 118 ∷ 101 ∷ 114 ∷ []

-- "basis.protection".
abbrev pub protection : Bytes
protection =
    98 ∷ 97 ∷ 115 ∷ 105 ∷ 115 ∷ 46 ∷ 112 ∷ 114 ∷ 111 ∷ 116 ∷ 101 ∷ 99 ∷ 116 ∷ 105 ∷ 111 ∷ 110 ∷ []

-- Whether a lock holds for the player with the uuid.
locked_for : Bool → Bytes → Bytes → ServerState → Bool
unfolding has
locked_for locked uuid node state = locked && not (has uuid node state.permissions)

unfoldable pub content_locked : ServerState → ContentShareType → ℕ → Bool
unfolding locked_for
content_locked state content_type peer = elim (lookup peer state.authenticated_peers) [
  | none ↦ true
  | some connected ↦
      let locks = state.global_state in
      let uuid = connected.metadata.player_uuid in
      elim content_type [
        | avatar ↦ locked_for locks.avatars_locked uuid resource_lock_bypass_avatar state
        | prop ↦ locked_for locks.props_locked uuid resource_lock_bypass_prop state
        | world ↦ locked_for locks.worlds_locked uuid resource_lock_bypass_world state
        | server ↦ locked_for locks.servers_locked uuid resource_lock_bypass_server state
      ]
]

unfoldable pub resource_locked : ServerState → LocalLoadResource → ℕ → Bool
unfolding locked_for
resource_locked state resource peer = elim (lookup peer state.authenticated_peers) [
  | none ↦ true
  | some connected ↦
      let locks = state.global_state in
      let uuid = connected.metadata.player_uuid in
      if resource.mode == 0
      then locked_for locks.props_locked uuid resource_lock_bypass_prop state
      else if resource.mode == 1
      then locked_for locks.worlds_locked uuid resource_lock_bypass_world state
      else true
]

unfoldable pub has_protection_permission : ServerState → ℕ → Bool
unfolding has
has_protection_permission state peer = elim (lookup peer state.authenticated_peers) [
  | none ↦ false
  | some connected ↦ has connected.metadata.player_uuid protection state.permissions
]
