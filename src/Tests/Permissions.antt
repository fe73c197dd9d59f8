-- ===== src/Tests/Permissions.antt =====
-- The permissions of a user at concrete inputs.
use basis_rust_server.Common.{
  if◌then◌else◌, ◌≡◌, refl, true, false, ◌||◌, ◌++◌, [], ◌∷◌, none, arith, ℕ_discrete,
}
use basis_rust_server.Common.Maps.{lookup, member, add, insert, text_key, text_discrete}
use basis_rust_server.Common.Words.{Bytes}
use basis_rust_server.Permissions.{
  PermissionStore, apply_group, effective_decisions, has, check_node, all_nodes,
}
use basis_rust_server.Permissions.Decisions.{says, settled}
use basis_rust_server.Permissions.Groups.{says_any, reached_groups, effective_decisions_lem}
use basis_rust_server.Permissions.Text.{trim, is_empty}
use basis_rust_server.Transport.Peer.{or_default}
use basis_rust_server.Permissions.Wildcards.{prefixes, nearest, check_node-nearest}
use basis_rust_server.Permissions.Depth.{apply_group-enough}

abbrev staff : Bytes
staff = 0x73 ∷ []

abbrev guests : Bytes
guests = 0x67 ∷ []

abbrev ada : Bytes
ada = 0x61 ∷ []

-- "x.y".
abbrev node : Bytes
node = 0x78 ∷ 0x2e ∷ 0x79 ∷ []

-- Two groups that inherit from each other: one grants "x.y" and the other, with blanks, denies it.
abbrev store : PermissionStore
store = record {
  users =
      (ada, record { uuid = ada; nodes = (0x78 ∷ 0x2e ∷ 0x2a ∷ []) ∷ []; groups = staff ∷ [] })
      ∷ [];
  groups =
      (staff, record { name = staff; nodes = node ∷ []; parents = guests ∷ [] })
      ∷ (
        guests,
        record {
          name = guests;
          nodes = (0x2d ∷ 0x20 ∷ node ++ (0x20 ∷ [])) ∷ [];
          parents = staff ∷ [];
        },
      )
      ∷ [];
}

-- The denial of the inherited group stands.
denied : has ada node store ≡ false
unfolding has lookup text_discrete ℕ_discrete member add insert
denied = refl

-- The wildcard of the user grants the other nodes below "x".
granted : has ada (0x78 ∷ 0x2e ∷ 0x7a ∷ []) store ≡ true
unfolding has lookup text_discrete ℕ_discrete member add insert
granted = refl

nobody : has staff node store ≡ false
unfolding has lookup text_discrete ℕ_discrete member add insert
nobody = refl

effective_decisions_lem_example :
    let groups =
      reached_groups store
        (record { uuid = ada; nodes = (0x78 ∷ 0x2e ∷ 0x2a ∷ []) ∷ []; groups = staff ∷ [] }) in
    lookup node (effective_decisions ada store)
    ≡ settled
        (says_any false node store groups || says false node ((0x78 ∷ 0x2e ∷ 0x2a ∷ []) ∷ []))
        (says_any true node store groups || says true node ((0x78 ∷ 0x2e ∷ 0x2a ∷ []) ∷ []))
        none
unfolding lookup text_discrete ℕ_discrete
effective_decisions_lem_example =
    effective_decisions_lem ada node
      (record { uuid = ada; nodes = (0x78 ∷ 0x2e ∷ 0x2a ∷ []) ∷ []; groups = staff ∷ [] }) store
      refl

apply_group-enough_example : apply_group 3 store staff ([], []) ≡ apply_group 9 store staff ([], [])
apply_group-enough_example = apply_group-enough 3 9 store staff ([], []) (omega arith) (omega arith)

check_node-nearest_example :
    let d = effective_decisions ada store in
    let asked = trim (0x20 ∷ node) in
    check_node d (0x20 ∷ node) ≡ (
      if is_empty asked
      then false
      else or_default
          (nearest d (prefixes asked) (or_default false (lookup all_nodes d)))
          (lookup asked d))
check_node-nearest_example = check_node-nearest (effective_decisions ada store) (0x20 ∷ node)
