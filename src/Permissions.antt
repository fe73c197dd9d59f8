-- ===== src/Permissions.antt =====
-- What a user may do: BasisRustServer/crates/basis-server-permissions/src/lib.rs, without the files.
-- A set is a list in the order in which it iterates.
pub mod Text
pub mod Decisions
pub mod Groups
pub mod Depth
pub mod Wildcards
use basis_rust_server.Common.{
  ℕ, zero, suc, ◌+◌, Bool, true, false, List, [], ◌∷◌, ◌++◌, length, Option, none, some,
  if◌then◌else◌,
}
use basis_rust_server.Common.Maps.{Map, lookup, insert, member, add, text_key}
use basis_rust_server.Common.Words.{Bytes}
use basis_rust_server.Transport.Peer.{or_default}
use basis_rust_server.Permissions.Text.{trim, strip_minus, is_empty, before_last_dot}

pub record PermissionUser : Type 0 where
  pub uuid : Bytes
  pub nodes : List Bytes
  pub groups : List Bytes

pub record PermissionGroup : Type 0 where
  pub name : Bytes
  pub nodes : List Bytes
  pub parents : List Bytes

pub record PermissionStore : Type 0 where
  pub users : Map Bytes PermissionUser
  pub groups : Map Bytes PermissionGroup

abbrev pub Decisions : Type 0
Decisions = Map Bytes Bool

rule_of : Bytes → Option (Bytes × Bool)
unfolding is_empty strip_minus trim
rule_of raw =
    let (node, allow) = strip_minus raw in
    if is_empty raw then none else if is_empty node then none else some (node, allow)

-- The node and the verdict of a line, if it has any.
unfoldable pub parse_rule : Bytes → Option (Bytes × Bool)
unfolding rule_of trim
parse_rule raw = rule_of (trim raw)

abbrev is_denied : Option Bool → Bool
is_denied none = false
is_denied (some allow) = if allow then false else true

apply_rule : Option (Bytes × Bool) → Decisions → Decisions
apply_rule none decisions = decisions
apply_rule (some (node, allow)) decisions =
    if is_denied (lookup node decisions) then decisions else insert node allow decisions

unfoldable pub apply_raw_nodes : List Bytes → Decisions → Decisions
unfolding apply_rule parse_rule
apply_raw_nodes [] decisions = decisions
apply_raw_nodes (raw ∷ raws) decisions =
    apply_raw_nodes raws (apply_rule (parse_rule raw) decisions)

-- The groups that were visited, and the decisions so far.
abbrev pub Walk : Type 0
Walk = List Bytes × Decisions

abbrev pub for_each : (Bytes → Walk → Walk) → List Bytes → Walk → Walk
for_each step [] walk = walk
for_each step (name ∷ names) walk = for_each step names (step name walk)

visit_group : (Bytes → Walk → Walk) → Option PermissionGroup → Walk → Walk
unfolding apply_raw_nodes
visit_group inner none walk = walk
visit_group inner (some group) walk =
    let (visited, decisions) = for_each inner group.parents walk in
    (visited, apply_raw_nodes group.nodes decisions)

-- One level of the recursion; `inner` is the next one.
unfoldable pub apply_level : PermissionStore → (Bytes → Walk → Walk) → Bytes → Walk → Walk
unfolding visit_group
apply_level store inner name (visited, decisions) =
    let next = visit_group inner (lookup name store.groups) (add name visited, decisions) in
    if member name visited then (visited, decisions) else next

-- `fuel` is the number of levels.
unfoldable pub apply_group : ℕ → PermissionStore → Bytes → Walk → Walk
unfolding apply_level
apply_group zero store name walk = walk
apply_group (suc fuel) store name walk = apply_level store (apply_group fuel store) name walk

unfoldable pub user_decisions : PermissionStore → Option PermissionUser → Decisions
unfolding apply_group apply_raw_nodes
user_decisions store none = []
user_decisions store (some user) =
    let (visited, decisions) =
      for_each (apply_group (suc (length store.groups)) store) user.groups ([], []) in
    apply_raw_nodes user.nodes decisions

unfoldable pub effective_decisions : Bytes → PermissionStore → Decisions
unfolding user_decisions
effective_decisions uuid store = user_decisions store (lookup uuid store.users)

-- "*".
abbrev pub all_nodes : Bytes
all_nodes = 42 ∷ []

-- ".*".
abbrev pub wildcard : Bytes → Bytes
wildcard prefix = prefix ++ (46 ∷ 42 ∷ [])

-- A prefix is shorter than what it is taken from, so the length is enough fuel.
unfoldable pub check_wildcards : ℕ → Decisions → Bytes → Bool
unfolding before_last_dot
check_wildcards zero decisions current = or_default false (lookup all_nodes decisions)
check_wildcards (suc fuel) decisions current = elim (before_last_dot current) [
  | none ↦ or_default false (lookup all_nodes decisions)
  | some prefix ↦
      let rest = check_wildcards fuel decisions prefix in
      elim (lookup (wildcard prefix) decisions) [ none ↦ rest | some allow ↦ allow ]
]

unfoldable pub check_node : Decisions → Bytes → Bool
unfolding trim is_empty check_wildcards
check_node decisions raw =
    let node = trim raw in
    if is_empty node then false else elim (lookup node decisions) [
      | some allow ↦ allow
      | none ↦ check_wildcards (length node) decisions node
    ]

unfoldable pub has : Bytes → Bytes → PermissionStore → Bool
unfolding check_node effective_decisions
has uuid node store = check_node (effective_decisions uuid store) node
