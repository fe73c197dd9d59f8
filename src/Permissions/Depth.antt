-- ===== src/Permissions/Depth.antt =====
-- The recursion of `apply_group` ends: a level more than there are groups left is enough.
use basis_rust_server.Common.{
  ℕ, zero, suc, ◌+◌, ◌≤◌, ◌<◌, ◌≡◌, refl, ap, ◌∙◌, false, List, [], ◌∷◌, length, Option, none, some,
  if◌then◌else◌, arith, Option-cases, Bool-cases, inl, inr,
}
use basis_rust_server.Common.Maps.{Map, lookup, member, add, text_key, member-add}
use basis_rust_server.Common.Words.{Bytes}
use basis_rust_server.Permissions.{
  PermissionGroup, PermissionStore, Walk, for_each, visit_group, apply_level, apply_group,
  apply_raw_nodes,
}

-- The groups that were not visited yet.
unvisited : List Bytes → Map Bytes PermissionGroup → ℕ
unvisited visited [] = 0
unvisited visited ((name, group) ∷ groups) =
    (if member name visited then 0 else 1) + unvisited visited groups

unvisited-le :
    (visited : List Bytes) (groups : Map Bytes PermissionGroup)
    → unvisited visited groups ≤ length groups
unfolding unvisited
unvisited-le visited [] = omega arith
unvisited-le visited ((name, group) ∷ groups) = ground (arith, unvisited-le visited groups)

unvisited-add-le :
    (name : Bytes) (visited : List Bytes) (groups : Map Bytes PermissionGroup)
    → unvisited (add name visited) groups ≤ unvisited visited groups
unfolding unvisited
unvisited-add-le name visited [] = omega arith
unvisited-add-le name visited ((other, group) ∷ groups) =
    ground (arith, unvisited-add-le name visited groups, member-add name other visited)

unvisited-add-lt :
    (name : Bytes) (visited : List Bytes) (group : PermissionGroup)
    (groups : Map Bytes PermissionGroup)
    → member name visited ≡ false
    → lookup name groups ≡ some group
    → unvisited (add name visited) groups < unvisited visited groups
unfolding unvisited lookup
unvisited-add-lt name visited group [] fresh e = cc
unvisited-add-lt name visited group ((other, g) ∷ groups) fresh e = ground (
  arith,
  unvisited-add-lt name visited group groups fresh,
  unvisited-add-le name visited groups,
  member-add name other visited,
)

module _ (store : PermissionStore) where
  left : Walk → ℕ
  left walk = unvisited walk.0 store.groups

  for_each-left-le :
      (inner : Bytes → Walk → Walk)
      → ((name : Bytes) (walk : Walk) → left (inner name walk) ≤ left walk)
      → (names : List Bytes) (walk : Walk) → left (for_each inner names walk) ≤ left walk
  for_each-left-le inner h [] walk = omega arith
  for_each-left-le inner h (name ∷ names) walk =
      omega (arith, h name walk, for_each-left-le inner h names (inner name walk))

  visit_group-left-le :
      (inner : Bytes → Walk → Walk) (group : Option PermissionGroup) (walk : Walk)
      → ((name : Bytes) (walk : Walk) → left (inner name walk) ≤ left walk)
      → left (visit_group inner group walk) ≤ left walk
  unfolding visit_group left
  visit_group-left-le inner none walk h = omega arith
  visit_group-left-le inner (some group) walk h = for_each-left-le inner h group.parents walk

  apply_group-left-le :
      (fuel : ℕ) (name : Bytes) (walk : Walk) → left (apply_group fuel store name walk) ≤ left walk
  unfolding apply_group apply_level left
  apply_group-left-le zero name walk = omega arith
  apply_group-left-le (suc fuel) name (visited, decisions) =
      let inner : (n : Bytes) (w : Walk) → left (apply_group fuel store n w) ≤ left w =
        λ n w. apply_group-left-le fuel n w in
      let start : Walk = (add name visited, decisions) in
      let below =
        visit_group-left-le (apply_group fuel store) (lookup name store.groups) start inner in
      elim (Bool-cases (member name visited)) [
        | inl known ↦ rw known (omega arith)
        | inr fresh ↦ rw fresh (omega (arith, below, unvisited-add-le name visited store.groups))
      ]

  for_each-same :
      (inner inner' : Bytes → Walk → Walk) (n : ℕ)
      → ((name : Bytes) (walk : Walk) → left walk < n → inner name walk ≡ inner' name walk)
      → ((name : Bytes) (walk : Walk) → left (inner' name walk) ≤ left walk)
      → (names : List Bytes) (walk : Walk) → left walk < n
      → for_each inner names walk ≡ for_each inner' names walk
  for_each-same inner inner' n same h [] walk k = refl
  for_each-same inner inner' n same h (name ∷ names) walk k =
      ap (for_each inner names) (same name walk k)
      ∙ for_each-same inner inner' n same h names (inner' name walk) (omega (arith, h name walk))

  visit_group-same :
      (inner inner' : Bytes → Walk → Walk) (n : ℕ) (group : PermissionGroup) (walk : Walk)
      → ((name : Bytes) (walk : Walk) → left walk < n → inner name walk ≡ inner' name walk)
      → ((name : Bytes) (walk : Walk) → left (inner' name walk) ≤ left walk)
      → left walk < n
      → visit_group inner (some group) walk ≡ visit_group inner' (some group) walk
  unfolding visit_group
  visit_group-same inner inner' n group walk same h k =
      ap (λ (w : Walk). (w.0, apply_raw_nodes group.nodes w.1))
        (for_each-same inner inner' n same h group.parents walk k)

  -- With more levels than groups that were not visited, the number of levels does not matter.
  enough :
      (n m : ℕ) (name : Bytes) (walk : Walk)
      → left walk < n
      → left walk < m
      → apply_group n store name walk ≡ apply_group m store name walk
  unfolding apply_group apply_level left
  enough zero m name walk h k = absurd (omega arith)
  enough (suc n) zero name walk h k = absurd (omega arith)
  enough (suc n) (suc m) name (visited, decisions) h k =
      let same : (p : Bytes) (w : Walk)
          → left w < unvisited visited store.groups
          → apply_group n store p w ≡ apply_group m store p w =
        λ p w f. enough n m p w (omega (arith, f, h)) (omega (arith, f, k)) in
      elim (Bool-cases (member name visited)) [
        | inl known ↦ rw known
        | inr fresh ↦ elim (Option-cases (lookup name store.groups)) [
          | inl e ↦ rw (fresh, e, visit_group)
          | inr (group, e) ↦
              rw (fresh, e)
                (visit_group-same (apply_group n store) (apply_group m store)
                  (unvisited visited store.groups) group (add name visited, decisions) same
                  (apply_group-left-le m)
                  (unvisited-add-lt name visited group store.groups fresh e))
        ]
      ]

-- Whatever the groups inherit from each other, circles included, every number of levels above the
-- number of groups gives the same walk: the recursion of `apply_group` ends by itself.
pub apply_group-enough :
    (n m : ℕ) (store : PermissionStore) (name : Bytes) (walk : Walk)
    → length store.groups < n
    → length store.groups < m
    → apply_group n store name walk ≡ apply_group m store name walk
unfolding left
apply_group-enough n m store name walk h k =
    let few = unvisited-le walk.0 store.groups in
    enough store n m name walk (omega (arith, few)) (omega (arith, few))
