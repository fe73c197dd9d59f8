-- ===== src/Permissions/Groups.antt =====
-- What a user may do is settled by the lines of the groups that were reached and its own lines.
use basis_rust_server.Common.{
  ℕ, zero, suc, ◌≡◌, refl, sym, ap, ◌∙◌, Bool, true, false, ◌||◌, List, [], ◌∷◌, ◌++◌, length,
  Option, none, some, arith, Option-cases, Bool-cases, inl, inr, append-nil, append_assoc,
}
use basis_rust_server.Common.Maps.{lookup, member, add, text_key}
use basis_rust_server.Common.Words.{Bytes}
use basis_rust_server.Permissions.{
  PermissionUser, PermissionGroup, PermissionStore, Decisions, Walk, for_each, visit_group,
  apply_level, apply_group, user_decisions, effective_decisions,
}
use basis_rust_server.Permissions.Decisions.{says, settled, settled-settled, lookup-apply_raw_nodes}

abbrev says_group : Bool → Bytes → Option PermissionGroup → Bool
says_group allow node none = false
says_group allow node (some group) = says allow node group.nodes

-- Does a line of one of the groups grant (or deny) the node?
abbrev pub says_any : Bool → Bytes → PermissionStore → List Bytes → Bool
says_any allow node store [] = false
says_any allow node store (name ∷ names) =
    says_group allow node (lookup name store.groups) || says_any allow node store names

says_any-append :
    (allow : Bool) (node : Bytes) (store : PermissionStore) (xs ys : List Bytes)
    → says_any allow node store (xs ++ ys)
      ≡ (says_any allow node store xs || says_any allow node store ys)
says_any-append allow node store [] ys = refl
says_any-append allow node store (x ∷ xs) ys =
    ap (λ b. says_group allow node (lookup x store.groups) || b)
      (says_any-append allow node store xs ys)
    ∙ ground arith

-- From one walk to another the groups `new` were reached, and their lines settle the node.
record Settles (node : Bytes) (store : PermissionStore) (before after : Walk) : Type 0 where
  new : List Bytes
  reached : after.0 ≡ before.0 ++ new
  verdict :
      lookup node after.1
      ≡ settled
          (says_any false node store new)
          (says_any true node store new)
          (lookup node before.1)

Settles-refl : (node : Bytes) (store : PermissionStore) (walk : Walk) → Settles node store walk walk
Settles-refl node store walk = record {
  new = [];
  reached = sym (append-nil walk.0);
  verdict = ground arith;
}

Settles-trans :
    (node : Bytes) (store : PermissionStore) (a b c : Walk)
    → Settles node store a b
    → Settles node store b c
    → Settles node store a c
Settles-trans node store a b c p q = record {
  new = p.new ++ q.new;
  reached =
      q.reached ∙ ap (λ (t : List Bytes). t ++ q.new) p.reached ∙ append_assoc a.0 p.new q.new;
  verdict =
      q.verdict
      ∙ ap (settled (says_any false node store q.new) (says_any true node store q.new)) p.verdict
      ∙ settled-settled (says_any false node store p.new) (says_any true node store p.new)
          (says_any false node store q.new) (says_any true node store q.new) (lookup node a.1)
      ∙ rw (
        says_any-append false node store p.new q.new,
        says_any-append true node store p.new q.new,
      );
}

for_each-Settles :
    (node : Bytes) (store : PermissionStore) (inner : Bytes → Walk → Walk)
    → ((name : Bytes) (walk : Walk) → Settles node store walk (inner name walk))
    → (names : List Bytes) (walk : Walk) → Settles node store walk (for_each inner names walk)
for_each-Settles node store inner h [] walk = Settles-refl node store walk
for_each-Settles node store inner h (name ∷ names) walk =
    Settles-trans node store walk (inner name walk) (for_each inner names (inner name walk))
      (h name walk) (for_each-Settles node store inner h names (inner name walk))

add-absent :
    (name : Bytes) (visited : List Bytes)
    → member name visited ≡ false
    → add name visited ≡ visited ++ (name ∷ [])
unfolding member add
add-absent name [] h = refl
add-absent name (v ∷ visited) h = ground (arith, add-absent name visited)

settled-swap :
    (a f b g : Bool) (x : Option Bool) → settled (a || f) (b || g) x ≡ settled (f || a) (g || b) x
settled-swap a f b g x = ground arith

visit_group-Settles :
    (node name : Bytes) (store : PermissionStore) (inner : Bytes → Walk → Walk)
    (visited : List Bytes) (decisions : Decisions)
    → ((name : Bytes) (walk : Walk) → Settles node store walk (inner name walk))
    → member name visited ≡ false
    → Settles node store
        (visited, decisions)
        (visit_group inner (lookup name store.groups) (add name visited, decisions))
unfolding visit_group
visit_group-Settles node name store inner visited decisions h fresh =
    elim (Option-cases (lookup name store.groups)) [
      | inl e ↦ rw e (record {
        new = name ∷ [];
        reached = add-absent name visited fresh;
        verdict = rw e (ground arith);
      })
      | inr (group, e) ↦
          let start : Walk = (add name visited, decisions) in
          let p = for_each-Settles node store inner h group.parents start in
          let parents = (for_each inner group.parents start).1 in
          rw e (record {
            new = name ∷ p.new;
            reached =
                p.reached
                ∙ ap (λ (t : List Bytes). t ++ p.new) (add-absent name visited fresh)
                ∙ append_assoc visited (name ∷ []) p.new;
            verdict =
                lookup-apply_raw_nodes node group.nodes parents
                ∙ ap (settled (says false node group.nodes) (says true node group.nodes)) p.verdict
                ∙ settled-settled (says_any false node store p.new) (says_any true node store p.new)
                    (says false node group.nodes) (says true node group.nodes)
                    (lookup node decisions)
                ∙ settled-swap (says_any false node store p.new) (says false node group.nodes)
                    (says_any true node store p.new) (says true node group.nodes)
                    (lookup node decisions)
                ∙ rw e refl;
          })
    ]

apply_group-Settles :
    (node : Bytes) (store : PermissionStore) (fuel : ℕ) (name : Bytes) (walk : Walk)
    → Settles node store walk (apply_group fuel store name walk)
unfolding apply_group apply_level
apply_group-Settles node store zero name walk = Settles-refl node store walk
apply_group-Settles node store (suc fuel) name (visited, decisions) =
    let inner : (n : Bytes) (w : Walk) → Settles node store w (apply_group fuel store n w) =
      λ n w. apply_group-Settles node store fuel n w in
    elim (Bool-cases (member name visited)) [
      | inl known ↦ rw known (Settles-refl node store (visited, decisions))
      | inr fresh ↦ rw fresh (
          visit_group-Settles node name store (apply_group fuel store) visited decisions inner
            fresh)
    ]

-- The groups that a user's decisions are made from.
abbrev pub reached_groups : PermissionStore → PermissionUser → List Bytes
reached_groups store user =
    (for_each (apply_group (suc (length store.groups)) store) user.groups ([], [])).0

-- A node is denied to a user if a line of a group that was reached or of the user denies it, whatever
-- else is said of it; else it is granted if such a line grants it; and else nothing is decided.
pub effective_decisions_lem :
    (uuid node : Bytes) (user : PermissionUser) (store : PermissionStore)
    → lookup uuid store.users ≡ some user
    → let groups = reached_groups store user in
      lookup node (effective_decisions uuid store)
      ≡ settled
          (says_any false node store groups || says false node user.nodes)
          (says_any true node store groups || says true node user.nodes)
          none
unfolding effective_decisions user_decisions lookup
effective_decisions_lem uuid node user store e =
    let step = apply_group (suc (length store.groups)) store in
    let end = for_each step user.groups ([], []) in
    let p =
      for_each-Settles node store step (apply_group-Settles node store (suc (length store.groups)))
        user.groups ([], []) in
    rw (effective_decisions, e)
      (lookup-apply_raw_nodes node user.nodes end.1
        ∙ ap (settled (says false node user.nodes) (says true node user.nodes)) p.verdict
        ∙ settled-settled (says_any false node store p.new) (says_any true node store p.new)
            (says false node user.nodes) (says true node user.nodes) none
        ∙ rw p.reached)
