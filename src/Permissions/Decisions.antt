-- ===== src/Permissions/Decisions.antt =====
-- In what order the rules of a set come does not matter: a denial stands against every grant.
use basis_rust_server.Common.{
  ◌≡◌, ap, ◌∙◌, Bool, true, false, not, ◌||◌, List, [], ◌∷◌, Option, none, some, if◌then◌else◌, ite,
  arith,
}
use basis_rust_server.Common.Maps.{lookup, text_key, text_discrete, lookup-insert}
use basis_rust_server.Common.Words.{Bytes}
use basis_rust_server.Permissions.{Decisions, parse_rule, apply_rule, apply_raw_nodes, is_denied}

abbrev says_rule : Bool → Bytes → Option (Bytes × Bool) → Bool
says_rule allow node none = false
says_rule allow node (some (other, verdict)) =
    ite (text_discrete other node) (if verdict then allow else not allow) false

-- Does a line of the set grant (or deny) the node?
abbrev pub says : Bool → Bytes → List Bytes → Bool
says allow node [] = false
says allow node (raw ∷ raws) = says_rule allow node (parse_rule raw) || says allow node raws

-- Denied before or by any line, or else granted by any line, or else as before.
abbrev pub settled : Bool → Bool → Option Bool → Option Bool
settled denies grants before =
    if denies || is_denied before then some false else if grants then some true else before

lookup-apply_rule :
    (node : Bytes) (rule : Option (Bytes × Bool)) (d : Decisions)
    → lookup node (apply_rule rule d)
      ≡ settled (says_rule false node rule) (says_rule true node rule) (lookup node d)
unfolding apply_rule
lookup-apply_rule node none d = ground arith
lookup-apply_rule node (some (other, true)) d = ground (arith, lookup-insert other node true d)
lookup-apply_rule node (some (other, false)) d = ground (arith, lookup-insert other node false d)

pub settled-settled :
    (d1 g1 d2 g2 : Bool) (before : Option Bool)
    → settled d2 g2 (settled d1 g1 before) ≡ settled (d1 || d2) (g1 || g2) before
settled-settled d1 g1 d2 g2 before = ground arith

-- What a set of lines leaves of a node.
pub lookup-apply_raw_nodes :
    (node : Bytes) (raws : List Bytes) (d : Decisions)
    → lookup node (apply_raw_nodes raws d)
      ≡ settled (says false node raws) (says true node raws) (lookup node d)
unfolding apply_raw_nodes
lookup-apply_raw_nodes node [] d = ground arith
lookup-apply_raw_nodes node (raw ∷ raws) d =
    let rule = parse_rule raw in
    lookup-apply_raw_nodes node raws (apply_rule rule d)
    ∙ ap (settled (says false node raws) (says true node raws)) (lookup-apply_rule node rule d)
    ∙ settled-settled (says_rule false node rule) (says_rule true node rule) (says false node raws)
        (says true node raws) (lookup node d)
