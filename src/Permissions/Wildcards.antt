-- ===== src/Permissions/Wildcards.antt =====
-- Which rule `check_node` goes by: the node's own, or that of the longest prefix with a wildcard.
use basis_rust_server.Common.{
  ℕ, zero, suc, ◌≤◌, ◌<◌, ◌≡◌, refl, ap, Bool, false, List, [], ◌∷◌, ◌++◌, length, Option, none,
  some, ◌==◌, if◌then◌else◌, arith, Option-cases, Bool-cases, inl, inr, subst,
}
use basis_rust_server.Common.Maps.{lookup, text_key}
use basis_rust_server.Common.Words.{Bytes}
use basis_rust_server.Transport.Peer.{or_default}
use basis_rust_server.Permissions.{Decisions, wildcard, all_nodes, check_wildcards, check_node}
use basis_rust_server.Permissions.Text.{trim, is_empty, before_last_dot}

abbrev longer : ℕ → List Bytes → List Bytes
longer b [] = []
longer b (p ∷ ps) = (b ∷ p) ∷ longer b ps

-- What stands before the full stops of a text, from the first full stop to the last.
abbrev pub prefixes : Bytes → List Bytes
prefixes [] = []
prefixes (b ∷ bs) = let rest = longer b (prefixes bs) in if b == 46 then [] ∷ rest else rest

-- The verdict of the last of the prefixes whose wildcard has one, or else `value`.
abbrev pub nearest : Decisions → List Bytes → Bool → Bool
nearest decisions [] value = value
nearest decisions (p ∷ ps) value =
    nearest decisions ps (or_default value (lookup (wildcard p) decisions))

longer-append :
    (b : ℕ) (p : Bytes) (ps : List Bytes)
    → longer b (ps ++ (p ∷ [])) ≡ longer b ps ++ ((b ∷ p) ∷ [])
longer-append b p [] = refl
longer-append b p (q ∷ ps) = ap (λ (t : List Bytes). (b ∷ q) ∷ t) (longer-append b p ps)

nearest-append :
    (d : Decisions) (p : Bytes) (ps : List Bytes) (value : Bool)
    → nearest d (ps ++ (p ∷ [])) value ≡ or_default (nearest d ps value) (lookup (wildcard p) d)
nearest-append d p [] value = refl
nearest-append d p (q ∷ ps) value = nearest-append d p ps (or_default value (lookup (wildcard q) d))

-- What is known of the text before the last full stop.
Cut : Bytes → Option Bytes → Type 0
Cut text none = prefixes text ≡ []
Cut text (some p) = (prefixes text ≡ prefixes p ++ (p ∷ [])) × (length p < length text)

Cut-step :
    (b : ℕ) (bs : Bytes) (before : Option Bytes)
    → Cut bs before
    → Cut
        (b ∷ bs)
        (elim before [ some prefix ↦ some (b ∷ prefix) | none ↦ if b == 46 then some [] else none ])
unfolding Cut
Cut-step b bs none h = elim (Bool-cases (b == 46)) [
  | inl e ↦ rw (e, h) (rw e, omega arith)
  | inr e ↦ rw (e, h) (rw e)
]
Cut-step b bs (some p) (e, k) = elim (Bool-cases (b == 46)) [
  | inl dot ↦ (
    rw (dot, e) (ap (λ (t : List Bytes). [] ∷ t) (longer-append b p (prefixes p))),
    omega (arith, k),
  )
  | inr dot ↦ (rw (dot, e) (longer-append b p (prefixes p)), omega (arith, k))
]

before_last_dot-Cut : (text : Bytes) → Cut text (before_last_dot text)
unfolding before_last_dot Cut
before_last_dot-Cut [] = refl
before_last_dot-Cut (b ∷ bs) = Cut-step b bs (before_last_dot bs) (before_last_dot-Cut bs)

check_wildcards-nearest :
    (fuel : ℕ) (d : Decisions) (text : Bytes)
    → length text ≤ fuel
    → check_wildcards fuel d text
      ≡ nearest d (prefixes text) (or_default false (lookup all_nodes d))
unfolding check_wildcards Cut
check_wildcards-nearest zero d [] h = refl
check_wildcards-nearest zero d (b ∷ bs) h = absurd (omega (arith, h))
check_wildcards-nearest (suc fuel) d text h = elim (Option-cases (before_last_dot text)) [
  | inl e ↦
      let cut : Cut text none = subst (Cut text) e (before_last_dot-Cut text) in
      rw (e, check_wildcards, cut)
  | inr (p, e) ↦
      let cut : Cut text (some p) = subst (Cut text) e (before_last_dot-Cut text) in
      let (all, shorter) = cut in
      rw
        (
          e,
          check_wildcards,
          all,
          nearest-append d p (prefixes p) (or_default false (lookup all_nodes d)),
        )
        (ap (λ b. or_default b (lookup (wildcard p) d))
          (check_wildcards-nearest fuel d p (omega (arith, shorter, h))))
]

-- After blanks are cut off, a node that is left empty is refused. Else the verdict on the node itself
-- counts; else that of the wildcard of the longest text before one of its full stops that has one;
-- else that of all nodes; and else it is refused.
pub check_node-nearest :
    (d : Decisions) (raw : Bytes)
    → let node = trim raw in
      check_node d raw ≡ (
        if is_empty node
        then false
        else or_default
            (nearest d (prefixes node) (or_default false (lookup all_nodes d)))
            (lookup node d))
unfolding check_node
check_node-nearest d raw = elim (Option-cases (lookup (trim raw) d)) [
  | inl e ↦ rw (e, check_wildcards-nearest (length (trim raw)) d (trim raw) (omega arith))
  | inr (allow, e) ↦ rw e
]
