-- ===== src/Resources/Ownership.antt =====
-- `OwnershipState`, which says who owns an object:
-- BasisRustServer/crates/basis-server-resources/src/lib.rs.
use basis_rust_server.Common.{
  ℕ, ◌≡◌, refl, ap, ◌∙◌, Bool, true, false, List, [], ◌∷◌, map, none, some, ◌==◌, if◌then◌else◌,
  ite, arith, Bool-cases, inl, inr,
}
use basis_rust_server.Common.Maps.{
  Map, lookup, insert, remove, member, text_key, text_discrete, lookup-insert_self,
  lookup-remove_self, HasKeysOnce, holds_of, keys_where, member-keys_where, remove_keys,
  lookup-remove_keys,
}
use basis_rust_server.Common.Words.{Bytes}
pub use basis_rust_server.Protocol.Messages.Objects.{OwnershipTransferMessage}

pub record OwnershipState : Type 0 where
  pub by_object : Map Bytes ℕ

unfoldable pub request_new_or_existing : Bytes → ℕ → OwnershipState → ℕ × OwnershipState
request_new_or_existing object requester state = elim (lookup object state.by_object) [
  | none ↦ (requester, record { by_object = insert object requester state.by_object })
  | some owner ↦ (owner, state)
]

unfoldable pub switch_ownership : Bytes → ℕ → OwnershipState → ℕ × OwnershipState
switch_ownership object new_owner state =
    (new_owner, record { by_object = insert object new_owner state.by_object })

unfoldable pub remove_if_owner : Bytes → ℕ → OwnershipState → Bool × OwnershipState
remove_if_owner object owner state =
    if holds_of (λ o. o == owner) (lookup object state.by_object)
    then (true, record { by_object = remove object state.by_object })
    else (false, state)

unfoldable pub transfer : ℕ → Bytes → OwnershipTransferMessage
transfer player_id object = record { player_id = player_id; ownership_id = object }

unfoldable pub remove_player : ℕ → OwnershipState → List OwnershipTransferMessage × OwnershipState
unfolding remove_keys transfer keys_where
remove_player player_id state =
    let keys = keys_where (λ owner. owner == player_id) state.by_object in
    (map (transfer player_id) keys, record { by_object = remove_keys keys state.by_object })

member-announced :
    (player_id : ℕ) (object : Bytes) (keys : List Bytes)
    → member object (map OwnershipTransferMessage.ownership_id (map (transfer player_id) keys))
      ≡ member object keys
unfolding member transfer
member-announced player_id object [] = refl
member-announced player_id object (key ∷ keys) =
    ap (λ rest. ite (text_discrete key object) true rest) (member-announced player_id object keys)

unfoldable pub all : OwnershipState → List OwnershipTransferMessage
unfolding transfer
all state = map (λ (entry : Bytes × ℕ). transfer entry.1 entry.0) state.by_object

unfoldable pub reset : OwnershipState → OwnershipState
reset state = record { by_object = [] }

-- `remove_player` takes exactly the objects of the player, announces exactly these, and changes no
-- other owner.
pub remove_player_lem :
    (player_id : ℕ) (object : Bytes) (state : OwnershipState)
    → HasKeysOnce state.by_object
    → let owned = holds_of (λ owner. owner == player_id) (lookup object state.by_object) in
      let (messages, after) = remove_player player_id state in
      (lookup object after.by_object ≡ (if owned then none else lookup object state.by_object))
      × (member object (map OwnershipTransferMessage.ownership_id messages) ≡ owned)
unfolding remove_player transfer
remove_player_lem player_id object state once =
    let keys = keys_where (λ owner. owner == player_id) state.by_object in
    let owned = member-keys_where (λ owner. owner == player_id) object state.by_object once in
    (
      lookup-remove_keys keys object state.by_object ∙ rw owned,
      member-announced player_id object keys ∙ owned,
    )

request-free :
    (object : Bytes) (requester : ℕ) (state : OwnershipState)
    → lookup object state.by_object ≡ none
    → request_new_or_existing object requester state
      ≡ (requester, record { by_object = insert object requester state.by_object })
unfolding request_new_or_existing
request-free object requester state e = rw (request_new_or_existing, e)

request-owned :
    (object : Bytes) (requester owner : ℕ) (state : OwnershipState)
    → lookup object state.by_object ≡ some owner
    → request_new_or_existing object requester state ≡ (owner, state)
unfolding request_new_or_existing
request-owned object requester owner state e = rw (request_new_or_existing, e)

remove_if_owner-owned :
    (object : Bytes) (claimant owner : ℕ) (state : OwnershipState)
    → lookup object state.by_object ≡ some owner
    → (remove_if_owner object claimant state).0 ≡ (owner == claimant)
unfolding remove_if_owner
remove_if_owner-owned object claimant owner state e = elim (Bool-cases (owner == claimant)) [
  | inl own ↦ rw (remove_if_owner, e, own)
  | inr other ↦ rw (remove_if_owner, e, other)
]

removed :
    (object : Bytes) (owner : ℕ) (state : OwnershipState)
    → lookup object state.by_object ≡ some owner
    → lookup object (remove_if_owner object owner state).1.by_object ≡ none
unfolding remove_if_owner
removed object owner state e =
    let own : (owner == owner) ≡ true = ground arith in
    rw (remove_if_owner, e, own) (lookup-remove_self object state.by_object)

-- Who asks for a free object owns it; who asks for an owned one learns its owner, who keeps it; and
-- only that owner can give it up.
request_lem :
    (object : Bytes) (first second : ℕ) (state : OwnershipState)
    → lookup object state.by_object ≡ none
    → let (owner, s1) = request_new_or_existing object first state in
      let (again, s2) = request_new_or_existing object second s1 in
      (owner ≡ first)
      × (again ≡ first)
      × ((remove_if_owner object second s2).0 ≡ (first == second))
      × (lookup object (remove_if_owner object first s2).1.by_object ≡ none)
request_lem object first second state e =
    let s1 : OwnershipState = record { by_object = insert object first state.by_object } in
    let here : lookup object s1.by_object ≡ some first =
      lookup-insert_self object first state.by_object in
    rw (request-free object first state e, request-owned object second first s1 here)
      (refl, refl, remove_if_owner-owned object second first s1 here, removed object first s1 here)
