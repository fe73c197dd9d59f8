-- ===== src/Transport/Handle/Ids.antt =====
-- The ids of peers: `allocate_peer_id` and `recycle_peer_id` of
-- BasisRustServer/crates/basis-transport/src/lib.rs.
use basis_rust_server.Common.{
  ℕ, zero, suc, ◌+◌, ◌%◌, ◌^◌, ◌<◌, ◌≤◌, ◌≡◌, refl, true, List, [], ◌∷◌, ◌++◌, length, Option, none,
  some, not, if◌then◌else◌, arith, Bool-cases, Option-cases, inl, inr,
}
use basis_rust_server.Common.Maps.{
  Map, lookup, remove, member, discard, contains_key, nat_key, length-remove-lt, lookup-remove_ne,
}
use basis_rust_server.Transport.Peer.{PeerState}
use basis_rust_server.Transport.Handle.{TransportHandle}

-- The reusable ids are taken from the front until one of them is free.
unfoldable pub pop_reusable : Map ℕ PeerState → List ℕ → Option ℕ × List ℕ
pop_reusable peers [] = (none, [])
pop_reusable peers (id ∷ ids) =
    let rest = pop_reusable peers ids in if contains_key id peers then rest else (some id, ids)

-- The counter runs, modulo 2 ^ 16, until it meets a free id. It gives the id and its new state.
unfoldable pub count_up : ℕ → Map ℕ PeerState → ℕ → Option (ℕ × ℕ)
count_up zero peers next = none
count_up (suc fuel) peers next =
    let rest = count_up fuel peers ((next + 1) % 2 ^ 16) in
    if contains_key next peers then rest else some (next, (next + 1) % 2 ^ 16)

with_counter : List ℕ → TransportHandle → Option (ℕ × ℕ) → Option (ℕ × TransportHandle)
with_counter ids handle none = none
with_counter ids handle (some (id, next)) =
    some (id, record handle { reusable_peer_ids = ids; next_peer_id = next })

with_reusable : TransportHandle → Option ℕ × List ℕ → Option (ℕ × TransportHandle)
unfolding count_up with_counter
with_reusable handle (some id, ids) = some (id, record handle { reusable_peer_ids = ids })
with_reusable handle (none, ids) =
    with_counter ids handle (count_up (2 ^ 16) handle.peers handle.next_peer_id)

-- One round of the counter is enough fuel, as `allocate_peer_id-free` shows.
unfoldable pub allocate_peer_id : TransportHandle → Option (ℕ × TransportHandle)
unfolding pop_reusable with_reusable
allocate_peer_id handle = with_reusable handle (pop_reusable handle.peers handle.reusable_peer_ids)

unfoldable pub recycle_peer_id : ℕ → TransportHandle → TransportHandle
recycle_peer_id peer handle =
    if contains_key peer handle.peers
    then handle
    else if not (member peer handle.retired_peer_ids)
    then handle
    else record handle {
      retired_peer_ids = discard peer handle.retired_peer_ids;
      reusable_peer_ids =
          if member peer handle.reusable_peer_ids
          then handle.reusable_peer_ids
          else handle.reusable_peer_ids ++ (peer ∷ []);
    }

-- More live ids than entries of the table do not exist.
all_live :
    (n k : ℕ) (peers : Map ℕ PeerState)
    → n ≤ 65536
    → ((i : ℕ) → i < n → contains_key ((k + i) % 65536) peers ≡ true)
    → n ≤ length peers
all_live zero k peers h live = omega arith
all_live (suc n) k peers h live =
    let last = (k + n) % 65536 in
    let shorter = length-remove-lt last peers (live n (omega arith)) in
    omega (
      arith,
      shorter,
      all_live n k (remove last peers) (omega arith) (λ i hi.
          rw (lookup-remove_ne last ((k + i) % 65536) peers (λ e. omega arith))
            (live i (omega arith))),
    )

-- A counter that finds no free id met only live ones.
count_up-none :
    (n k : ℕ) (peers : Map ℕ PeerState)
    → k < 65536
    → count_up n peers k ≡ none
    → (i : ℕ) → i < n
    → contains_key ((k + i) % 65536) peers ≡ true
unfolding count_up
count_up-none zero k peers hk e i hi = absurd (omega arith)
count_up-none (suc n) k peers hk e zero hi = elim (Bool-cases (contains_key k peers)) [
  | inl live ↦ let here : (k + 0) % 65536 ≡ k = omega arith in rw here live
  | inr free ↦ cc
]
count_up-none (suc n) k peers hk e (suc i) hi = elim (Bool-cases (contains_key k peers)) [
  | inl live ↦
      let there : (k + suc i) % 65536 ≡ ((k + 1) % 65536 + i) % 65536 = omega arith in
      let more : count_up n peers ((k + 1) % 65536) ≡ none = cc in
      rw there (count_up-none n ((k + 1) % 65536) peers (omega arith) more i (omega arith))
  | inr free ↦ cc
]

count_up-some :
    (n k id next : ℕ) (peers : Map ℕ PeerState)
    → count_up n peers k ≡ some (id, next)
    → lookup id peers ≡ none
unfolding count_up
count_up-some zero k id next peers e = cc
count_up-some (suc n) k id next peers e = elim (Option-cases (lookup k peers)) [
  | inl free ↦ cc
  | inr (p, live) ↦ count_up-some n ((k + 1) % 65536) id next peers cc
]

pop_reusable-some :
    (peers : Map ℕ PeerState) (ids rest : List ℕ) (id : ℕ)
    → pop_reusable peers ids ≡ (some id, rest)
    → lookup id peers ≡ none
unfolding pop_reusable
pop_reusable-some peers [] rest id e = cc
pop_reusable-some peers (j ∷ ids) rest id e = elim (Option-cases (lookup j peers)) [
  | inl free ↦ cc
  | inr (p, live) ↦ pop_reusable-some peers ids rest id cc
]

-- `id` is new, and only the ids to come have changed.
pub record Allocates (handle handle' : TransportHandle) (id : ℕ) : Type 0 where
  pub is_free : lookup id handle.peers ≡ none
  pub same_peers : handle'.peers ≡ handle.peers
  pub same_addrs : handle'.by_addr ≡ handle.by_addr

-- As long as fewer than 65536 peers are connected, an id is found, and no connected peer has it.
pub allocate_peer_id-free :
    (handle : TransportHandle)
    → length handle.peers < 65536
    → handle.next_peer_id < 65536
    → (id : ℕ) × (handle' : TransportHandle) × (allocate_peer_id handle ≡ some (id, handle'))
      × Allocates handle handle' id
unfolding allocate_peer_id with_reusable with_counter
allocate_peer_id-free handle h k =
    reusable (pop_reusable handle.peers handle.reusable_peer_ids) refl
  where
    counted :
        (ids : List ℕ) (r : Option (ℕ × ℕ))
        → count_up 65536 handle.peers handle.next_peer_id ≡ r
        → (id : ℕ) × (handle' : TransportHandle) × (with_counter ids handle r ≡ some (id, handle'))
          × Allocates handle handle' id
    counted ids none e = absurd (
        omega (
          arith,
          all_live 65536 handle.next_peer_id handle.peers (omega arith)
              (count_up-none 65536 handle.next_peer_id handle.peers k e),
        ))
    counted ids (some (id, next)) e = (
      id,
      record handle { reusable_peer_ids = ids; next_peer_id = next },
      refl,
      record {
        is_free = count_up-some 65536 handle.next_peer_id id next handle.peers e;
        same_peers = refl;
        same_addrs = refl;
      },
    )

    reusable :
        (r : Option ℕ × List ℕ)
        → pop_reusable handle.peers handle.reusable_peer_ids ≡ r
        → (id : ℕ) × (handle' : TransportHandle) × (with_reusable handle r ≡ some (id, handle'))
          × Allocates handle handle' id
    reusable (some id, ids) e = (
      id,
      record handle { reusable_peer_ids = ids },
      refl,
      record {
        is_free = pop_reusable-some handle.peers handle.reusable_peer_ids ids id e;
        same_peers = refl;
        same_addrs = refl;
      },
    )
    reusable (none, ids) e = counted ids (count_up 65536 handle.peers handle.next_peer_id) refl
