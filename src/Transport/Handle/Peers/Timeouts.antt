-- ===== src/Transport/Handle/Peers/Timeouts.antt =====
-- What a round of `timeout_loop` leaves of the peers.
use basis_rust_server.Common.{
  ℕ, ◌≡◌, refl, ◌∙◌, List, [], ◌∷◌, none, if◌then◌else◌, arith, Option-cases, inl, inr,
}
use basis_rust_server.Common.Maps.{
  lookup, member, nat_key, lookup-remove, HasKeysOnce, holds_of, keys_where, member-keys_where,
}
use basis_rust_server.Transport.Handle.{TransportHandle, timeout, enqueue_event, retire_peer_id}
use basis_rust_server.Transport.Handle.Peers.{
  drop_peer, take_out, expire, is_timed_out, timeout_round,
}
use basis_rust_server.Transport.Handle.Peers.Linked.{IsLinked, expire-IsLinked}

lookup-expire :
    (ids : List ℕ) (id : ℕ) (handle : TransportHandle)
    → lookup id (expire ids handle).peers ≡ (if member id ids then none else lookup id handle.peers)
unfolding expire drop_peer enqueue_event take_out retire_peer_id member
lookup-expire [] id handle = refl
lookup-expire (j ∷ ids) id handle = elim (Option-cases (lookup j handle.peers)) [
  | inl e ↦ rw (expire, e) (lookup-expire ids id handle ∙ ground arith)
  | inr (p, e) ↦
      rw (expire, e)
        (lookup-expire ids id (drop_peer j p timeout handle)
          ∙ ground (arith, lookup-remove j id handle.peers))
]

-- A peer is gone after a round exactly if nothing came from it for more than thirty seconds, and the
-- tables still name each other.
pub timeout_round_lem :
    (now : ℕ) (handle : TransportHandle)
    → HasKeysOnce handle.peers
    → IsLinked handle
    → IsLinked (timeout_round now handle)
      × ((id : ℕ)
          → lookup id (timeout_round now handle).peers ≡ (
              if holds_of (is_timed_out now) (lookup id handle.peers)
              then none
              else lookup id handle.peers))
unfolding timeout_round
timeout_round_lem now handle once h = (
  expire-IsLinked (keys_where (is_timed_out now) handle.peers) handle h,
  λ id.
      lookup-expire (keys_where (is_timed_out now) handle.peers) id handle
      ∙ rw (member-keys_where (is_timed_out now) id handle.peers once),
)
