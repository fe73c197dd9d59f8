-- ===== src/Transport/Handle/Peers/Linked.antt =====
-- The tables `peers` and `by_addr` name each other, whatever comes and goes.
use basis_rust_server.Common.{
  ℕ, ◌<◌, ◌≡◌, ◌≢◌, ap, ◌∙◌, sym, subst, List, [], ◌∷◌, length, none, some, not, arith,
  Option-cases, Bool-cases, inl, inr, ℕ_discrete,
}
use basis_rust_server.Common.Maps.{
  Map, lookup, insert, remove, lookup-insert, lookup-insert_self, lookup-insert_ne, lookup-remove,
  lookup-remove_self, insert-cases, remove-cases, nat_key,
}
use basis_rust_server.Common.Words.{Bytes}
use basis_rust_server.Transport.Address.{SocketAddr, socket_addr_key}
use basis_rust_server.Transport.Peer.{PeerState, disconnect_matches}
use basis_rust_server.Transport.Handle.{
  TransportHandle, ConnectionRequest, timeout, retire_peer_id, send_raw_to, send_connect_accept,
  enqueue_event, send_simple_property,
}
use basis_rust_server.Transport.Handle.Ids.{allocate_peer_id-free}
use basis_rust_server.Transport.Handle.Peers.{
  new_peer, add_peer, accept, accept_as, take_out, disconnect, drop_peer, update_peer_at,
  remote_disconnect, expire, forget_request,
}

-- Every peer is found by its address, and every address leads to a peer that has it.
pub record Links (peers : Map ℕ PeerState) (by_addr : Map SocketAddr ℕ) : Type 0 where
  pub of_peer :
      (id : ℕ) (p : PeerState)
      → lookup id peers ≡ some p
      → (lookup p.addr by_addr ≡ some id) × (p.id ≡ id)
  pub of_addr :
      (addr : SocketAddr) (id : ℕ)
      → lookup addr by_addr ≡ some id
      → (p : PeerState) × (lookup id peers ≡ some p) × (p.addr ≡ addr)

abbrev pub IsLinked : TransportHandle → Type 0
IsLinked handle = Links handle.peers handle.by_addr

Links-insert :
    (peers : Map ℕ PeerState) (by_addr : Map SocketAddr ℕ) (p : PeerState)
    → lookup p.id peers ≡ none
    → lookup p.addr by_addr ≡ none
    → Links peers by_addr
    → Links (insert p.id p peers) (insert p.addr p.id by_addr)
Links-insert peers by_addr p new_id new_addr h = record {
  of_peer = λ id q e. ground (
    arith,
    lookup-insert p.id id p peers,
    lookup-insert p.addr q.addr p.id by_addr,
    h.of_peer id q,
  );
  of_addr = λ addr id e. elim (insert-cases p.addr addr p.id id by_addr e) [
    | inl (same_addr, same_id) ↦ (p, ground (arith, lookup-insert p.id id p peers), same_addr)
    | inr (other, old) ↦
        let (q, at, its) = h.of_addr addr id old in
        (q, ground (arith, lookup-insert p.id id p peers), its)
  ];
}

Links-remove :
    (peers : Map ℕ PeerState) (by_addr : Map SocketAddr ℕ) (id : ℕ) (p : PeerState)
    → lookup id peers ≡ some p
    → Links peers by_addr
    → Links (remove id peers) (remove p.addr by_addr)
Links-remove peers by_addr id p here h = record {
  of_peer = λ j q e. ground (
    arith,
    lookup-remove id j peers,
    lookup-remove p.addr q.addr by_addr,
    h.of_peer j q,
    h.of_peer id p here,
  );
  of_addr = λ addr j e.
      let (other, old) = remove-cases p.addr addr j by_addr e in
      let (q, at, its) = h.of_addr addr j old in (q, ground (arith, lookup-remove id j peers), its);
}

Links-update :
    (peers : Map ℕ PeerState) (by_addr : Map SocketAddr ℕ) (id : ℕ) (p q : PeerState)
    → lookup id peers ≡ some p
    → q.addr ≡ p.addr
    → q.id ≡ p.id
    → Links peers by_addr
    → Links (insert id q peers) by_addr
Links-update peers by_addr id p q here same_addr same_id h = record {
  of_peer = λ j r e. ground (arith, lookup-insert id j q peers, h.of_peer j r, h.of_peer id p here);
  of_addr = λ addr j e.
      let (r, at, its) = h.of_addr addr j e in
      elim (ℕ_discrete id j) [
        | yes same ↦ (q, ground (arith, lookup-insert id j q peers), ground arith)
        | no other ↦ (r, ground (arith, lookup-insert id j q peers), its)
      ];
}

-- A peer that is taken out and put back.
Links-put_back :
    (peers : Map ℕ PeerState) (by_addr : Map SocketAddr ℕ) (addr : SocketAddr) (id : ℕ)
    (p : PeerState)
    → lookup id peers ≡ some p
    → p.addr ≡ addr
    → Links peers by_addr
    → Links (insert id p (remove id peers)) (insert addr id (remove addr by_addr))
Links-put_back peers by_addr addr id p here its h =
    let same_id = (h.of_peer id p here).1 in
    let back : Links (insert p.id p (remove p.id peers))
        (insert p.addr p.id (remove p.addr by_addr)) =
      Links-insert (remove p.id peers) (remove p.addr by_addr) p (lookup-remove_self p.id peers)
        (lookup-remove_self p.addr by_addr)
        (Links-remove peers by_addr p.id p (subst (λ i. lookup i peers ≡ some p) (sym same_id) here)
          h) in
    subst (λ a. Links (insert id p (remove id peers)) (insert a id (remove a by_addr))) its
      (subst (λ i. Links (insert i p (remove i peers)) (insert p.addr i (remove p.addr by_addr)))
        same_id back)

-- A request from an address that no peer has is accepted under an id that no peer has, and the new
-- peer is found by its address. Every other id has the peer that it had, every other address leads
-- where it led, and the tables still name each other. There are fewer than 65536 peers, and the next
-- id of the counter fits 16 bits.
pub accept-IsLinked :
    (now : ℕ) (request : ConnectionRequest) (handle : TransportHandle)
    → length handle.peers < 65536
    → handle.next_peer_id < 65536
    → lookup request.remote_addr handle.by_addr ≡ none
    → IsLinked handle
    → (id : ℕ) × (handle' : TransportHandle) × (accept now request handle ≡ some (id, handle'))
      × (lookup id handle.peers ≡ none)
      × (lookup id handle'.peers ≡ some (new_peer now id request))
      × (lookup request.remote_addr handle'.by_addr ≡ some id)
      × ((j : ℕ) → id ≢ j → lookup j handle'.peers ≡ lookup j handle.peers)
      × ((addr : SocketAddr)
          → request.remote_addr ≢ addr
          → lookup addr handle'.by_addr ≡ lookup addr handle.by_addr)
      × IsLinked handle'
unfolding accept accept_as add_peer send_connect_accept send_raw_to new_peer
accept-IsLinked now request handle few small new_addr h =
    let (id, handle1, e, a) =
      allocate_peer_id-free (forget_request request.remote_addr handle) few small in
    let p = new_peer now id request in
    (
      id,
      send_connect_accept request.remote_addr request.connection_number request.connect_time id
          (add_peer now request id handle1),
      rw (e, accept_as),
      a.is_free,
      lookup-insert_self id p handle1.peers,
      lookup-insert_self request.remote_addr id handle1.by_addr,
      λ j ne. lookup-insert_ne id j p handle1.peers ne ∙ ap (lookup j) a.same_peers,
      λ addr ne.
          lookup-insert_ne request.remote_addr addr id handle1.by_addr ne
          ∙ ap (lookup addr) a.same_addrs,
      rw (a.same_peers, a.same_addrs)
          (Links-insert handle.peers handle.by_addr p a.is_free new_addr h),
    )

-- A peer that leaves takes its entries with it.
pub take_out-IsLinked :
    (id : ℕ) (p : PeerState) (handle : TransportHandle)
    → lookup id handle.peers ≡ some p
    → IsLinked handle
    → IsLinked (take_out id p handle)
unfolding take_out retire_peer_id
take_out-IsLinked id p handle here h = Links-remove handle.peers handle.by_addr id p here h

-- `disconnect` removes the peer and its address, and the tables still name each other.
disconnect-IsLinked :
    (id : ℕ) (reason : Bytes) (handle : TransportHandle)
    → IsLinked handle
    → IsLinked (disconnect id reason handle)
      × (lookup id (disconnect id reason handle).peers ≡ none)
unfolding disconnect send_raw_to take_out retire_peer_id
disconnect-IsLinked id reason handle h = elim (Option-cases (lookup id handle.peers)) [
  | inl e ↦ rw (disconnect, e) (h, e)
  | inr (p, e) ↦
      rw (disconnect, e) (take_out-IsLinked id p handle e h, lookup-remove_self id handle.peers)
]

pub update_peer_at-IsLinked :
    (change : PeerState → PeerState) (addr : SocketAddr) (handle : TransportHandle)
    → ((p : PeerState) → ((change p).addr ≡ p.addr) × ((change p).id ≡ p.id))
    → IsLinked handle
    → IsLinked (update_peer_at change addr handle)
unfolding update_peer_at
update_peer_at-IsLinked change addr handle keeps h =
    elim (Option-cases (lookup addr handle.by_addr)) [
      | inl e ↦ rw (update_peer_at, e) h
      | inr (id, e) ↦ elim (Option-cases (lookup id handle.peers)) [
        | inl k ↦ rw (update_peer_at, e, k) h
        | inr (p, k) ↦
            rw (update_peer_at, e, k)
              (Links-update handle.peers handle.by_addr id p (change p) k (keeps p).0 (keeps p).1 h)
      ]
    ]

-- What a peer asks to be disconnected by is answered by the removal of that peer, or by nothing.
pub remote_disconnect-IsLinked :
    (addr : SocketAddr) (bytes : Bytes) (connection_number : ℕ) (handle : TransportHandle)
    → IsLinked handle
    → IsLinked (remote_disconnect addr bytes connection_number handle)
unfolding remote_disconnect enqueue_event send_simple_property send_raw_to retire_peer_id
remote_disconnect-IsLinked addr bytes c handle h =
    elim (Option-cases (lookup addr handle.by_addr)) [
      | inl e ↦ rw (remote_disconnect, e) h
      | inr (id, e) ↦
          let (p, at, its) = h.of_addr addr id e in
          elim (Bool-cases (not (disconnect_matches p bytes c))) [
            | inl other ↦
                rw (remote_disconnect, e, at, other)
                  (Links-put_back handle.peers handle.by_addr addr id p at its h)
            | inr same ↦
                rw (remote_disconnect, e, at, same)
                  (subst (λ a. Links (remove id handle.peers) (remove a handle.by_addr)) its
                    (Links-remove handle.peers handle.by_addr id p at h))
          ]
    ]

pub expire-IsLinked :
    (ids : List ℕ) (handle : TransportHandle) → IsLinked handle → IsLinked (expire ids handle)
unfolding expire drop_peer enqueue_event
expire-IsLinked [] handle h = h
expire-IsLinked (id ∷ ids) handle h = elim (Option-cases (lookup id handle.peers)) [
  | inl e ↦ rw (expire, e) (expire-IsLinked ids handle h)
  | inr (p, e) ↦
      rw (expire, e)
        (expire-IsLinked ids (drop_peer id p timeout handle) (take_out-IsLinked id p handle e h))
]
