-- ===== src/P2p/Tracked.antt =====
-- Every session is in the sets of both of its peers, and leaves with either of them.
use basis_rust_server.Common.{
  ℕ, ◌≡◌, ap, ◌∙◌, ◌≢◌, Bool, true, false, List, [], none, some, ◌==◌, ◌||◌, ite, arith, Bool-cases,
  Option-cases, inl, inr, ℕ_discrete,
}
use basis_rust_server.Common.Maps.{
  Map, lookup, insert, remove, member, add, discard, nat_key, text_key, text_discrete,
  lookup-insert, lookup-remove, member-add, member-discard, insert-cases,
}
use basis_rust_server.Common.Words.{Bytes}
use basis_rust_server.Transport.Peer.{or_default}
use basis_rust_server.P2p.{
  P2pSession, P2pBroker, BasisP2PSignalMessage, tokens_of, track_peer_session, untrack_peer_session,
  remove_session, put_session, new_session, handle_request, is_empty_token,
}

-- Is the token in the set of the peer?
abbrev pub tracks : ℕ → Bytes → Map ℕ (List Bytes) → Bool
tracks peer token peer_sessions = member token (or_default [] (lookup peer peer_sessions))

pub tracks-track :
    (p q : ℕ) (t u : Bytes) (b : P2pBroker)
    → tracks q u (track_peer_session p t b).peer_sessions ≡ (
        tracks q u b.peer_sessions
        || (ite (ℕ_discrete p q) (ite (text_discrete t u) true false) false))
unfolding track_peer_session
tracks-track p q t u b = ground (
  arith,
  lookup-insert p q (add t (tokens_of p b)) b.peer_sessions,
  member-add t u (tokens_of p b),
)

tracks-untrack :
    (p q : ℕ) (t u : Bytes) (b : P2pBroker)
    → t ≢ u
    → tracks q u (untrack_peer_session p t b).peer_sessions ≡ tracks q u b.peer_sessions
unfolding untrack_peer_session
tracks-untrack p q t u b ne = elim (Option-cases (lookup p b.peer_sessions)) [
  | inl e ↦ rw (untrack_peer_session, e)
  | inr (ts, e) ↦
      rw (untrack_peer_session, e)
        (ground
          (arith, lookup-insert p q (discard t ts) b.peer_sessions, member-discard t u ts, e, ne))
]

-- Every session is in the sets of its peers, but for the peers that are excused.
abbrev pub Covered : (ℕ → Bool) → Map Bytes P2pSession → Map ℕ (List Bytes) → Type 0
Covered excused sessions peer_sessions =
    (token : Bytes) (s : P2pSession)
    → lookup token sessions ≡ some s
    → ((excused s.initiator_peer_id || tracks s.initiator_peer_id token peer_sessions) ≡ true)
      × ((excused s.target_peer_id || tracks s.target_peer_id token peer_sessions) ≡ true)

abbrev pub IsTracked : P2pBroker → Type 0
IsTracked b = Covered (λ _. false) b.sessions b.peer_sessions

-- A session that keeps its peers.
pub put_session-Covered :
    (excused : ℕ → Bool) (token : Bytes) (s s' : P2pSession) (b : P2pBroker)
    → lookup token b.sessions ≡ some s
    → s'.initiator_peer_id ≡ s.initiator_peer_id
    → s'.target_peer_id ≡ s.target_peer_id
    → Covered excused b.sessions b.peer_sessions
    → Covered excused (insert token s' b.sessions) b.peer_sessions
put_session-Covered excused token s s' b e i t h u r k =
    elim (insert-cases token u s' r b.sessions k) [
      | inl (same, is) ↦ ground (arith, h token s e)
      | inr (other, old) ↦ h u r old
    ]

sessions-untrack :
    (p : ℕ) (t : Bytes) (b : P2pBroker) → (untrack_peer_session p t b).sessions ≡ b.sessions
unfolding untrack_peer_session
sessions-untrack p t b = elim (Option-cases (lookup p b.peer_sessions)) [
  | inl e ↦ rw (untrack_peer_session, e)
  | inr (ts, e) ↦ rw (untrack_peer_session, e)
]

pub sessions-remove_session :
    (token u : Bytes) (b : P2pBroker)
    → lookup u (remove_session token b).sessions
      ≡ ite (text_discrete token u) none (lookup u b.sessions)
unfolding remove_session
sessions-remove_session token u b = elim (Option-cases (lookup token b.sessions)) [
  | inl e ↦ rw (remove_session, e) (ground arith)
  | inr (s, e) ↦
      let b1 = record b { sessions = remove token b.sessions } in
      let b2 = untrack_peer_session s.initiator_peer_id token b1 in
      rw (remove_session, e)
        (ap (lookup u) (
            sessions-untrack s.target_peer_id token b2
            ∙ sessions-untrack s.initiator_peer_id token b1)
          ∙ lookup-remove token u b.sessions)
]

pub tracks-remove_session :
    (q : ℕ) (token u : Bytes) (b : P2pBroker)
    → token ≢ u
    → tracks q u (remove_session token b).peer_sessions ≡ tracks q u b.peer_sessions
unfolding remove_session
tracks-remove_session q token u b ne = elim (Option-cases (lookup token b.sessions)) [
  | inl e ↦ rw (remove_session, e)
  | inr (s, e) ↦
      let b1 = record b { sessions = remove token b.sessions } in
      let b2 = untrack_peer_session s.initiator_peer_id token b1 in
      rw (remove_session, e)
        (tracks-untrack s.target_peer_id q token u b2 ne
          ∙ tracks-untrack s.initiator_peer_id q token u b1 ne)
]

no_set-untrack :
    (p q : ℕ) (t : Bytes) (b : P2pBroker)
    → lookup q b.peer_sessions ≡ none
    → lookup q (untrack_peer_session p t b).peer_sessions ≡ none
unfolding untrack_peer_session
no_set-untrack p q t b h = elim (Option-cases (lookup p b.peer_sessions)) [
  | inl e ↦ rw (untrack_peer_session, e) h
  | inr (ts, e) ↦
      rw (untrack_peer_session, e)
        (ground (arith, lookup-insert p q (discard t ts) b.peer_sessions))
]

pub no_set-remove_session :
    (q : ℕ) (token : Bytes) (b : P2pBroker)
    → lookup q b.peer_sessions ≡ none
    → lookup q (remove_session token b).peer_sessions ≡ none
unfolding remove_session
no_set-remove_session q token b h = elim (Option-cases (lookup token b.sessions)) [
  | inl e ↦ rw (remove_session, e) h
  | inr (s, e) ↦
      let b1 = record b { sessions = remove token b.sessions } in
      rw (remove_session, e)
        (no_set-untrack s.target_peer_id q token (untrack_peer_session s.initiator_peer_id token b1)
          (no_set-untrack s.initiator_peer_id q token b1 h))
]

pub remove_session-Covered :
    (excused : ℕ → Bool) (token : Bytes) (b : P2pBroker)
    → Covered excused b.sessions b.peer_sessions
    → Covered excused (remove_session token b).sessions (remove_session token b).peer_sessions
remove_session-Covered excused token b h u r k =
    let split = sessions-remove_session token u b in
    elim (text_discrete token u) [
      | yes same ↦ absurd (ground (arith, split, k, same))
      | no other ↦
          let old : lookup u b.sessions ≡ some r = ground (arith, split, k, other) in
          rw
            (
              tracks-remove_session r.initiator_peer_id token u b other,
              tracks-remove_session r.target_peer_id token u b other,
            )
            (h u r old)
    ]

opened-IsTracked :
    (b : P2pBroker) (p q : ℕ) (token : Bytes)
    → IsTracked b
    → IsTracked (
        track_peer_session q token
          (track_peer_session p token (put_session token (new_session p q) b)))
unfolding track_peer_session
opened-IsTracked b p q token h u s e =
    let b1 = put_session token (new_session p q) b in
    let b2 = track_peer_session p token b1 in
    elim (insert-cases token u (new_session p q) s b.sessions e) [
      | inl (same, is) ↦ ground (
        arith,
        ap (P2pSession.initiator_peer_id) is,
        ap (P2pSession.target_peer_id) is,
        tracks-track q s.initiator_peer_id token u b2,
        tracks-track p s.initiator_peer_id token u b1,
        tracks-track q s.target_peer_id token u b2,
        tracks-track p s.target_peer_id token u b1,
      )
      | inr (other, old) ↦ ground (
        arith,
        h u s old,
        tracks-track q s.initiator_peer_id token u b2,
        tracks-track p s.initiator_peer_id token u b1,
        tracks-track q s.target_peer_id token u b2,
        tracks-track p s.target_peer_id token u b1,
      )
    ]

pub handle_request-IsTracked :
    (is_authenticated : ℕ → Bool) (sender : ℕ) (m : BasisP2PSignalMessage) (b : P2pBroker)
    → IsTracked b
    → IsTracked (handle_request is_authenticated sender m b).0
unfolding handle_request
handle_request-IsTracked is_authenticated sender m b h =
    let token = m.session_token in
    let other = m.other_player_id in
    elim (Bool-cases (is_empty_token token || other == sender)) [
      | inl unwanted ↦ rw (handle_request, unwanted) h
      | inr wanted ↦ elim (Bool-cases (is_authenticated other)) [
        | inr stranger ↦ rw (handle_request, wanted, stranger) h
        | inl known ↦ rw (handle_request, wanted, known) (opened-IsTracked b sender other token h)
      ]
    ]
