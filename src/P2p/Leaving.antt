-- ===== src/P2p/Leaving.antt =====
-- A peer that leaves takes its sessions with it.
use basis_rust_server.Common.{
  ℕ, ◌≡◌, ◌≢◌, ◌∙◌, refl, subst, Bool, true, false, List, [], ◌∷◌, Option, none, some, ◌==◌, ◌||◌,
  if◌then◌else◌, ite, arith, Bool-cases, Option-cases, inl, inr,
}
use basis_rust_server.Common.Maps.{
  Map, lookup, remove, member, nat_key, text_key, text_discrete, lookup-remove, lookup-remove_self,
}
use basis_rust_server.Common.Words.{Bytes}
use basis_rust_server.P2p.{P2pSession, P2pBroker, remove_session}
use basis_rust_server.P2p.Steps.{drop_token, drop_tokens, remove_peer}
use basis_rust_server.P2p.Tracked.{
  tracks, Covered, IsTracked, remove_session-Covered, sessions-remove_session,
  tracks-remove_session, no_set-remove_session,
}

sessions-drop_token :
    (peer : ℕ) (token u : Bytes) (b : P2pBroker)
    → lookup u (drop_token peer token (lookup token b.sessions) b).0.sessions
      ≡ ite (text_discrete token u) none (lookup u b.sessions)
unfolding drop_token
sessions-drop_token peer token u b = elim (Option-cases (lookup token b.sessions)) [
  | inl e ↦ rw (drop_token, e) (ground arith)
  | inr (s, e) ↦ rw (drop_token, e) (sessions-remove_session token u b)
]

drop_token-Covered :
    (excused : ℕ → Bool) (peer : ℕ) (token : Bytes) (known : Option P2pSession) (b : P2pBroker)
    → Covered excused b.sessions b.peer_sessions
    → let after = (drop_token peer token known b).0 in
      Covered excused after.sessions after.peer_sessions
unfolding drop_token
drop_token-Covered excused peer token none b h = h
drop_token-Covered excused peer token (some s) b h = remove_session-Covered excused token b h

drop_tokens_lem :
    (excused : ℕ → Bool) (peer : ℕ) (tokens : List Bytes) (b : P2pBroker)
    → Covered excused b.sessions b.peer_sessions
    → let after = (drop_tokens peer tokens b).0 in
      Covered excused after.sessions after.peer_sessions
      × ((u : Bytes)
          → lookup u after.sessions ≡ (if member u tokens then none else lookup u b.sessions))
unfolding drop_tokens member
drop_tokens_lem excused peer [] b h = (h, λ u. refl)
drop_tokens_lem excused peer (token ∷ tokens) b h =
    let after = (drop_token peer token (lookup token b.sessions) b).0 in
    let (covered, rest) =
      drop_tokens_lem excused peer tokens after
        (drop_token-Covered excused peer token (lookup token b.sessions) b h) in
    (covered, λ u. ground (arith, rest u, sessions-drop_token peer token u b))

abbrev is_of : ℕ → P2pSession → Bool
is_of peer s = s.initiator_peer_id == peer || s.target_peer_id == peer

-- The sessions of a peer are in its set.
in_set :
    (peer : ℕ) (token : Bytes) (s : P2pSession) (b : P2pBroker)
    → IsTracked b
    → lookup token b.sessions ≡ some s
    → is_of peer s ≡ true
    → tracks peer token b.peer_sessions ≡ true
in_set peer token s b h k e = elim (Bool-cases (s.initiator_peer_id == peer)) [
  | inl first ↦
      let same : s.initiator_peer_id ≡ peer = ground arith in
      subst (λ q. tracks q token b.peer_sessions ≡ true) same (h token s k).0
  | inr other ↦
      let same : s.target_peer_id ≡ peer = ground arith in
      subst (λ q. tracks q token b.peer_sessions ≡ true) same (h token s k).1
]

-- Without the set of the peer, the others still cover the sessions.
excused-Covered :
    (peer : ℕ) (b : P2pBroker)
    → IsTracked b
    → Covered (λ q. q == peer) b.sessions (remove peer b.peer_sessions)
excused-Covered peer b h token s k = ground (
  arith,
  h token s k,
  lookup-remove peer s.initiator_peer_id b.peer_sessions,
  lookup-remove peer s.target_peer_id b.peer_sessions,
)

-- A set stays as it is for the tokens that are not dropped, and no set comes back.
tracks-drop_tokens :
    (q peer : ℕ) (u : Bytes) (tokens : List Bytes) (b : P2pBroker)
    → member u tokens ≡ false
    → tracks q u (drop_tokens peer tokens b).0.peer_sessions ≡ tracks q u b.peer_sessions
unfolding drop_tokens drop_token member
tracks-drop_tokens q peer u [] b h = refl
tracks-drop_tokens q peer u (token ∷ tokens) b h =
    let other : token ≢ u = ground arith in
    let rest : member u tokens ≡ false = ground arith in
    elim (Option-cases (lookup token b.sessions)) [
      | inl e ↦ rw (drop_token, e) (tracks-drop_tokens q peer u tokens b rest)
      | inr (s, e) ↦
          rw (drop_token, e)
            (tracks-drop_tokens q peer u tokens (remove_session token b) rest
              ∙ tracks-remove_session q token u b other)
    ]

no_set-drop_tokens :
    (q peer : ℕ) (tokens : List Bytes) (b : P2pBroker)
    → lookup q b.peer_sessions ≡ none
    → lookup q (drop_tokens peer tokens b).0.peer_sessions ≡ none
unfolding drop_tokens drop_token
no_set-drop_tokens q peer [] b h = h
no_set-drop_tokens q peer (token ∷ tokens) b h = elim (Option-cases (lookup token b.sessions)) [
  | inl e ↦ rw (drop_token, e) (no_set-drop_tokens q peer tokens b h)
  | inr (s, e) ↦
      rw (drop_token, e)
        (no_set-drop_tokens q peer tokens (remove_session token b)
          (no_set-remove_session q token b h))
]

-- `remove_peer` drops exactly the sessions whose tokens are in the set of the peer, one of two other
-- peers included, if its token was left there. After it no session has the peer, the peer has no set,
-- the sets of the others hold what they held of the tokens that were not in the set of the peer, and
-- every session that is left is in the sets of both of its peers, as every one is before.
pub remove_peer_lem :
    (peer : ℕ) (b : P2pBroker)
    → IsTracked b
    → let after = (remove_peer peer b).0 in
      IsTracked after
      × ((u : Bytes)
          → lookup u after.sessions
            ≡ (if tracks peer u b.peer_sessions then none else lookup u b.sessions))
      × ((u : Bytes) (s : P2pSession)
          → lookup u after.sessions ≡ some s
          → (s.initiator_peer_id == peer || s.target_peer_id == peer) ≡ false)
      × (lookup peer after.peer_sessions ≡ none)
      × ((q : ℕ) (u : Bytes)
          → (q == peer) ≡ false
          → tracks peer u b.peer_sessions ≡ false
          → tracks q u after.peer_sessions ≡ tracks q u b.peer_sessions)
unfolding remove_peer member
remove_peer_lem peer b h = elim (Option-cases (lookup peer b.peer_sessions)) [
  | inl e ↦
      let same : (u : Bytes)
          → lookup u b.sessions
            ≡ (if tracks peer u b.peer_sessions then none else lookup u b.sessions) =
        λ u. ground (arith, e) in
      rw (remove_peer, e) (h, λ u. refl, foreign b.sessions same, e, λ q u ne k. refl)
  | inr (tokens, e) ↦
      let b0 = record b { peer_sessions = remove peer b.peer_sessions } in
      let after = (drop_tokens peer tokens b0).0 in
      let (covered, rest) =
        drop_tokens_lem (λ q. q == peer) peer tokens b0 (excused-Covered peer b h) in
      let exact : (u : Bytes)
          → lookup u after.sessions
            ≡ (if tracks peer u b.peer_sessions then none else lookup u b.sessions) =
        λ u. ground (arith, rest u, e) in
      let others = foreign after.sessions exact in
      rw (remove_peer, e)
        (
          λ token s k. ground (arith, covered token s k, others token s k),
          rest,
          others,
          no_set-drop_tokens peer peer tokens b0 (lookup-remove_self peer b.peer_sessions),
          λ q u ne k.
              tracks-drop_tokens q peer u tokens b0 k
              ∙ ground (arith, ne, lookup-remove peer q b.peer_sessions),
        )
]
  where
    foreign :
        (after : Map Bytes P2pSession)
        → ((u : Bytes)
            → lookup u after
              ≡ (if tracks peer u b.peer_sessions then none else lookup u b.sessions))
        → (token : Bytes) (s : P2pSession) → lookup token after ≡ some s
        → is_of peer s ≡ false
    foreign after exact token s k = elim (Bool-cases (tracks peer token b.peer_sessions)) [
      | inl gone ↦ absurd (ground (arith, exact token, gone, k))
      | inr kept ↦
          let old : lookup token b.sessions ≡ some s = ground (arith, exact token, kept, k) in
          elim (Bool-cases (is_of peer s)) [
            | inl own ↦ absurd (ground (arith, in_set peer token s b h old own, kept))
            | inr theirs ↦ theirs
          ]
    ]
