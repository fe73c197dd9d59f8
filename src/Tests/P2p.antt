-- ===== src/Tests/P2p.antt =====
-- The broker at concrete inputs.
use basis_rust_server.Common.{
  ℕ, ◌≡◌, refl, true, false, [], ◌∷◌, some, ◌==◌, ◌||◌, arith, none, if◌then◌else◌,
}
use basis_rust_server.Common.Maps.{lookup, member, nat_key, text_key}
use basis_rust_server.Common.Words.{Bytes}
use basis_rust_server.P2p.{
  ready_for_punch, punched, P2pSession, P2pBroker, BasisP2PSignalMessage, send_nat_introduce,
  is_offloaded, handle_link_up, handle_link_lost, new_session, pair_of,
}
use basis_rust_server.P2p.Steps.{
  is_before_ready, handle_nat_introduction_request, remove_peer, handle_signal,
}
use basis_rust_server.P2p.Tracked.{IsTracked, tracks}
use basis_rust_server.P2p.Signals.{handle_signal-IsTracked}
use basis_rust_server.P2p.Leaving.{remove_peer_lem}
use basis_rust_server.P2p.Pairs.{lost_link}
use basis_rust_server.P2p.Introductions.{introduced}
use basis_rust_server.Tests.Handle.{home, far}

abbrev token : Bytes
token = 0x74 ∷ []

abbrev session : P2pSession
session = record (new_session 3 5) { state = ready_for_punch }

abbrev broker : P2pBroker
broker = record {
  sessions = (token, session) ∷ [];
  peer_sessions = (3, token ∷ []) ∷ (5, token ∷ []) ∷ [];
  offloaded_pairs = [];
}

broker-IsTracked : IsTracked broker
unfolding lookup member
broker-IsTracked t s e = ground arith

-- A request for the session of the token with peer 5.
abbrev signal : BasisP2PSignalMessage
signal = record { other_player_id = 5; session_token = token }

handle_signal-IsTracked_example :
    IsTracked (handle_signal (λ peer. true) 7 (0 ∷ 5 ∷ 0 ∷ 2 ∷ 0 ∷ 0x74 ∷ []) broker).0
handle_signal-IsTracked_example =
    handle_signal-IsTracked (λ peer. true) 7 (0 ∷ 5 ∷ 0 ∷ 2 ∷ 0 ∷ 0x74 ∷ []) broker broker-IsTracked

remove_peer_lem_example :
    let after = (remove_peer 5 broker).0 in
    IsTracked after
    × ((u : Bytes)
        → lookup u after.sessions
          ≡ (if tracks 5 u broker.peer_sessions then none else lookup u broker.sessions))
    × ((u : Bytes) (s : P2pSession)
        → lookup u after.sessions ≡ some s
        → (s.initiator_peer_id == 5 || s.target_peer_id == 5) ≡ false)
    × (lookup 5 after.peer_sessions ≡ none)
    × ((q : ℕ) (u : Bytes)
        → (q == 5) ≡ false
        → tracks 5 u broker.peer_sessions ≡ false
        → tracks q u after.peer_sessions ≡ tracks q u broker.peer_sessions)
remove_peer_lem_example = remove_peer_lem 5 broker broker-IsTracked

abbrev ann : ℕ
ann = 3

abbrev bob : ℕ
bob = 5

lost_link_example :
    let lost = (handle_link_lost 3 signal broker).0 in
    (is_offloaded 3 5 lost ≡ false)
    × ((reporter : ℕ) → is_offloaded 3 5 (handle_link_up reporter signal lost) ≡ false)
    × (is_offloaded 3 5 (handle_link_up 5 signal (handle_link_up 3 signal lost)) ≡ true)
    × (is_offloaded 3 5 (handle_link_up 3 signal (handle_link_up 5 signal lost)) ≡ true)
    × ((pair : ℕ)
        → (pair == pair_of session) ≡ false
        → (member pair lost.offloaded_pairs ≡ member pair broker.offloaded_pairs)
          × (member pair (handle_link_up 5 signal (handle_link_up 3 signal lost)).offloaded_pairs
              ≡ member pair broker.offloaded_pairs)
          × (member pair (handle_link_up 3 signal (handle_link_up 5 signal lost)).offloaded_pairs
              ≡ member pair broker.offloaded_pairs))
unfolding lookup
lost_link_example = lost_link 3 signal session broker (ground arith) refl

introduced_example :
    let first = handle_nat_introduction_request home far token broker in
    let second = handle_nat_introduction_request far home token first.0 in
    (first.1 ≡ [])
    × (second.1 ≡ send_nat_introduce home far far home token ∷ [])
    × (s' : P2pSession) × (lookup token second.0.sessions ≡ some s')
    × (s'.state ≡ punched)
unfolding lookup is_before_ready
introduced_example =
    introduced home far far home 0x74 [] session broker (ground arith) refl refl refl
