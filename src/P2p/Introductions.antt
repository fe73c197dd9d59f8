-- ===== src/P2p/Introductions.antt =====
-- How two peers are introduced, and how signals are written.
use basis_rust_server.Common.{ℕ, ◌≡◌, refl, ◌∙◌, false, [], ◌∷◌, none, some}
use basis_rust_server.Common.Maps.{lookup, insert, text_key, lookup-insert_self}
use basis_rust_server.Common.Words.{Bytes}
use basis_rust_server.Transport.Address.{SocketAddr}
use basis_rust_server.P2p.{P2pSession, P2pBroker, punched, send_nat_introduce}
use basis_rust_server.P2p.Steps.{
  is_before_ready, introduce_session, with_second, handle_nat_introduction_request,
}

handle_nat-known :
    (local_addr remote_addr : SocketAddr) (b : ℕ) (bs : Bytes) (s : P2pSession) (broker : P2pBroker)
    → lookup (b ∷ bs) broker.sessions ≡ some s
    → is_before_ready s.state ≡ false
    → handle_nat_introduction_request local_addr remote_addr (b ∷ bs) broker
      ≡ introduce_session (b ∷ bs) local_addr remote_addr s broker
unfolding handle_nat_introduction_request
handle_nat-known local_addr remote_addr b bs s broker e ready =
    rw (handle_nat_introduction_request, e, ready)

-- The first request for the token of an accepted session is kept, and the second one introduces the
-- two peers: each of the four endpoints is the one that its side named or came from.
pub introduced :
    (l1 r1 l2 r2 : SocketAddr) (b : ℕ) (bs : Bytes) (s : P2pSession) (broker : P2pBroker)
    → lookup (b ∷ bs) broker.sessions ≡ some s
    → is_before_ready s.state ≡ false
    → s.endpoint_a_internal ≡ none
    → s.endpoint_b_internal ≡ none
    → let first = handle_nat_introduction_request l1 r1 (b ∷ bs) broker in
      let second = handle_nat_introduction_request l2 r2 (b ∷ bs) first.0 in
      (first.1 ≡ [])
      × (second.1 ≡ send_nat_introduce l1 r1 l2 r2 (b ∷ bs) ∷ [])
      × (s' : P2pSession) × (lookup (b ∷ bs) second.0.sessions ≡ some s')
      × (s'.state ≡ punched)
unfolding introduce_session with_second
introduced l1 r1 l2 r2 b bs s broker e ready no_a no_b =
    let token = b ∷ bs in
    let s1 = record s { endpoint_a_internal = some l1; endpoint_a_external = some r1 } in
    let b1 = record broker { sessions = insert token s1 broker.sessions } in
    let first : handle_nat_introduction_request l1 r1 token broker ≡ (b1, []) =
      handle_nat-known l1 r1 b bs s broker e ready ∙ rw (introduce_session, no_a) in
    let s2 = record s1 {
      endpoint_b_internal = some l2;
      endpoint_b_external = some r2;
      state = punched;
    } in
    let b2 = record b1 { sessions = insert token s2 b1.sessions } in
    let second : handle_nat_introduction_request l2 r2 token b1
        ≡ (b2, send_nat_introduce l1 r1 l2 r2 token ∷ []) =
      handle_nat-known l2 r2 b bs s1 b1 (lookup-insert_self token s1 broker.sessions) ready
      ∙ rw (introduce_session, with_second, no_b) in
    rw (first, second) (refl, refl, s2, lookup-insert_self token s2 b1.sessions, refl)
