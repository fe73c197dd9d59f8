-- ===== src/P2p.antt =====
-- `P2pBroker`, which brings two peers together and keeps the pairs that talk directly:
-- BasisRustServer/crates/basis-server-core/src/p2p.rs. A handler gives the broker after it and what it
-- asks of the transport, in order; the transport only queues it, so the broker does not depend on it.
pub mod Steps
pub mod Tracked
pub mod Signals
pub mod Leaving
pub mod Pairs
pub mod Introductions
use basis_rust_server.Common.{
  ℕ, ◌*◌, ◌%◌, ◌^◌, Bool, true, false, List, [], ◌∷◌, Option, none, some, leb, ◌==◌, not, ◌&&◌,
  ◌||◌, if◌then◌else◌, bit_or,
}
use basis_rust_server.Common.Maps.{
  Map, lookup, insert, remove, member, add, discard, nat_key, text_key,
}
use basis_rust_server.Common.Words.{Bytes}
pub use basis_rust_server.Protocol.Messages.Admin.{BasisP2PSignalMessage}
use basis_rust_server.Transport.Address.{SocketAddr}
use basis_rust_server.Transport.Peer.{or_default}

pub data SessionState : Type 0 where
  awaiting ready_for_punch punched : SessionState

pub record P2pSession : Type 0 where
  pub initiator_peer_id : ℕ
  pub target_peer_id : ℕ
  pub state : SessionState
  pub endpoint_a_internal : Option SocketAddr
  pub endpoint_a_external : Option SocketAddr
  pub endpoint_b_internal : Option SocketAddr
  pub endpoint_b_external : Option SocketAddr
  pub initiator_link_up : Bool
  pub target_link_up : Bool

pub record P2pBroker : Type 0 where
  pub sessions : Map Bytes P2pSession
  pub peer_sessions : Map ℕ (List Bytes)
  pub offloaded_pairs : List ℕ

-- What a handler asks of the transport: `send_sub`, or `send_nat_introduce`.
pub data Effect : Type 0 where
  send_sub : ℕ → ℕ → Bytes → ℕ → Effect
  send_nat_introduce : SocketAddr → SocketAddr → SocketAddr → SocketAddr → Bytes → Effect

abbrev pub Outcome : Type 0
Outcome = P2pBroker × List Effect

abbrev pub sub_request : ℕ
sub_request = 0

abbrev pub sub_accept : ℕ
sub_accept = 1

abbrev pub sub_decline : ℕ
sub_decline = 2

abbrev pub sub_cancel : ℕ
sub_cancel = 3

abbrev pub sub_link_lost : ℕ
sub_link_lost = 4

abbrev pub sub_server_armed : ℕ
sub_server_armed = 5

abbrev pub sub_link_up : ℕ
sub_link_up = 6

-- `(lo << 32) | hi` on `u64`.
unfoldable pub pack_pair : ℕ → ℕ → ℕ
pack_pair a b =
    let lo = if leb a b then a else b in
    let hi = if leb a b then b else a in bit_or (lo * 2 ^ 32 % 2 ^ 64) hi

unfoldable pub is_offloaded : ℕ → ℕ → P2pBroker → Bool
unfolding pack_pair
is_offloaded a b broker = if a == b then false else member (pack_pair a b) broker.offloaded_pairs

abbrev pub tokens_of : ℕ → P2pBroker → List Bytes
tokens_of peer broker = or_default [] (lookup peer broker.peer_sessions)

unfoldable pub track_peer_session : ℕ → Bytes → P2pBroker → P2pBroker
track_peer_session peer token broker = record broker {
  peer_sessions = insert peer (add token (tokens_of peer broker)) broker.peer_sessions;
}

unfoldable pub untrack_peer_session : ℕ → Bytes → P2pBroker → P2pBroker
untrack_peer_session peer token broker = elim (lookup peer broker.peer_sessions) [
  | none ↦ broker
  | some tokens ↦ record broker {
    peer_sessions = insert peer (discard token tokens) broker.peer_sessions;
  }
]

-- The pair of a session, which the code writes out where it is needed.
abbrev pub pair_of : P2pSession → ℕ
pair_of session = pack_pair session.initiator_peer_id session.target_peer_id

unfoldable pub remove_session : Bytes → P2pBroker → P2pBroker
unfolding untrack_peer_session
remove_session token broker = elim (lookup token broker.sessions) [
  | none ↦ broker
  | some session ↦
      let b1 = record broker { sessions = remove token broker.sessions } in
      let b2 = untrack_peer_session session.initiator_peer_id token b1 in
      let b3 = untrack_peer_session session.target_peer_id token b2 in
      record b3 { offloaded_pairs = discard (pair_of session) b3.offloaded_pairs }
]

abbrev pub put_session : Bytes → P2pSession → P2pBroker → P2pBroker
put_session token session broker = record broker { sessions = insert token session broker.sessions }

abbrev pub new_session : ℕ → ℕ → P2pSession
new_session initiator target = record {
  initiator_peer_id = initiator;
  target_peer_id = target;
  state = awaiting;
  endpoint_a_internal = none;
  endpoint_a_external = none;
  endpoint_b_internal = none;
  endpoint_b_external = none;
  initiator_link_up = false;
  target_link_up = false;
}

abbrev is_empty_token : Bytes → Bool
is_empty_token [] = true
is_empty_token (b ∷ bs) = false

unfoldable pub handle_request : (ℕ → Bool) → ℕ → BasisP2PSignalMessage → P2pBroker → Outcome
unfolding track_peer_session
handle_request is_authenticated sender m broker =
    let token = m.session_token in
    let other = m.other_player_id in
    if is_empty_token token || other == sender
    then (broker, [])
    else if not (is_authenticated other)
    then (broker, send_sub sender sub_cancel token other ∷ [])
    else (
      track_peer_session other token
          (track_peer_session sender token (put_session token (new_session sender other) broker)),
      send_sub other sub_request token sender ∷ send_sub sender sub_server_armed token other ∷ [],
    )

unfoldable pub handle_accept : ℕ → BasisP2PSignalMessage → P2pBroker → Outcome
handle_accept sender m broker = elim (lookup m.session_token broker.sessions) [
  | none ↦ (broker, [])
  | some session ↦
      if not (session.target_peer_id == sender)
        || not (session.initiator_peer_id == m.other_player_id)
      then (broker, [])
      else (
        put_session m.session_token (record session { state = ready_for_punch }) broker,
        send_sub session.initiator_peer_id sub_accept m.session_token sender ∷ [],
      )
]

unfoldable pub forward_and_drop : ℕ → BasisP2PSignalMessage → ℕ → Bool → P2pBroker → Outcome
unfolding remove_session
forward_and_drop sender m sub drop_session broker = (
  if drop_session && not (is_empty_token m.session_token)
      then remove_session m.session_token broker
      else broker,
  send_sub m.other_player_id sub m.session_token sender ∷ [],
)

-- A lost link takes a session back to where the peers can be introduced again.
unfoldable pub unlink : P2pSession → P2pSession
unlink session = record session {
  endpoint_a_internal = none;
  endpoint_a_external = none;
  endpoint_b_internal = none;
  endpoint_b_external = none;
  initiator_link_up = false;
  target_link_up = false;
  state = ready_for_punch;
}

lose_link : Bytes → Option P2pSession → P2pBroker → P2pBroker
unfolding unlink
lose_link token none broker = broker
lose_link token (some session) broker = record broker {
  sessions = insert token (unlink session) broker.sessions;
  offloaded_pairs = discard (pair_of session) broker.offloaded_pairs;
}

unfoldable pub handle_link_lost : ℕ → BasisP2PSignalMessage → P2pBroker → Outcome
unfolding lose_link forward_and_drop
handle_link_lost sender m broker =
    forward_and_drop sender m sub_link_lost false
      (lose_link m.session_token (lookup m.session_token broker.sessions) broker)

-- The session after a report of one of its peers.
unfoldable pub report_link : ℕ → P2pSession → Option P2pSession
report_link sender session =
    if sender == session.initiator_peer_id
    then some (record session { initiator_link_up = true })
    else if sender == session.target_peer_id
    then some (record session { target_link_up = true })
    else none

link_reported : Bytes → Option P2pSession → P2pBroker → P2pBroker
link_reported token none broker = broker
link_reported token (some session) broker = record broker {
  sessions = insert token session broker.sessions;
  offloaded_pairs =
      if session.initiator_link_up && session.target_link_up
      then add (pair_of session) broker.offloaded_pairs
      else broker.offloaded_pairs;
}

unfoldable pub handle_link_up : ℕ → BasisP2PSignalMessage → P2pBroker → P2pBroker
unfolding report_link link_reported
handle_link_up sender m broker = elim (lookup m.session_token broker.sessions) [
  | none ↦ broker
  | some session ↦ link_reported m.session_token (report_link sender session) broker
]
