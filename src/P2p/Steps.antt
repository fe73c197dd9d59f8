-- ===== src/P2p/Steps.antt =====
-- The steps of `P2pBroker` that reach several sessions or the transport: introductions, peers that
-- leave, and signals by their bytes: BasisRustServer/crates/basis-server-core/src/p2p.rs.
use basis_rust_server.Common.{
  ℕ, Bool, true, false, List, [], ◌∷◌, ◌++◌, Option, none, some, ◌==◌, if◌then◌else◌, ◌|>◌,
}
use basis_rust_server.Common.Maps.{lookup, remove, nat_key, text_key}
use basis_rust_server.Common.Words.{Bytes}
use basis_rust_server.Protocol.Io.{
  Result, ok, err, NetWriter, NetReader, new_writer, new_reader, put_u8,
}
use basis_rust_server.Transport.Address.{SocketAddr}
use basis_rust_server.Transport.Packet.{reliable_ordered}
use basis_rust_server.Transport.Parse.{build_nat_introduce_response}
use basis_rust_server.Transport.Handle.{TransportHandle, send_raw_to}
use basis_rust_server.Transport.Handle.Sending.{send}
use basis_rust_server.Protocol.Messages.Admin.{
  serialize_p2p_signal_message, deserialize_p2p_signal_message,
}
use basis_rust_server.P2p.{
  SessionState, awaiting, ready_for_punch, punched, P2pSession, P2pBroker, BasisP2PSignalMessage,
  Effect, send_sub, send_nat_introduce, Outcome, sub_request, sub_accept, sub_decline, sub_cancel,
  sub_link_lost, sub_link_up, put_session, remove_session, handle_request, handle_accept,
  forward_and_drop, handle_link_lost, handle_link_up,
}

-- `state < ReadyForPunch`.
unfoldable pub is_before_ready : SessionState → Bool
is_before_ready awaiting = true
is_before_ready ready_for_punch = false
is_before_ready punched = false

-- The second endpoint, if it is not known yet.
unfoldable pub with_second : SocketAddr → SocketAddr → P2pSession → P2pSession
with_second local_addr remote_addr session = elim session.endpoint_b_internal [
  | none ↦ record session {
    endpoint_b_internal = some local_addr;
    endpoint_b_external = some remote_addr;
  }
  | some known ↦ session
]

-- All four endpoints are known, or nothing happens.
introduce :
    Bytes
    → P2pSession
    → P2pBroker
    → Option SocketAddr
    → Option SocketAddr
    → Option SocketAddr
    → Option SocketAddr
    → Outcome
introduce token session broker (some a_internal) (some a_external) (some b_internal)
      (some b_external) =
    (
      put_session token (record session { state = punched }) broker,
      send_nat_introduce a_internal a_external b_internal b_external token ∷ [],
    )
introduce token session broker _ _ _ _ = (put_session token session broker, [])

unfoldable pub introduce_session :
    Bytes → SocketAddr → SocketAddr → P2pSession → P2pBroker → Outcome
unfolding introduce with_second
introduce_session token local_addr remote_addr session broker = elim session.endpoint_a_internal [
  | none ↦ (
    put_session token
        (record session {
          endpoint_a_internal = some local_addr;
          endpoint_a_external = some remote_addr;
        })
        broker,
    [],
  )
  | some known ↦
      let s = with_second local_addr remote_addr session in
      introduce token s broker s.endpoint_a_internal s.endpoint_a_external s.endpoint_b_internal
        s.endpoint_b_external
]

unfoldable pub handle_nat_introduction_request :
    SocketAddr → SocketAddr → Bytes → P2pBroker → Outcome
unfolding introduce_session is_before_ready
handle_nat_introduction_request local_addr remote_addr [] broker = (broker, [])
handle_nat_introduction_request local_addr remote_addr (b ∷ bs) broker =
    elim (lookup (b ∷ bs) broker.sessions) [
      | none ↦ (broker, [])
      | some session ↦
          if is_before_ready session.state
          then (broker, [])
          else introduce_session (b ∷ bs) local_addr remote_addr session broker
    ]

-- The other peer of a session of `peer`.
unfoldable pub other_peer : ℕ → P2pSession → ℕ
other_peer peer session =
    if session.initiator_peer_id == peer then session.target_peer_id else session.initiator_peer_id

unfoldable pub drop_token : ℕ → Bytes → Option P2pSession → P2pBroker → Outcome
unfolding other_peer remove_session
drop_token peer token none broker = (broker, [])
drop_token peer token (some session) broker =
    (remove_session token broker, send_sub (other_peer peer session) sub_cancel token peer ∷ [])

unfoldable pub drop_tokens : ℕ → List Bytes → P2pBroker → Outcome
unfolding drop_token
drop_tokens peer [] broker = (broker, [])
drop_tokens peer (token ∷ tokens) broker =
    let (after, sends) = drop_token peer token (lookup token broker.sessions) broker in
    let (end, more) = drop_tokens peer tokens after in (end, sends ++ more)

unfoldable pub remove_peer : ℕ → P2pBroker → Outcome
unfolding drop_tokens
remove_peer peer broker = elim (lookup peer broker.peer_sessions) [
  | none ↦ (broker, [])
  | some tokens ↦
      drop_tokens peer tokens (record broker { peer_sessions = remove peer broker.peer_sessions })
]

-- The match on the sub-type.
unfoldable pub dispatch_signal : (ℕ → Bool) → ℕ → ℕ → BasisP2PSignalMessage → P2pBroker → Outcome
unfolding handle_request handle_accept forward_and_drop handle_link_lost handle_link_up
dispatch_signal is_authenticated sender sub m broker =
    if sub == sub_request
    then handle_request is_authenticated sender m broker
    else if sub == sub_accept
    then handle_accept sender m broker
    else if sub == sub_decline
    then forward_and_drop sender m sub_decline true broker
    else if sub == sub_cancel
    then forward_and_drop sender m sub_cancel true broker
    else if sub == sub_link_lost
    then handle_link_lost sender m broker
    else if sub == sub_link_up
    then (handle_link_up sender m broker, [])
    else (broker, [])

unfoldable pub signal_read :
    (ℕ → Bool) → ℕ → ℕ → Result (BasisP2PSignalMessage × NetReader) → P2pBroker → Outcome
unfolding dispatch_signal
signal_read is_authenticated sender sub (ok (m, reader)) broker =
    dispatch_signal is_authenticated sender sub m broker
signal_read is_authenticated sender sub (err e) broker = (broker, [])

unfoldable pub handle_signal : (ℕ → Bool) → ℕ → Bytes → P2pBroker → Outcome
unfolding signal_read deserialize_p2p_signal_message new_reader
handle_signal is_authenticated sender [] broker = (broker, [])
handle_signal is_authenticated sender (sub ∷ rest) broker =
    signal_read is_authenticated sender sub (deserialize_p2p_signal_message (new_reader rest))
      broker

-- The transport carries out what a handler asks: a signal is queued for its peer on channel 54, and
-- an introduction goes to the external endpoints of both sides.
unfoldable pub run_effect : ℕ → Effect → TransportHandle → TransportHandle
unfolding send send_raw_to build_nat_introduce_response serialize_p2p_signal_message put_u8
    new_writer
run_effect now (send_sub to sub token other) handle =
    let signal : BasisP2PSignalMessage = record {
      other_player_id = other;
      session_token = token;
    } in
    send now to
      (record {
        channel = 54;
        delivery = reliable_ordered;
        payload = NetWriter.bytes (new_writer |> put_u8 sub |> serialize_p2p_signal_message signal);
      })
      handle
run_effect now
      (send_nat_introduce host_internal host_external client_internal client_external token)
      handle =
    send_raw_to (build_nat_introduce_response client_internal client_external token) host_external (
      send_raw_to (build_nat_introduce_response host_internal host_external token) client_external
        handle)

unfoldable pub run_effects : ℕ → List Effect → TransportHandle → TransportHandle
unfolding run_effect
run_effects now [] handle = handle
run_effects now (e ∷ es) handle = run_effects now es (run_effect now e handle)
