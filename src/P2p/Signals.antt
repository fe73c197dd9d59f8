-- ===== src/P2p/Signals.antt =====
-- No signal breaks the sets of sessions of the peers.
use basis_rust_server.Common.{
  ℕ, refl, Bool, true, false, [], ◌∷◌, ◌==◌, not, ◌&&◌, ◌||◌, Bool-cases, Option-cases, inl, inr,
}
use basis_rust_server.Common.Maps.{lookup, text_key}
use basis_rust_server.Common.Words.{Bytes}
use basis_rust_server.Protocol.Io.{Result, ok, err, NetReader, new_reader}
use basis_rust_server.P2p.{
  P2pBroker, BasisP2PSignalMessage, ready_for_punch, handle_accept, forward_and_drop, unlink,
  handle_link_lost, handle_link_up, is_empty_token, sub_request, sub_accept, sub_decline,
  sub_cancel, sub_link_lost, sub_link_up,
}
use basis_rust_server.P2p.Steps.{dispatch_signal, signal_read, handle_signal}
use basis_rust_server.Protocol.Messages.Admin.{deserialize_p2p_signal_message}
use basis_rust_server.P2p.Tracked.{
  IsTracked, put_session-Covered, remove_session-Covered, handle_request-IsTracked,
}

handle_accept-IsTracked :
    (sender : ℕ) (m : BasisP2PSignalMessage) (b : P2pBroker)
    → IsTracked b
    → IsTracked (handle_accept sender m b).0
unfolding handle_accept
handle_accept-IsTracked sender m b h = elim (Option-cases (lookup m.session_token b.sessions)) [
  | inl e ↦ rw (handle_accept, e) h
  | inr (s, e) ↦
      elim (Bool-cases
        (not (s.target_peer_id == sender) || not (s.initiator_peer_id == m.other_player_id))) [
          | inl stranger ↦ rw (handle_accept, e, stranger) h
          | inr own ↦
              rw (handle_accept, e, own)
                (put_session-Covered (λ _. false) m.session_token s
                  (record s { state = ready_for_punch }) b e refl refl h)
        ]
]

forward_and_drop-IsTracked :
    (sender : ℕ) (m : BasisP2PSignalMessage) (sub : ℕ) (drop_session : Bool) (b : P2pBroker)
    → IsTracked b
    → IsTracked (forward_and_drop sender m sub drop_session b).0
unfolding forward_and_drop
forward_and_drop-IsTracked sender m sub drop_session b h =
    elim (Bool-cases (drop_session && not (is_empty_token m.session_token))) [
      | inl e ↦ rw (forward_and_drop, e) (remove_session-Covered (λ _. false) m.session_token b h)
      | inr e ↦ rw (forward_and_drop, e) h
    ]

handle_link_lost-IsTracked :
    (sender : ℕ) (m : BasisP2PSignalMessage) (b : P2pBroker)
    → IsTracked b
    → IsTracked (handle_link_lost sender m b).0
unfolding handle_link_lost unlink
handle_link_lost-IsTracked sender m b h = elim (Option-cases (lookup m.session_token b.sessions)) [
  | inl e ↦ rw (handle_link_lost, e) (forward_and_drop-IsTracked sender m sub_link_lost false b h)
  | inr (s, e) ↦
      rw (handle_link_lost, e)
        (put_session-Covered (λ _. false) m.session_token s (unlink s) b e refl refl h)
]

handle_link_up-IsTracked :
    (sender : ℕ) (m : BasisP2PSignalMessage) (b : P2pBroker)
    → IsTracked b
    → IsTracked (handle_link_up sender m b)
unfolding handle_link_up
handle_link_up-IsTracked sender m b h = elim (Option-cases (lookup m.session_token b.sessions)) [
  | inl e ↦ rw (handle_link_up, e) h
  | inr (s, e) ↦ elim (Bool-cases (sender == s.initiator_peer_id)) [
    | inl first ↦
        rw (handle_link_up, e, first)
          (put_session-Covered (λ _. false) m.session_token s
            (record s { initiator_link_up = true }) b e refl refl h)
    | inr not_first ↦ elim (Bool-cases (sender == s.target_peer_id)) [
      | inl second ↦
          rw (handle_link_up, e, not_first, second)
            (put_session-Covered (λ _. false) m.session_token s (record s { target_link_up = true })
              b e refl refl h)
      | inr neither ↦ rw (handle_link_up, e, not_first, neither) h
    ]
  ]
]

dispatch_signal-IsTracked :
    (is_authenticated : ℕ → Bool) (sender sub : ℕ) (m : BasisP2PSignalMessage) (b : P2pBroker)
    → IsTracked b
    → IsTracked (dispatch_signal is_authenticated sender sub m b).0
unfolding dispatch_signal
dispatch_signal-IsTracked is_authenticated sender sub m b h =
    elim (Bool-cases (sub == sub_request)) [
      | inl e ↦ rw (dispatch_signal, e) (handle_request-IsTracked is_authenticated sender m b h)
      | inr n0 ↦ elim (Bool-cases (sub == sub_accept)) [
        | inl e ↦ rw (dispatch_signal, n0, e) (handle_accept-IsTracked sender m b h)
        | inr n1 ↦ elim (Bool-cases (sub == sub_decline)) [
          | inl e ↦
              rw (dispatch_signal, n0, n1, e)
                (forward_and_drop-IsTracked sender m sub_decline true b h)
          | inr n2 ↦ elim (Bool-cases (sub == sub_cancel)) [
            | inl e ↦
                rw (dispatch_signal, n0, n1, n2, e)
                  (forward_and_drop-IsTracked sender m sub_cancel true b h)
            | inr n3 ↦ elim (Bool-cases (sub == sub_link_lost)) [
              | inl e ↦
                  rw (dispatch_signal, n0, n1, n2, n3, e) (handle_link_lost-IsTracked sender m b h)
              | inr n4 ↦ elim (Bool-cases (sub == sub_link_up)) [
                | inl e ↦
                    rw (dispatch_signal, n0, n1, n2, n3, n4, e)
                      (handle_link_up-IsTracked sender m b h)
                | inr n5 ↦ rw (dispatch_signal, n0, n1, n2, n3, n4, n5) h
              ]
            ]
          ]
        ]
      ]
    ]

signal_read-IsTracked :
    (is_authenticated : ℕ → Bool) (sender sub : ℕ) (r : Result (BasisP2PSignalMessage × NetReader))
    (b : P2pBroker)
    → IsTracked b
    → IsTracked (signal_read is_authenticated sender sub r b).0
unfolding signal_read
signal_read-IsTracked is_authenticated sender sub (ok (m, reader)) b h =
    dispatch_signal-IsTracked is_authenticated sender sub m b h
signal_read-IsTracked is_authenticated sender sub (err e) b h = h

-- Whatever signal a peer sends, well formed or not, every session stays in the sets of both of its
-- peers.
pub handle_signal-IsTracked :
    (is_authenticated : ℕ → Bool) (sender : ℕ) (payload : Bytes) (b : P2pBroker)
    → IsTracked b
    → IsTracked (handle_signal is_authenticated sender payload b).0
unfolding handle_signal
handle_signal-IsTracked is_authenticated sender [] b h = h
handle_signal-IsTracked is_authenticated sender (sub ∷ rest) b h =
    signal_read-IsTracked is_authenticated sender sub
      (deserialize_p2p_signal_message (new_reader rest)) b h
