-- ===== src/Core/Relays/Reach.antt =====
-- Whom a relayed message reaches.
use basis_rust_server.Common.{
  ℕ, ◌≡◌, ap, ◌∙◌, Bool, true, List, [], ◌∷◌, some, ◌==◌, not, ◌&&◌, ◌||◌, arith,
}
use basis_rust_server.Common.Maps.{member, nat_key}
use basis_rust_server.Common.Words.{Bytes}
use basis_rust_server.Transport.Packet.{DeliveryMethod}
use basis_rust_server.P2p.{is_offloaded}
use basis_rust_server.Core.{
  ServerState, is_authenticated, reaches, is_p2p_offload_channel, broadcast,
}
use basis_rust_server.Core.Voice.{keep_ids}
use basis_rust_server.Core.Voice.Heard.{
  targets, targets-deliver_to, member-keep_ids, member-reached,
}
use basis_rust_server.Core.Relays.{is_nobody, send_to_recipients_or_broadcast}

same_test :
    (state : ServerState) (peer id channel : ℕ)
    → (is_authenticated state id && reaches state channel (some peer) id) ≡ (
        is_authenticated state id
        && not (id == peer)
        && not (is_p2p_offload_channel channel && is_offloaded peer id state.p2p_broker)
        && true)
unfolding reaches
same_test state peer id channel = ground arith

same_filter :
    (state : ServerState) (peer id channel : ℕ) (ids : List ℕ)
    → (member id ids
        && not (
            (id == peer)
            || not (is_authenticated state id)
            || (is_p2p_offload_channel channel && is_offloaded peer id state.p2p_broker)))
      ≡ (is_authenticated state id
          && not (id == peer)
          && not (is_p2p_offload_channel channel && is_offloaded peer id state.p2p_broker)
          && member id ids)
same_filter state peer id channel ids = ground arith

-- A message for some recipients goes to those of them who are signed in, are not its sender, and do not
-- get messages of the channel by a direct link to the sender; one that names nobody goes to all of these.
pub relayed_to :
    (state : ServerState) (peer id channel : ℕ) (delivery : DeliveryMethod) (payload : Bytes)
    (recipients : List ℕ)
    → member id
        (targets (send_to_recipients_or_broadcast state peer delivery channel payload recipients))
      ≡ (is_authenticated state id
          && not (id == peer)
          && not (is_p2p_offload_channel channel && is_offloaded peer id state.p2p_broker)
          && (is_nobody recipients || member id recipients))
unfolding send_to_recipients_or_broadcast broadcast
relayed_to state peer id channel delivery payload [] =
    ap (member id) (targets-deliver_to channel delivery payload _)
    ∙ member-reached (reaches state channel (some peer)) id state.authenticated_peers
    ∙ same_test state peer id channel
relayed_to state peer id channel delivery payload (first ∷ recipients) =
    let test : ℕ → Bool = λ id. not (
      (id == peer)
      || not (is_authenticated state id)
      || (is_p2p_offload_channel channel && is_offloaded peer id state.p2p_broker)) in
    ap (member id)
      (targets-deliver_to channel delivery payload (keep_ids test (first ∷ recipients)))
    ∙ member-keep_ids test id (first ∷ recipients)
    ∙ same_filter state peer id channel (first ∷ recipients)
