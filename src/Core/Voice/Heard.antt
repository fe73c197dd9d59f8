-- ===== src/Core/Voice/Heard.antt =====
-- Whom a voice reaches after its player chose the recipients.
use basis_rust_server.Common.{
  ℕ, ◌≡◌, refl, ap, ◌∙◌, Bool, true, false, List, [], ◌∷◌, some, ◌==◌, not, ◌&&◌, if◌then◌else◌,
  arith,
}
use basis_rust_server.Common.Maps.{
  Map, lookup, insert, member, nat_key, lookup-insert_self, contains_key,
}
use basis_rust_server.Common.Words.{Bytes}
use basis_rust_server.Protocol.Io.{ok, new_reader, NetReader}
use basis_rust_server.Protocol.Messages.Talk.{deserialize_voice_receivers_message}
use basis_rust_server.Transport.Packet.{DeliveryMethod}
use basis_rust_server.P2p.{is_offloaded}
use basis_rust_server.Core.{
  ConnectedPeer, ServerState, Request, deliver, signal, recycle, is_authenticated, reached,
  deliver_to,
}
use basis_rust_server.Core.Voice.{keep_ids, listen, update_voice_recipients, relay_voice_message}

-- The peers that requests deliver to.
abbrev pub targets : List Request → List ℕ
targets [] = []
targets (deliver id m ∷ requests) = id ∷ targets requests
targets (signal effect ∷ requests) = targets requests
targets (recycle id ∷ requests) = targets requests

pub targets-deliver_to :
    (channel : ℕ) (delivery : DeliveryMethod) (payload : Bytes) (ids : List ℕ)
    → targets (deliver_to channel delivery payload ids) ≡ ids
targets-deliver_to channel delivery payload [] = refl
targets-deliver_to channel delivery payload (id ∷ ids) =
    ap (λ rest. id ∷ rest) (targets-deliver_to channel delivery payload ids)

pub member-keep_ids :
    (test : ℕ → Bool) (id : ℕ) (ids : List ℕ)
    → member id (keep_ids test ids) ≡ (member id ids && test id)
unfolding member keep_ids
member-keep_ids test id [] = refl
member-keep_ids test id (j ∷ ids) = ground (arith, member-keep_ids test id ids)

pub member-reached :
    (test : ℕ → Bool) (id : ℕ) (peers : Map ℕ ConnectedPeer)
    → member id (reached test peers) ≡ (contains_key id peers && test id)
unfolding member reached lookup
member-reached test id [] = refl
member-reached test id ((j, peer) ∷ peers) = ground (arith, member-reached test id peers)

member-listen :
    (peer id : ℕ) (inverted : Bool) (users : List ℕ) (state : ServerState)
    → member id (listen peer inverted users state) ≡ (
        not (id == peer)
        && is_authenticated state id
        && (if inverted then not (member id users) else member id users))
unfolding listen
member-listen peer id true users state = ground (
  arith,
  member-reached (λ i. not (i == peer) && not (member i users)) id state.authenticated_peers,
)
member-listen peer id false users state =
    ground (arith, member-keep_ids (λ i. not (i == peer) && is_authenticated state i) id users)

pub relayed :
    (peer id : ℕ) (voice : Bytes) (ids : List ℕ) (state : ServerState)
    → lookup peer state.voice_recipients ≡ some ids
    → member id (targets (relay_voice_message state peer voice))
      ≡ (member id ids && not (is_offloaded peer id state.p2p_broker))
unfolding relay_voice_message
relayed peer id voice ids state e =
    let free : ℕ → Bool = λ id. not (is_offloaded peer id state.p2p_broker) in
    rw (relay_voice_message, e)
      (ap (member id) (targets-deliver_to _ _ _ (keep_ids free ids)) ∙ member-keep_ids free id ids)

-- Once a player has chosen whom to talk to, or, inverted, whom not to, a voice of that player goes to
-- exactly those whom this selects, who are signed in, are someone else, and have no direct link to the
-- player.
pub heard :
    (peer id : ℕ) (payload voice : Bytes) (large_count inverted : Bool) (users : List ℕ)
    (r : NetReader) (state : ServerState)
    → deserialize_voice_receivers_message large_count (new_reader payload) ≡ ok (users, r)
    → (after : ServerState) × (update_voice_recipients peer payload large_count inverted state
        ≡ ok after)
      × (member id (targets (relay_voice_message after peer voice)) ≡ (
          not (id == peer)
          && is_authenticated state id
          && (if inverted then not (member id users) else member id users)
          && not (is_offloaded peer id state.p2p_broker)))
unfolding update_voice_recipients
heard peer id payload voice large_count inverted users r state e =
    let ids = listen peer inverted users state in
    let after = record state { voice_recipients = insert peer ids state.voice_recipients } in
    (
      after,
      rw (update_voice_recipients, e) refl,
      ground (
        arith,
        relayed peer id voice ids after (lookup-insert_self peer ids state.voice_recipients),
        member-listen peer id inverted users state,
      ),
    )
