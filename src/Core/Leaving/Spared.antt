-- ===== src/Core/Leaving/Spared.antt =====
-- What is left of the others when a peer leaves.
use basis_rust_server.Common.{
  ℕ, ◌≡◌, ◌≢◌, refl, ap, ◌∙◌, false, [], ◌∷◌, none, some, ◌==◌, if◌then◌else◌, arith,
}
use basis_rust_server.Common.Maps.{
  Map, lookup, remove, nat_key, text_key, contains_key, holds_of, lookup-remove_ne,
}
use basis_rust_server.Common.Words.{Bytes}
use basis_rust_server.P2p.{P2pBroker}
use basis_rust_server.P2p.Tracked.{tracks}
use basis_rust_server.P2p.Leaving.{remove_peer_lem}
use basis_rust_server.Resources.Ownership.{OwnershipState, remove_player_lem}
use basis_rust_server.Resources.Sharing.{ContentShareState, spheres_of_player, is_by}
use basis_rust_server.Resources.Cameras.{PipState, remove_camera}
use basis_rust_server.Resources.Preload.{remove_preload_peer, finish_where}
use basis_rust_server.AvatarSync.{AvatarSyncSystem, remove_avatar}
use basis_rust_server.Core.{ConnectedPeer, ServerState}
use basis_rust_server.Core.Leaving.{
  release, leave, empty_server, is_empty_server, handle_disconnect,
}
use basis_rust_server.Core.Leaving.Gone.{IsSound, either}

-- Another peer is still signed in, and the other tables are as they were when the first one was
-- released.
record IsSpared (other : ℕ) (p : ConnectedPeer) (released state : ServerState) : Type 0 where
  pub signed_in : lookup other state.authenticated_peers ≡ some p
  pub pending_identity : state.pending_identity ≡ released.pending_identity
  pub voice_recipients : state.voice_recipients ≡ released.voice_recipients
  pub avatar_sync : state.avatar_sync ≡ released.avatar_sync
  pub pip : state.pip ≡ released.pip
  pub ownership : state.ownership ≡ released.ownership
  pub content_share : state.content_share ≡ released.content_share
  pub p2p_broker : state.p2p_broker ≡ released.p2p_broker
  pub net_ids : state.net_ids ≡ released.net_ids
  pub resources : state.resources.resources ≡ released.resources.resources

same_tables :
    (other : ℕ) (p : ConnectedPeer) (state : ServerState)
    → lookup other state.authenticated_peers ≡ some p
    → IsSpared other p state state
same_tables other p state e = record {
  signed_in = e;
  pending_identity = refl;
  voice_recipients = refl;
  avatar_sync = refl;
  pip = refl;
  ownership = refl;
  content_share = refl;
  p2p_broker = refl;
  net_ids = refl;
  resources = refl;
}

peopled :
    (other : ℕ) (p : ConnectedPeer) (peers : Map ℕ ConnectedPeer)
    → lookup other peers ≡ some p
    → is_empty_server peers ≡ false
unfolding lookup is_empty_server
peopled other p [] e = absurd (ground arith)
peopled other p (entry ∷ peers) e = refl

leave-IsSpared :
    (peer other : ℕ) (p : ConnectedPeer) (state : ServerState)
    → peer ≢ other
    → lookup other state.authenticated_peers ≡ some p
    → IsSpared other p state (leave peer state).1
unfolding leave remove_preload_peer finish_where
leave-IsSpared peer other p state ne e =
    let after = record state {
      authenticated_peers = remove peer state.authenticated_peers;
      resources = (remove_preload_peer peer state.resources).1;
    } in
    let still : lookup other after.authenticated_peers ≡ some p =
      lookup-remove_ne peer other state.authenticated_peers ne ∙ e in
    either (IsSpared other p state) (is_empty_server after.authenticated_peers) (empty_server after)
      ([], after)
      (λ none_left. absurd (ground (arith, peopled other p after.authenticated_peers still)))
      (λ some_left. record {
        signed_in = still;
        pending_identity = refl;
        voice_recipients = refl;
        avatar_sync = refl;
        pip = refl;
        ownership = refl;
        content_share = refl;
        p2p_broker = refl;
        net_ids = refl;
        resources = refl;
      })

-- What is another peer's, before and after the first one leaves.
pub record Spares (peer other : ℕ) (before after : ServerState) : Type 0 where
  pub signed_in : lookup other after.authenticated_peers ≡ lookup other before.authenticated_peers
  pub pending : lookup other after.pending_identity ≡ lookup other before.pending_identity
  pub voice : lookup other after.voice_recipients ≡ lookup other before.voice_recipients
  pub avatar :
      (lookup other after.avatar_sync.pending ≡ lookup other before.avatar_sync.pending)
      × (lookup other after.avatar_sync.states ≡ lookup other before.avatar_sync.states)
      × (lookup other after.avatar_sync.bundle_ratios
          ≡ lookup other before.avatar_sync.bundle_ratios)
  pub camera : lookup other after.pip.states ≡ lookup other before.pip.states
  pub objects :
      (object : Bytes)
      → let owner = lookup object before.ownership.by_object in
        lookup object after.ownership.by_object
        ≡ (if holds_of (λ o. o == peer) owner then none else owner)
  pub spheres :
      (id : Bytes)
      → let sphere = lookup id before.content_share.spheres in
        lookup id after.content_share.spheres
        ≡ (if holds_of (is_by peer) sphere then none else sphere)
  pub sessions :
      (token : Bytes)
      → lookup token after.p2p_broker.sessions ≡ (
          if tracks peer token before.p2p_broker.peer_sessions
          then none
          else lookup token before.p2p_broker.sessions)
  pub net_ids : after.net_ids ≡ before.net_ids
  pub resources : after.resources.resources ≡ before.resources.resources

-- If every object and every sphere stands once in its table and every session is in the sets of its
-- peers, another peer that is signed in keeps, when a peer disconnects, its entry among the signed in,
-- among the identities that are awaited, the voice recipients, the avatar states (those that wait and
-- the ratios too) and the cameras. Exactly the objects and the spheres of the peer that leaves go, and
-- exactly the sessions whose tokens are in its set; every name keeps its number, and every loaded
-- resource stays. Preloads, offloaded pairs and what avatars keep of each other are not among these.
pub handle_disconnect-others :
    (peer other : ℕ) (p : ConnectedPeer) (state : ServerState)
    → IsSound state
    → peer ≢ other
    → lookup other state.authenticated_peers ≡ some p
    → Spares peer other state (handle_disconnect peer state).1
unfolding handle_disconnect release remove_avatar remove_camera
handle_disconnect-others peer other p state h ne e =
    let released = (release peer state).1 in
    let spared : IsSpared other p released (handle_disconnect peer state).1 =
      either (IsSpared other p released) (contains_key peer released.authenticated_peers)
        (leave peer released) ([], released) (λ here. leave-IsSpared peer other p released ne e)
        (λ away. same_tables other p released e) in
    let (tracked, exact, foreign, no_set, sets) =
      remove_peer_lem peer state.p2p_broker h.sessions in
    let avatars = state.avatar_sync in
    record {
      signed_in = ground (arith, spared.signed_in, e);
      pending =
          ap (lookup other) spared.pending_identity
          ∙ lookup-remove_ne peer other state.pending_identity ne;
      voice =
          ap (lookup other) spared.voice_recipients
          ∙ lookup-remove_ne peer other state.voice_recipients ne;
      avatar = (
        ap (λ (t : AvatarSyncSystem). lookup other t.pending) spared.avatar_sync
            ∙ lookup-remove_ne peer other avatars.pending ne,
        ap (λ (t : AvatarSyncSystem). lookup other t.states) spared.avatar_sync
            ∙ lookup-remove_ne peer other avatars.states ne,
        ap (λ (t : AvatarSyncSystem). lookup other t.bundle_ratios) spared.avatar_sync
            ∙ lookup-remove_ne peer other avatars.bundle_ratios ne,
      );
      camera =
          ap (λ (t : PipState). lookup other t.states) spared.pip
          ∙ lookup-remove_ne peer other state.pip.states ne;
      objects = λ object.
          ap (λ (t : OwnershipState). lookup object t.by_object) spared.ownership
          ∙ (remove_player_lem peer object state.ownership h.owners).0;
      spheres = λ id.
          ap (λ (t : ContentShareState). lookup id t.spheres) spared.content_share
          ∙ (spheres_of_player peer id state.content_share h.spheres).0;
      sessions =
          λ token. ap (λ (t : P2pBroker). lookup token t.sessions) spared.p2p_broker ∙ exact token;
      net_ids = spared.net_ids;
      resources = spared.resources;
    }
