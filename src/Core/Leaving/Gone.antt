-- ===== src/Core/Leaving/Gone.antt =====
-- What is left of a peer that left.
use basis_rust_server.Common.{
  ℕ, ◌≡◌, refl, Bool, true, false, [], Option, none, some, ◌==◌, ◌||◌, if◌then◌else◌, arith,
}
use basis_rust_server.Common.Maps.{
  lookup, remove, nat_key, text_key, contains_key, HasKeysOnce, holds_of, lookup-remove_self,
}
use basis_rust_server.Common.Words.{Bytes}
use basis_rust_server.P2p.{P2pSession}
use basis_rust_server.P2p.Tracked.{IsTracked}
use basis_rust_server.P2p.Leaving.{remove_peer_lem}
use basis_rust_server.Resources.Ownership
use basis_rust_server.Resources.Ownership.{OwnershipState, remove_player_lem}
use basis_rust_server.Resources.Sharing
use basis_rust_server.Resources.Sharing.{ContentShareState, spheres_of_player, is_by}
use basis_rust_server.Resources.Cameras
use basis_rust_server.Resources.Cameras.{remove_camera}
use basis_rust_server.AvatarSync.{remove_avatar}
use basis_rust_server.Core.{ServerState}
use basis_rust_server.Resources.Preload.{remove_preload_peer}
use basis_rust_server.Core.Leaving.{
  Handled, release, leave, empty_server, is_empty_server, handle_disconnect,
}

-- The tables that a hash map stands for hold a key once, and the sets of sessions are right.
pub record IsSound (state : ServerState) : Type 0 where
  pub owners : HasKeysOnce state.ownership.by_object
  pub spheres : HasKeysOnce state.content_share.spheres
  pub sessions : IsTracked state.p2p_broker

-- What is taken from a peer whether it was signed in or not: the fields below and no other table.
pub record IsReleased (peer : ℕ) (state : ServerState) : Type 0 where
  pub pending : lookup peer state.pending_identity ≡ none
  pub voice : lookup peer state.voice_recipients ≡ none
  pub avatar :
      (lookup peer state.avatar_sync.pending ≡ none)
      × (lookup peer state.avatar_sync.states ≡ none)
      × (lookup peer state.avatar_sync.bundle_ratios ≡ none)
  pub camera : lookup peer state.pip.states ≡ none
  pub objects :
      (object : Bytes)
      → holds_of (λ owner. owner == peer) (lookup object state.ownership.by_object) ≡ false
  pub spheres : (id : Bytes) → holds_of (is_by peer) (lookup id state.content_share.spheres) ≡ false
  pub sessions :
      (token : Bytes) (s : P2pSession)
      → lookup token state.p2p_broker.sessions ≡ some s
      → (s.initiator_peer_id == peer || s.target_peer_id == peer) ≡ false
  pub tokens : lookup peer state.p2p_broker.peer_sessions ≡ none

pub record IsGone (peer : ℕ) (state : ServerState) : Type 0 where
  pub signed_in : lookup peer state.authenticated_peers ≡ none
  pub released : IsReleased peer state

holds_of-removed :
    {V : Type 0} (test : V → Bool) (before after : Option V)
    → after ≡ (if holds_of test before then none else before)
    → holds_of test after ≡ false
holds_of-removed test none after e = ground arith
holds_of-removed test (some v) after e = ground arith

release-IsReleased :
    (peer : ℕ) (state : ServerState) → IsSound state → IsReleased peer (release peer state).1
unfolding release remove_avatar remove_camera
release-IsReleased peer state h =
    let (tracked, exact, foreign, no_set, rest) =
      remove_peer_lem peer state.p2p_broker h.sessions in
    record {
      pending = lookup-remove_self peer state.pending_identity;
      voice = lookup-remove_self peer state.voice_recipients;
      avatar = (
        lookup-remove_self peer state.avatar_sync.pending,
        lookup-remove_self peer state.avatar_sync.states,
        lookup-remove_self peer state.avatar_sync.bundle_ratios,
      );
      camera = lookup-remove_self peer state.pip.states;
      objects = λ object.
          holds_of-removed _ (lookup object state.ownership.by_object) _
            (remove_player_lem peer object state.ownership h.owners).0;
      spheres = λ id.
          holds_of-removed _ (lookup id state.content_share.spheres) _
            (spheres_of_player peer id state.content_share h.spheres).0;
      sessions = foreign;
      tokens = no_set;
    }

empty_server-IsGone :
    (peer : ℕ) (state : ServerState) → IsGone peer state → IsGone peer (empty_server state).1
unfolding empty_server Ownership.reset Sharing.reset Cameras.reset lookup
empty_server-IsGone peer state h = record {
  signed_in = h.signed_in;
  released = record {
    pending = h.released.pending;
    voice = h.released.voice;
    avatar = h.released.avatar;
    camera = refl;
    objects = λ object. refl;
    spheres = λ id. refl;
    sessions = h.released.sessions;
    tokens = h.released.tokens;
  };
}

-- What holds on both branches of a test holds.
pub either :
    (P : ServerState → Type 0) (b : Bool) (x y : Handled)
    → (b ≡ true → P x.1)
    → (b ≡ false → P y.1)
    → P (if b then x else y).1
either P true x y f g = f refl
either P false x y f g = g refl

leave-IsGone :
    (peer : ℕ) (state : ServerState) → IsReleased peer state → IsGone peer (leave peer state).1
unfolding leave
leave-IsGone peer state h =
    let after = record state {
      authenticated_peers = remove peer state.authenticated_peers;
      resources = (remove_preload_peer peer state.resources).1;
    } in
    let gone : IsGone peer after = record {
      signed_in = lookup-remove_self peer state.authenticated_peers;
      released = record {
        pending = h.pending;
        voice = h.voice;
        avatar = h.avatar;
        camera = h.camera;
        objects = h.objects;
        spheres = h.spheres;
        sessions = h.sessions;
        tokens = h.tokens;
      };
    } in
    either (IsGone peer) (is_empty_server after.authenticated_peers) (empty_server after)
      ([], after) (λ e. empty_server-IsGone peer after gone) (λ e. gone)

-- If every object and every sphere stands once in its table and every session is in the sets of its
-- peers, then after a peer disconnects it is not signed in and no identity of it is awaited; it has no
-- list of voice recipients of its own, no avatar state, none that waits and no ratio; and no camera, no
-- object, no sphere, no session and no set of sessions has it. Offloaded pairs, the resources it loaded,
-- what others keep of its avatar and the lists of voice recipients of others are not among these.
pub handle_disconnect-IsGone :
    (peer : ℕ) (state : ServerState) → IsSound state → IsGone peer (handle_disconnect peer state).1
unfolding handle_disconnect
handle_disconnect-IsGone peer state h =
    let after = (release peer state).1 in
    let released = release-IsReleased peer state h in
    either (IsGone peer) (contains_key peer after.authenticated_peers) (leave peer after)
      ([], after) (λ e. leave-IsGone peer after released)
      (λ e. record { signed_in = ground (arith, e); released = released })
