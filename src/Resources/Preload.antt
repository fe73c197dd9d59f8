-- ===== src/Resources/Preload.antt =====
-- The preloads of `ResourceState`, which wait until every peer is ready or has failed:
-- BasisRustServer/crates/basis-server-resources/src/lib.rs.
use basis_rust_server.Common.{
  ℕ, ◌+◌, ◌-◌, ◌*◌, ◌≤◌, ◌<◌, ◌≡◌, refl, Bool, true, false, not, ◌==◌, leb, ◌||◌, List, [], ◌∷◌,
  length, map, Option, none, some, if◌then◌else◌, arith, Bool-cases, ◌⊎◌, inl, inr,
}
use basis_rust_server.Common.Maps.{
  Map, lookup, insert, remove, member, add, discard, nat_key, text_key, lookup-insert_self,
  lookup-remove_self, member-add, member-discard, keys_where,
}
use basis_rust_server.Common.Words.{Bytes}
use basis_rust_server.Resources.Store.{
  LocalLoadResource, PreloadSession, ResourceState, load_resource,
}
pub use basis_rust_server.Protocol.Messages.Objects.{PreloadReadyMessage, SpawnPreloadedMessage}

unfoldable pub start_preload : ℕ → LocalLoadResource → List ℕ → ResourceState → Bool × ResourceState
unfolding load_resource
start_preload now resource peers state =
    let (loaded, after) = load_resource resource state in
    if loaded
    then (
      true,
      record after {
        preload_sessions =
            insert resource.loaded_net_id
              (record {
                ready_peers = [];
                failed_peers = [];
                total_peer_count = length peers;
                started_at = now;
              })
              after.preload_sessions;
      },
    )
    else (false, after)

unfoldable pub is_complete : PreloadSession → Bool
is_complete session =
    leb session.total_peer_count (length session.ready_peers + length session.failed_peers)

unfoldable pub mark_peer : ℕ → Bool → PreloadSession → PreloadSession
mark_peer peer is_ready session =
    let ready = discard peer session.ready_peers in
    let failed = discard peer session.failed_peers in
    record session {
      ready_peers = if is_ready then add peer ready else ready;
      failed_peers = if is_ready then failed else add peer failed;
    }

marked : Bytes → PreloadSession → ResourceState → Option SpawnPreloadedMessage × ResourceState
unfolding is_complete
marked id session state =
    if is_complete session
    then (
      some (record { loaded_net_id = id }),
      record state { preload_sessions = remove id state.preload_sessions },
    )
    else (none, record state { preload_sessions = insert id session state.preload_sessions })

unfoldable pub mark_preload_ready :
    ℕ → PreloadReadyMessage → ResourceState → Option SpawnPreloadedMessage × ResourceState
unfolding marked mark_peer
mark_preload_ready peer message state = elim (lookup message.loaded_net_id state.preload_sessions) [
  | none ↦ (none, state)
  | some session ↦ marked message.loaded_net_id (mark_peer peer message.is_ready session) state
]

unfoldable pub without_peer : ℕ → PreloadSession → PreloadSession
without_peer peer session = record session {
  ready_peers = discard peer session.ready_peers;
  failed_peers = discard peer session.failed_peers;
  total_peer_count = session.total_peer_count - 1;
}

shrink : ℕ → Map Bytes PreloadSession → Map Bytes PreloadSession
unfolding without_peer
shrink peer [] = []
shrink peer ((id, session) ∷ sessions) = (id, without_peer peer session) ∷ shrink peer sessions

unfoldable pub is_over : PreloadSession → Bool
unfolding is_complete
is_over session = session.total_peer_count == 0 || is_complete session

spawn : Bytes → SpawnPreloadedMessage
spawn id = record { loaded_net_id = id }

unfoldable pub remove_ids : List Bytes → Map Bytes PreloadSession → Map Bytes PreloadSession
remove_ids [] sessions = sessions
remove_ids (id ∷ ids) sessions = remove_ids ids (remove id sessions)

unfoldable pub finish_where :
    (PreloadSession → Bool) → ResourceState → List SpawnPreloadedMessage × ResourceState
unfolding spawn remove_ids keys_where
finish_where test state =
    let ids = keys_where test state.preload_sessions in
    (map spawn ids, record state { preload_sessions = remove_ids ids state.preload_sessions })

unfoldable pub remove_preload_peer : ℕ → ResourceState → List SpawnPreloadedMessage × ResourceState
unfolding finish_where shrink is_over
remove_preload_peer peer state =
    finish_where is_over (record state { preload_sessions = shrink peer state.preload_sessions })

-- `started_at.elapsed() >= TIMEOUT`, in nanoseconds.
is_late : ℕ → PreloadSession → Bool
is_late now session = leb (300 * 1000000000) (now - session.started_at)

unfoldable pub timed_out_preloads : ℕ → ResourceState → List SpawnPreloadedMessage × ResourceState
unfolding finish_where is_late
timed_out_preloads now state = finish_where (is_late now) state

-- No peer stands twice in the list that stands for a set.
abbrev pub IsOnce : List ℕ → Type 0
IsOnce [] = Unit
IsOnce (p ∷ ps) = (member p ps ≡ false) × IsOnce ps

discard-IsOnce : (peer : ℕ) (ps : List ℕ) → IsOnce ps → IsOnce (discard peer ps)
unfolding discard
discard-IsOnce peer [] h = tt
discard-IsOnce peer (p ∷ ps) h =
    ground (arith, h.0, discard-IsOnce peer ps h.1, member-discard peer p ps)

add-IsOnce : (peer : ℕ) (ps : List ℕ) → IsOnce ps → IsOnce (add peer ps)
unfolding add member
add-IsOnce peer [] h = (refl, tt)
add-IsOnce peer (p ∷ ps) h = ground (arith, h.0, h.1, add-IsOnce peer ps h.1, member-add peer p ps)

-- What a report of a peer leaves of the session.
pub record Reported (peer : ℕ) (is_ready : Bool) (s s' : PreloadSession) : Type 0 where
  pub total : s'.total_peer_count ≡ s.total_peer_count
  pub started : s'.started_at ≡ s.started_at
  pub ready : member peer s'.ready_peers ≡ is_ready
  pub failed : member peer s'.failed_peers ≡ not is_ready
  pub others :
      (q : ℕ)
      → (q == peer) ≡ false
      → (member q s'.ready_peers ≡ member q s.ready_peers)
        × (member q s'.failed_peers ≡ member q s.failed_peers)
  pub ready_once : IsOnce s'.ready_peers
  pub failed_once : IsOnce s'.failed_peers

mark_peer-Reported :
    (peer : ℕ) (is_ready : Bool) (s : PreloadSession)
    → IsOnce s.ready_peers
    → IsOnce s.failed_peers
    → Reported peer is_ready s (mark_peer peer is_ready s)
unfolding mark_peer
mark_peer-Reported peer true s r f = record {
  total = refl;
  started = refl;
  ready = ground (arith, member-add peer peer (discard peer s.ready_peers));
  failed = ground (arith, member-discard peer peer s.failed_peers);
  others = λ q ne. ground (
    arith,
    ne,
    member-add peer q (discard peer s.ready_peers),
    member-discard peer q s.ready_peers,
    member-discard peer q s.failed_peers,
  );
  ready_once = add-IsOnce peer (discard peer s.ready_peers) (discard-IsOnce peer s.ready_peers r);
  failed_once = discard-IsOnce peer s.failed_peers f;
}
mark_peer-Reported peer false s r f = record {
  total = refl;
  started = refl;
  ready = ground (arith, member-discard peer peer s.ready_peers);
  failed = ground (arith, member-add peer peer (discard peer s.failed_peers));
  others = λ q ne. ground (
    arith,
    ne,
    member-add peer q (discard peer s.failed_peers),
    member-discard peer q s.ready_peers,
    member-discard peer q s.failed_peers,
  );
  ready_once = discard-IsOnce peer s.ready_peers r;
  failed_once =
      add-IsOnce peer (discard peer s.failed_peers) (discard-IsOnce peer s.failed_peers f);
}

-- A report for a preload that goes on counts the peer once, as ready or as failed, and never as both; it
-- touches no other peer, nor the number of peers that are waited for, nor the start. If the ready and
-- the failed ones are then at least that number, the resource is spawned and its preload is over;
-- otherwise nothing is spawned and the preload goes on with these two sets. The two sets before hold
-- no peer twice, and the same is true of them after it.
pub mark_preload_ready_lem :
    (peer : ℕ) (m : PreloadReadyMessage) (s : PreloadSession) (state : ResourceState)
    → lookup m.loaded_net_id state.preload_sessions ≡ some s
    → IsOnce s.ready_peers
    → IsOnce s.failed_peers
    → let (spawned, after) = mark_preload_ready peer m state in
      (s' : PreloadSession) × Reported peer m.is_ready s s'
      × (((s.total_peer_count ≤ length s'.ready_peers + length s'.failed_peers)
            × (spawned ≡ some (record { loaded_net_id = m.loaded_net_id }))
            × (lookup m.loaded_net_id after.preload_sessions ≡ none))
          ⊎ ((length s'.ready_peers + length s'.failed_peers < s.total_peer_count)
              × (spawned ≡ none)
              × (lookup m.loaded_net_id after.preload_sessions ≡ some s')))
unfolding mark_preload_ready is_complete mark_peer
mark_preload_ready_lem peer m s state e once once' =
    let s' = mark_peer peer m.is_ready s in
    (
      s',
      mark_peer-Reported peer m.is_ready s once once',
      elim (Bool-cases (is_complete s')) [
        | inl over ↦ inl (
          ground (arith, over),
          rw (mark_preload_ready, e, over),
          rw (mark_preload_ready, e, over)
              (lookup-remove_self m.loaded_net_id state.preload_sessions),
        )
        | inr waits ↦ inr (
          ground (arith, waits),
          rw (mark_preload_ready, e, waits),
          rw (mark_preload_ready, e, waits)
              (lookup-insert_self m.loaded_net_id s' state.preload_sessions),
        )
      ],
    )
