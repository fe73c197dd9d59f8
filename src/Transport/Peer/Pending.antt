-- ===== src/Transport/Peer/Pending.antt =====
-- The table of packets that wait for their acknowledgement.
use basis_rust_server.Common.{
  ℕ, ◌<◌, ◌≤◌, ◌≡◌, refl, ap, true, [], ◌∷◌, length, none, some, leb, arith, Bool-cases, inl, inr,
  Option-cases, All,
}
use basis_rust_server.Common.Maps.{
  is_some, Map, lookup, remove, lookup-insert_self, length-insert-le, length-remove-lt,
}
use basis_rust_server.Common.Words.{Bytes}
use basis_rust_server.Transport.Peer.{
  PeerState, BuiltPacket, PendingReliable, PendingReliableKey, pending_key, pending_key_key, oldest,
  drop_oldest, record_pending_reliable,
}

oldest-lookup :
    (m : Map PendingReliableKey PendingReliable) (k : PendingReliableKey) (t : ℕ)
    → oldest m ≡ some (k, t)
    → is_some (lookup k m) ≡ true
unfolding oldest lookup
oldest-lookup [] k t h = cc
oldest-lookup ((j, item) ∷ m) k t h = ground (arith, oldest-lookup m k t)

abbrev pub SentSince : ℕ → PendingReliableKey × PendingReliable → Type 0
SentSince t e = t ≤ e.1.last_sent

All-weaken :
    (t u : ℕ) (m : Map PendingReliableKey PendingReliable)
    → t ≤ u
    → All (SentSince u) m
    → All (SentSince t) m
All-weaken t u [] h a = tt
All-weaken t u (e ∷ m) h a = (omega arith, All-weaken t u m h a.1)

oldest-none : (m : Map PendingReliableKey PendingReliable) → oldest m ≡ none → m ≡ []
unfolding oldest
oldest-none [] h = refl
oldest-none ((j, item) ∷ m) h = ground arith

oldest-least :
    (m : Map PendingReliableKey PendingReliable) (k : PendingReliableKey) (t : ℕ)
    → oldest m ≡ some (k, t)
    → All (SentSince t) m
unfolding oldest
oldest-least [] k t h = tt
oldest-least ((j, item) ∷ m) k t h = elim (Option-cases (oldest m)) [
  | inl e ↦ (ground arith, rw (oldest-none m e) tt)
  | inr ((i, u), e) ↦ (ground arith, All-weaken t u m (ground arith) (oldest-least m i u e))
]

length-drop_oldest :
    (m : Map PendingReliableKey PendingReliable) → 0 < length m → length (drop_oldest m) < length m
unfolding drop_oldest
length-drop_oldest m h = elim (Option-cases (oldest m)) [
  | inl e ↦ absurd (omega (arith, ap length (oldest-none m e)))
  | inr ((k, t), e) ↦ rw (e, drop_oldest) (length-remove-lt k m (oldest-lookup m k t e))
]

-- No more than 4096 packets of a peer wait, and the one just recorded is among them with its bytes
-- and its time.
record_pending_reliable-bounds :
    (now channel_id sequence : ℕ) (bytes : Bytes) (state : PeerState)
    → length state.pending_reliable ≤ 4096
    → let built : BuiltPacket = record {
      bytes = bytes;
      reliable_key = some (channel_id, sequence);
    } in
      let state' = record_pending_reliable now built state in
      (length state'.pending_reliable ≤ 4096)
      × (lookup (pending_key channel_id sequence) state'.pending_reliable
          ≡ some (record { bytes = bytes; last_sent = now }))
unfolding record_pending_reliable
record_pending_reliable-bounds now channel_id sequence bytes state h =
    let pending = state.pending_reliable in
    let key = pending_key channel_id sequence in
    let item : PendingReliable = record { bytes = bytes; last_sent = now } in
    elim (Bool-cases (leb 4096 (length pending))) [
      | inl full ↦ rw full (
        omega (
          arith,
          length-insert-le key item (drop_oldest pending),
          length-drop_oldest pending (ground arith),
        ),
        lookup-insert_self key item (drop_oldest pending),
      )
      | inr room ↦
          rw room
            (ground (arith, length-insert-le key item pending), lookup-insert_self key item pending)
    ]

-- A full table forgets one packet, and no other was last sent before it.
drop_oldest-least :
    (m : Map PendingReliableKey PendingReliable)
    → 0 < length m
    → (k : PendingReliableKey) × (t : ℕ) × (drop_oldest m ≡ remove k m)
      × (is_some (lookup k m) ≡ true)
      × All (SentSince t) m
unfolding drop_oldest
drop_oldest-least m h = elim (Option-cases (oldest m)) [
  | inl e ↦ absurd (omega (arith, ap length (oldest-none m e)))
  | inr ((k, t), e) ↦ (k, t, rw (e, drop_oldest), oldest-lookup m k t e, oldest-least m k t e)
]
