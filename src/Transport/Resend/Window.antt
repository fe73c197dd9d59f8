-- ===== src/Transport/Resend/Window.antt =====
-- A round of `reliable_resend_loop` keeps the window of every channel and the order of its queue.
use basis_rust_server.Common.{
  ℕ, zero, suc, ◌+◌, ◌-◌, ◌≤◌, ◌≡◌, refl, sym, ap, List, [], ◌∷◌, ◌++◌, length, map, take, drop,
  none, some, leb, ◌==◌, if◌then◌else◌, arith, Bool-cases, Option-cases, inl, inr, append-nil,
  length-take,
}
use basis_rust_server.Common.Maps.{Map, lookup, insert, remove, nat_key, HasKeysOnce}
use basis_rust_server.Common.Words.{Bytes}
use basis_rust_server.Transport.Peer.{
  next_channel_sequence, PeerState, PendingReliable, PendingReliableKey, pending_key,
  pending_key_key, or_default, oldest, drop_oldest, record_pending, record_pending_reliable,
  build_queued_reliable_packet, max_pending_reliable_per_peer,
}
use basis_rust_server.Transport.Handle.Peers.{nanoseconds}
use basis_rust_server.Transport.Resend.{
  ping_peer, drain_acks, pending_count, capacity, tag, newly_queued, still_queued, send_queued,
  is_due, resent, resend_peer,
}

abbrev one_in : ℕ → ℕ → ℕ
one_in c channel = if channel == c then 1 else 0

pending_count-insert-le :
    (c channel sequence : ℕ) (item : PendingReliable) (m : Map PendingReliableKey PendingReliable)
    → pending_count c (insert (pending_key channel sequence) item m)
      ≤ pending_count c m + one_in c channel
unfolding pending_count insert
pending_count-insert-le c channel sequence item [] = ground arith
pending_count-insert-le c channel sequence item ((pending_key h t, w) ∷ m) =
    ground (arith, pending_count-insert-le c channel sequence item m)

pending_count-remove-le :
    (c : ℕ) (k : PendingReliableKey) (m : Map PendingReliableKey PendingReliable)
    → pending_count c (remove k m) ≤ pending_count c m
unfolding pending_count remove
pending_count-remove-le c k [] = omega arith
pending_count-remove-le c k ((pending_key h t, w) ∷ m) =
    ground (arith, pending_count-remove-le c k m)

pending_count-drop_oldest-le :
    (c : ℕ) (m : Map PendingReliableKey PendingReliable)
    → pending_count c (drop_oldest m) ≤ pending_count c m
unfolding drop_oldest
pending_count-drop_oldest-le c m = elim (Option-cases (oldest m)) [
  | inl e ↦ rw (drop_oldest, e) (omega arith)
  | inr ((k, t), e) ↦ rw (drop_oldest, e) (pending_count-remove-le c k m)
]

-- The payloads of one channel.
abbrev pub of_channel : ℕ → List (ℕ × Bytes) → List Bytes
of_channel c [] = []
of_channel c ((channel, payload) ∷ queued) =
    if channel == c then payload ∷ of_channel c queued else of_channel c queued

record_pending-count :
    (c now channel sequence : ℕ) (bytes : Bytes) (state : PeerState)
    → pending_count c (record_pending now bytes (some (channel, sequence)) state).pending_reliable
      ≤ pending_count c state.pending_reliable + one_in c channel
unfolding record_pending
record_pending-count c now channel sequence bytes state =
    let pending = state.pending_reliable in
    elim (Bool-cases (leb max_pending_reliable_per_peer (length pending))) [
      | inl full ↦
          rw (record_pending, full)
            (omega (
              arith,
              pending_count-drop_oldest-le c pending,
              pending_count-insert-le c channel sequence (record { bytes = bytes; last_sent = now })
                  (drop_oldest pending),
            ))
      | inr room ↦
          rw (record_pending, room)
            (pending_count-insert-le c channel sequence (record { bytes = bytes; last_sent = now })
              pending)
    ]

send_queued-count :
    (c now : ℕ) (queued : List (ℕ × Bytes)) (state : PeerState)
    → pending_count c (send_queued now queued state).1.pending_reliable
      ≤ pending_count c state.pending_reliable + length (of_channel c queued)
unfolding send_queued record_pending_reliable build_queued_reliable_packet
send_queued-count c now [] state = omega arith
send_queued-count c now ((channel, payload) ∷ queued) state =
    let built = build_queued_reliable_packet state channel payload in
    let rest = send_queued-count c now queued (record_pending_reliable now built.0 built.1) in
    let sequence = (next_channel_sequence channel state.next_reliable_sequence).0 in
    ground (arith, rest, record_pending-count c now channel sequence built.0.bytes built.1)

tagged :
    (c channel : ℕ) (payloads : List Bytes)
    → of_channel c (map (tag channel) payloads) ≡ (if channel == c then payloads else [])
unfolding tag
tagged c channel [] = ground arith
tagged c channel (p ∷ ps) = ground (arith, tagged c channel ps)

of_channel-append :
    (c : ℕ) (xs ys : List (ℕ × Bytes))
    → of_channel c (xs ++ ys) ≡ of_channel c xs ++ of_channel c ys
of_channel-append c [] ys = refl
of_channel-append c ((channel, p) ∷ xs) ys = ground (arith, of_channel-append c xs ys)

-- A table without the channel gives nothing of it.
newly_queued-absent :
    (c : ℕ) (pending : Map PendingReliableKey PendingReliable) (outgoing : Map ℕ (List Bytes))
    → lookup c outgoing ≡ none
    → of_channel c (newly_queued pending outgoing) ≡ []
unfolding newly_queued lookup
newly_queued-absent c pending [] h = refl
newly_queued-absent c pending ((channel, queue) ∷ outgoing) h =
    let front = map (tag channel) (take (capacity channel pending) queue) in
    ground (
      arith,
      of_channel-append c front (newly_queued pending outgoing),
      tagged c channel (take (capacity channel pending) queue),
      newly_queued-absent c pending outgoing,
    )

pub take-nil : (n : ℕ) → take {A = Bytes} n [] ≡ []
take-nil zero = refl
take-nil (suc n) = refl

-- What is taken of a channel is the front of its queue, as far as the window has room.
pub newly_queued-of :
    (c : ℕ) (pending : Map PendingReliableKey PendingReliable) (outgoing : Map ℕ (List Bytes))
    → HasKeysOnce outgoing
    → of_channel c (newly_queued pending outgoing)
      ≡ take (capacity c pending) (or_default [] (lookup c outgoing))
unfolding newly_queued lookup
newly_queued-of c pending [] h = sym (take-nil (capacity c pending))
newly_queued-of c pending ((channel, queue) ∷ outgoing) h =
    let front = map (tag channel) (take (capacity channel pending) queue) in
    ground (
      arith,
      append-nil (take (capacity channel pending) queue),
      of_channel-append c front (newly_queued pending outgoing),
      tagged c channel (take (capacity channel pending) queue),
      newly_queued-of c pending outgoing h.1,
      newly_queued-absent c pending outgoing,
    )

pub still_queued-of :
    (c : ℕ) (pending : Map PendingReliableKey PendingReliable) (outgoing : Map ℕ (List Bytes))
    → lookup c (still_queued pending outgoing) ≡ elim (lookup c outgoing) [
      | none ↦ none
      | some queue ↦ some (drop (capacity c pending) queue)
    ]
unfolding still_queued lookup
still_queued-of c pending [] = refl
still_queued-of c pending ((channel, queue) ∷ outgoing) =
    ground (arith, still_queued-of c pending outgoing)

resent-count :
    (c now : ℕ) (pending : Map PendingReliableKey PendingReliable)
    → pending_count c (resent now pending).1 ≡ pending_count c pending
unfolding pending_count resent
resent-count c now [] = refl
resent-count c now ((pending_key h t, item) ∷ pending) = elim (Bool-cases (is_due now item)) [
  | inl e ↦ rw (resent, e) (ap (λ n. one_in c h + n) (resent-count c now pending))
  | inr e ↦ rw (resent, e) (ap (λ n. one_in c h + n) (resent-count c now pending))
]

ping_peer-keeps :
    (now : ℕ) (state : PeerState)
    → ((ping_peer now state).1.pending_reliable ≡ state.pending_reliable)
      × ((ping_peer now state).1.outgoing_reliable ≡ state.outgoing_reliable)
unfolding ping_peer
ping_peer-keeps now state =
    elim (Bool-cases (leb (nanoseconds 1500) (now - state.last_ping_sent))) [
      | inl e ↦ rw (ping_peer, e) (refl, refl)
      | inr e ↦ rw (ping_peer, e) (refl, refl)
    ]

-- A round never leaves more than 128 packets of a channel unacknowledged, if there were no more
-- before it.
pub resend_peer-bounds :
    (c now : ℕ) (state : PeerState)
    → HasKeysOnce state.outgoing_reliable
    → pending_count c state.pending_reliable ≤ 128
    → pending_count c (resend_peer now state).1.pending_reliable ≤ 128
unfolding resend_peer drain_acks capacity
resend_peer-bounds c now state once h =
    let pinged = (ping_peer now state).1 in
    let (same_pending, same_outgoing) = ping_peer-keeps now state in
    let queued = newly_queued pinged.pending_reliable pinged.outgoing_reliable in
    let before : PeerState = record pinged {
      outgoing_acks = [];
      outgoing_reliable = still_queued pinged.pending_reliable pinged.outgoing_reliable;
    } in
    let taken =
      newly_queued-of c pinged.pending_reliable pinged.outgoing_reliable (rw same_outgoing once) in
    omega (
      arith,
      resent-count c now (send_queued now queued before).1.pending_reliable,
      send_queued-count c now queued before,
      ap length taken,
      length-take (capacity c pinged.pending_reliable)
          (or_default [] (lookup c pinged.outgoing_reliable)),
      ap (pending_count c) same_pending,
      h,
    )
