-- ===== src/Transport/Peer/Acked.antt =====
-- Acknowledgements from the one end to the other: the receiver queues the sequences that come in, and
-- the sender drops packets from its table.
use basis_rust_server.Common.{
  ℕ, suc, ◌+◌, ◌%◌, ◌^◌, ◌<◌, ◌≡◌, refl, ◌∙◌, Bool, false, List, [], ◌∷◌, length, none, some, ltb,
  leb, ◌==◌, ◌&&◌, ◌||◌, if◌then◌else◌, arith,
}
use basis_rust_server.Common.Maps.{
  lookup, lookup-insert_self, lookup-retain_keys, retain_keys, nat_key,
}
use basis_rust_server.Common.Words.{to_le_bytes, from_le_bytes-to_le_bytes}
use basis_rust_server.Transport.Acks.{AckState, fresh_ack, queue_in_window, build_ack_packet}
use basis_rust_server.Transport.Acks.Window.{
  Tracks, moved, with_sequence, queue_in_window-Tracks, fresh_ack-Tracks, is_acked-Tracks,
}
use basis_rust_server.Transport.Peer.{
  PeerState, pending_key, pending_key_key, keeps_pending, process_ack, queue_ack,
}

-- The sequences of a channel as they come in, the first one at `first`: each lies within half a round
-- of where the window stands.
abbrev pub Arrivals : ℕ → List ℕ → Type 0
Arrivals w [] = Unit {0}
Arrivals w (s ∷ ss) = (w < s + 16384) × (s < w + 16384) × Arrivals (moved w s) ss

abbrev pub window_after : ℕ → List ℕ → ℕ
window_after w [] = w
window_after w (s ∷ ss) = window_after (moved w s) ss

abbrev pub contains : List ℕ → ℕ → Bool
contains [] t = false
contains (s ∷ ss) t = s == t || contains ss t

abbrev pub receive_all : ℕ → List ℕ → PeerState → PeerState
receive_all channel_id [] state = state
receive_all channel_id (s ∷ ss) state =
    receive_all channel_id ss (queue_ack channel_id (s % 32768) state)

queued_after : (ℕ → Bool) → List ℕ → ℕ → Bool
queued_after queued [] = queued
queued_after queued (s ∷ ss) = queued_after (with_sequence s queued) ss

queued_after_lem :
    (queued : ℕ → Bool) (ss : List ℕ) (t : ℕ)
    → queued_after queued ss t ≡ (contains ss t || queued t)
unfolding queued_after
queued_after_lem queued [] t = refl
queued_after_lem queued (s ∷ ss) t = ground (arith, queued_after_lem (with_sequence s queued) ss t)

-- The state of the channel's acknowledgement after a step.
abbrev Holds : PeerState → ℕ → ℕ → (ℕ → Bool) → Type 0
Holds state channel_id w queued =
    (a : AckState) × (lookup channel_id state.outgoing_acks ≡ some a) × Tracks a w queued

queue_ack-Holds :
    (channel_id w s : ℕ) (state : PeerState) (queued : ℕ → Bool)
    → w < s + 16384
    → s < w + 16384
    → Holds state channel_id w queued
    → Holds (queue_ack channel_id (s % 32768) state) channel_id (moved w s) (with_sequence s queued)
unfolding queue_ack
queue_ack-Holds channel_id w s state queued h k (a, e, v) = (
  queue_in_window (s % 32768) a,
  rw e (lookup-insert_self channel_id (queue_in_window (s % 32768) a) state.outgoing_acks),
  queue_in_window-Tracks a w s queued h k v,
)

first-Holds :
    (channel_id s : ℕ) (state : PeerState)
    → lookup channel_id state.outgoing_acks ≡ none
    → Holds
        (queue_ack channel_id (s % 32768) state)
        channel_id
        (moved s s)
        (with_sequence s (λ _. false))
unfolding queue_ack
first-Holds channel_id s state e = (
  queue_in_window (s % 32768) (fresh_ack (s % 32768)),
  rw e (
      lookup-insert_self channel_id (queue_in_window (s % 32768) (fresh_ack (s % 32768)))
        state.outgoing_acks),
  queue_in_window-Tracks (fresh_ack (s % 32768)) s s (λ _. false) (omega arith) (omega arith)
      (fresh_ack-Tracks s),
)

receive_all-Holds :
    (channel_id w : ℕ) (ss : List ℕ) (state : PeerState) (queued : ℕ → Bool)
    → Arrivals w ss
    → Holds state channel_id w queued
    → Holds
        (receive_all channel_id ss state)
        channel_id
        (window_after w ss)
        (queued_after queued ss)
unfolding queued_after
receive_all-Holds channel_id w [] state queued h v = v
receive_all-Holds channel_id w (s ∷ ss) state queued h v =
    receive_all-Holds channel_id (moved w s) ss (queue_ack channel_id (s % 32768) state)
      (with_sequence s queued) h.2 (queue_ack-Holds channel_id w s state queued h.0 h.1 v)

-- What a sender reads from an acknowledgement is what the receiver put into it.
pending-process_ack :
    (connection channel_id : ℕ) (a : AckState) (sender : PeerState)
    → a.window_start < 2 ^ 16
    → (process_ack (build_ack_packet connection channel_id a) sender).pending_reliable
      ≡ retain_keys (keeps_pending a.window_start channel_id a.bits) sender.pending_reliable
unfolding process_ack build_ack_packet to_le_bytes
pending-process_ack connection channel_id a sender h =
    let read = from_le_bytes-to_le_bytes 2 a.window_start h in
    let long : ltb (suc (suc (suc (suc (length a.bits))))) 4 ≡ false = ground arith in
    rw (long, read)

process_ack-build_ack_packet :
    (connection channel_id c w t : ℕ) (a : AckState) (queued : ℕ → Bool) (sender : PeerState)
    → w < t + 16384
    → t < w + 16384
    → Tracks a w queued
    → lookup
        (pending_key c (t % 32768))
        (process_ack (build_ack_packet connection channel_id a) sender).pending_reliable
      ≡ (if c == channel_id && (leb w t && ltb t (w + 128) && queued t)
          then none
          else lookup (pending_key c (t % 32768)) sender.pending_reliable)
unfolding keeps_pending
process_ack-build_ack_packet connection channel_id c w t a queued sender h k v =
    rw (pending-process_ack connection channel_id a sender (omega (arith, Tracks.start v))) (
      lookup-retain_keys (keeps_pending a.window_start channel_id a.bits)
        (pending_key c (t % 32768)) sender.pending_reliable
      ∙ ground (arith, is_acked-Tracks a w t queued h k v))

-- A receiver takes in the sequences `first ∷ ss` of a channel that it has nothing to acknowledge of,
-- each less than half a round from the window as it stands then, and acknowledges them. The window ends
-- up at `w`, which is `first` or, if that is further, 127 places before the furthest sequence. Of the
-- packets whose sequence is less than half a round from `w`, the sender drops exactly those of the
-- channel that came in and lie in the 128 places from `w` on. A packet that came in but lies before
-- `w`, since it was sent before the first one or has fallen out, is kept.
pub acknowledged :
    (channel_id first connection : ℕ) (ss : List ℕ) (receiver sender : PeerState)
    → lookup channel_id receiver.outgoing_acks ≡ none
    → Arrivals first ss
    → let w = window_after first ss in
      (a : AckState) × (lookup channel_id
          (receive_all channel_id (first ∷ ss) receiver).outgoing_acks
        ≡ some a)
      × ((c t : ℕ)
          → w < t + 16384
          → t < w + 16384
          → lookup
              (pending_key c (t % 32768))
              (process_ack (build_ack_packet connection channel_id a) sender).pending_reliable
            ≡ (if c == channel_id && (leb w t && ltb t (w + 128) && contains (first ∷ ss) t)
                then none
                else lookup (pending_key c (t % 32768)) sender.pending_reliable))
acknowledged channel_id first connection ss receiver sender e arrivals =
    let once : moved first first ≡ first = ground arith in
    let start = rw once at (first-Holds channel_id first receiver e) in
    let (a, found, v) =
      receive_all-Holds channel_id first ss (queue_ack channel_id (first % 32768) receiver)
        (with_sequence first (λ _. false)) arrivals start in
    (
      a,
      found,
      λ c t h k.
          let same : queued_after (with_sequence first (λ _. false)) ss t
              ≡ contains (first ∷ ss) t =
            queued_after_lem (with_sequence first (λ _. false)) ss t ∙ ground arith in
          rw (← same) (
            process_ack-build_ack_packet connection channel_id c (window_after first ss) t a
              (queued_after (with_sequence first (λ _. false)) ss) sender h k v),
    )
