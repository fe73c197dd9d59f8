-- ===== src/Transport/Resend/Order.antt =====
-- A round of `reliable_resend_loop` sends the front of every queue, in its order and with numbers that
-- follow each other.
use basis_rust_server.Common.{
  ℕ, zero, suc, ◌+◌, ◌-◌, ◌%◌, ◌/◌, ◌<◌, ◌≡◌, refl, sym, ap, ◌∙◌, subst, List, [], ◌∷◌, ◌++◌, map,
  take, drop, some, Option, leb, ◌==◌, arith, Bool-cases, Option-cases, inl, inr,
}
use basis_rust_server.Common.Maps.{Map, lookup, insert, nat_key, HasKeysOnce, lookup-insert}
use basis_rust_server.Common.Words.{Bytes}
use basis_rust_server.Transport.Packet.{
  Message, channeled, delivery_from_channel_id, property_from_byte-header,
}
use basis_rust_server.Transport.Peer.{
  PeerState, PendingReliable, PendingReliableKey, or_default, channeled_bytes,
  next_channel_sequence, record_pending, record_pending_reliable, build_queued_reliable_packet,
}
use basis_rust_server.Transport.Peer.Packets.{channeled_bytes_lem, parse-channeled, read_packet}
use basis_rust_server.Transport.Handle.Peers.{nanoseconds}
use basis_rust_server.Transport.Resend.{
  ping_peer, drain_acks, capacity, newly_queued, still_queued, send_queued, resent, resend_peer,
}
use basis_rust_server.Transport.Resend.Window.{of_channel, newly_queued-of, still_queued-of}

-- What a queued payload is read as.
abbrev pub queued_message : ℕ → Bytes → Option Message
queued_message channel_id payload = some (record {
  channel = channel_id / 4;
  delivery = delivery_from_channel_id channel_id;
  payload = payload;
})

-- The packets of a channel, numbered from `sequence` on.
abbrev pub numbered : ℕ → ℕ → ℕ → List Bytes → List Bytes
numbered connection channel_id sequence [] = []
numbered connection channel_id sequence (payload ∷ payloads) =
    channeled_bytes connection sequence channel_id payload
    ∷ numbered connection channel_id ((sequence + 1) % 32768) payloads

-- The number after those of `payloads`.
abbrev pub number_after : ℕ → List Bytes → ℕ
number_after sequence [] = sequence
number_after sequence (payload ∷ payloads) = number_after ((sequence + 1) % 32768) payloads

abbrev pub next_number : ℕ → PeerState → ℕ
next_number c state = or_default 0 (lookup c state.next_reliable_sequence)

abbrev pub queue_of : ℕ → PeerState → List Bytes
queue_of c state = or_default [] (lookup c state.outgoing_reliable)

abbrev pub packet_of : ℕ × Bytes → Bytes
packet_of p = p.1

read-numbered :
    (c sequence channel_id : ℕ) (payloads : List Bytes)
    → c < 4
    → map read_packet (numbered c channel_id sequence payloads)
      ≡ map (queued_message channel_id) payloads
read-numbered c sequence channel_id [] hc = refl
read-numbered c sequence channel_id (payload ∷ payloads) hc =
    let read : read_packet (channeled_bytes c sequence channel_id payload)
        ≡ queued_message channel_id payload =
      rw (
        channeled_bytes_lem c sequence channel_id payload,
        property_from_byte-header channeled c hc,
        parse-channeled,
      ) in
    rw (read, read-numbered c ((sequence + 1) % 32768) channel_id payloads hc)

-- What `send_queued` makes of one channel.
record Sent (c : ℕ) (queued : List (ℕ × Bytes)) (state after : PeerState) (sent : List (ℕ × Bytes))
    : Type 0 where
  numbers :
      of_channel c sent
      ≡ numbered state.connection_number c (next_number c state) (of_channel c queued)
  next : next_number c after ≡ number_after (next_number c state) (of_channel c queued)
  queues : after.outgoing_reliable ≡ state.outgoing_reliable

Sent-cons :
    (c channel_id : ℕ) (payload : Bytes) (queued sent : List (ℕ × Bytes))
    (state mid after : PeerState)
    → mid.connection_number ≡ state.connection_number
    → mid.outgoing_reliable ≡ state.outgoing_reliable
    → mid.next_reliable_sequence
      ≡ insert channel_id ((next_number channel_id state + 1) % 32768) state.next_reliable_sequence
    → Sent c queued mid after sent
    → Sent c ((channel_id, payload) ∷ queued) state after (
        (
          channel_id,
          channeled_bytes state.connection_number (next_number channel_id state) channel_id payload,
        )
        ∷ sent)
Sent-cons c channel_id payload queued sent state mid after conn out seq s =
    let number = (next_number channel_id state + 1) % 32768 in
    let moved =
      ap (lookup c) seq ∙ lookup-insert channel_id c number state.next_reliable_sequence in
    elim (Bool-cases (channel_id == c)) [
      | inl same ↦ record {
        numbers = ground (arith, same, moved, conn, s.numbers);
        next = ground (arith, same, moved, s.next);
        queues = s.queues ∙ out;
      }
      | inr other ↦ record {
        numbers = ground (arith, other, moved, conn, s.numbers);
        next = ground (arith, other, moved, s.next);
        queues = s.queues ∙ out;
      }
    ]

send_queued-Sent :
    (now : ℕ) (queued : List (ℕ × Bytes)) (state : PeerState)
    → (sent : List (ℕ × Bytes)) × (map packet_of sent ≡ (send_queued now queued state).0)
      × ((c : ℕ) → Sent c queued state (send_queued now queued state).1 sent)
unfolding send_queued build_queued_reliable_packet record_pending_reliable record_pending
    next_channel_sequence
send_queued-Sent now [] state =
    ([], refl, λ c. record { numbers = refl; next = refl; queues = refl })
send_queued-Sent now ((channel_id, payload) ∷ queued) state =
    let built = build_queued_reliable_packet state channel_id payload in
    let mid = record_pending_reliable now built.0 built.1 in
    let (sent, packets, each) = send_queued-Sent now queued mid in
    let number = next_number channel_id state in
    let wrapped : (number + 1) % 65536 % 32768 ≡ (number + 1) % 32768 = omega arith in
    (
      (channel_id, channeled_bytes state.connection_number number channel_id payload) ∷ sent,
      ap (◌∷◌ built.0.bytes) packets,
      λ c.
          Sent-cons c channel_id payload queued sent state mid (send_queued now queued mid).1 refl
            refl (ap (λ n. insert channel_id n state.next_reliable_sequence) wrapped) (each c),
    )

-- What a round does to one channel.
pub record InOrder (c : ℕ) (state after : PeerState) (sent : List (ℕ × Bytes)) : Type 0 where
  pub numbers :
      of_channel c sent
      ≡ numbered state.connection_number c
          (next_number c state)
          (take (capacity c state.pending_reliable) (queue_of c state))
  pub next :
      next_number c after
      ≡ number_after
          (next_number c state)
          (take (capacity c state.pending_reliable) (queue_of c state))
  pub reads :
      map read_packet (of_channel c sent)
      ≡ map (queued_message c) (take (capacity c state.pending_reliable) (queue_of c state))
  pub left : queue_of c after ≡ drop (capacity c state.pending_reliable) (queue_of c state)

drop-nil : (n : ℕ) → drop {A = Bytes} n [] ≡ []
drop-nil zero = refl
drop-nil (suc n) = refl

queue-still_queued :
    (c : ℕ) (pending : Map PendingReliableKey PendingReliable) (outgoing : Map ℕ (List Bytes))
    → or_default [] (lookup c (still_queued pending outgoing))
      ≡ drop (capacity c pending) (or_default [] (lookup c outgoing))
queue-still_queued c pending outgoing = elim (Option-cases (lookup c outgoing)) [
  | inl e ↦ rw (still_queued-of c pending outgoing, e) (sym (drop-nil (capacity c pending)))
  | inr (queue, e) ↦ rw (still_queued-of c pending outgoing, e)
]

-- The round, once the ping is done.
Sent-InOrder :
    (c : ℕ) (state mid after : PeerState) (sent : List (ℕ × Bytes))
    → state.connection_number < 4
    → HasKeysOnce state.outgoing_reliable
    → mid.connection_number ≡ state.connection_number
    → mid.next_reliable_sequence ≡ state.next_reliable_sequence
    → mid.outgoing_reliable ≡ still_queued state.pending_reliable state.outgoing_reliable
    → Sent c (newly_queued state.pending_reliable state.outgoing_reliable) mid after sent
    → InOrder c state after sent
Sent-InOrder c state mid after sent hc once conn seq out s =
    let taken = newly_queued-of c state.pending_reliable state.outgoing_reliable once in
    let front = take (capacity c state.pending_reliable) (queue_of c state) in
    let start : next_number c mid ≡ next_number c state =
      ap (λ (t : Map ℕ ℕ). or_default 0 (lookup c t)) seq in
    let numbers : of_channel c sent
        ≡ numbered state.connection_number c (next_number c state) front =
      s.numbers
      ∙ ap
          (λ n.
            numbered n c (next_number c mid)
              (of_channel c (newly_queued state.pending_reliable state.outgoing_reliable)))
          conn
      ∙ ap
          (λ n.
            numbered state.connection_number c n
              (of_channel c (newly_queued state.pending_reliable state.outgoing_reliable)))
          start
      ∙ ap (numbered state.connection_number c (next_number c state)) taken in
    record {
      numbers = numbers;
      next =
          s.next
          ∙ ap
              (λ n.
                number_after n
                  (of_channel c (newly_queued state.pending_reliable state.outgoing_reliable)))
              start
          ∙ ap (number_after (next_number c state)) taken;
      reads =
          ap (map read_packet) numbers
          ∙ read-numbered state.connection_number (next_number c state) c front hc;
      left =
          ap (λ (t : Map ℕ (List Bytes)). or_default [] (lookup c t)) (s.queues ∙ out)
          ∙ queue-still_queued c state.pending_reliable state.outgoing_reliable;
    }

-- A ping changes none of the tables of packets.
record Pinged (state after : PeerState) : Type 0 where
  connection : after.connection_number ≡ state.connection_number
  numbers : after.next_reliable_sequence ≡ state.next_reliable_sequence
  pending : after.pending_reliable ≡ state.pending_reliable
  outgoing : after.outgoing_reliable ≡ state.outgoing_reliable

ping_peer-Pinged : (now : ℕ) (state : PeerState) → Pinged state (ping_peer now state).1
unfolding ping_peer
ping_peer-Pinged now state =
    elim (Bool-cases (leb (nanoseconds 1500) (now - state.last_ping_sent))) [
      | inl e ↦
          rw (ping_peer, e)
            (record { connection = refl; numbers = refl; pending = refl; outgoing = refl })
      | inr e ↦
          rw (ping_peer, e)
            (record { connection = refl; numbers = refl; pending = refl; outgoing = refl })
    ]

-- A round of a peer sends what `ping_peer` and `drain_acks` give, then packets for what it takes of the
-- queues, then what `resent` gives of a table, of which it leaves the packets that wait afterwards. Of
-- every channel it takes the front of the queue, as far as `capacity` goes, in the order of the queue
-- and one packet for each payload. Their numbers follow each other modulo 32768 from the next number of
-- the channel on, 0 if it has none, and the next number is then the one after them. The other end reads
-- them as these payloads. The rest of the queue stays. A channel has one queue in the table,
-- and the connection number is below 4.
pub resend_peer-order :
    (now : ℕ) (state : PeerState)
    → state.connection_number < 4
    → HasKeysOnce state.outgoing_reliable
    → let (packets, after) = resend_peer now state in
      let (pings, pinged) = ping_peer now state in
      (sent : List (ℕ × Bytes)) × (pending : Map PendingReliableKey PendingReliable) × (packets
        ≡ ((pings ++ (drain_acks pinged).0) ++ map packet_of sent) ++ (resent now pending).0)
      × (after.pending_reliable ≡ (resent now pending).1)
      × ((c : ℕ) → InOrder c state after sent)
unfolding resend_peer drain_acks
resend_peer-order now state hc once =
    let pinged = (ping_peer now state).1 in
    let kept = ping_peer-Pinged now state in
    let queued = newly_queued pinged.pending_reliable pinged.outgoing_reliable in
    let mid : PeerState = record pinged {
      outgoing_acks = [];
      outgoing_reliable = still_queued pinged.pending_reliable pinged.outgoing_reliable;
    } in
    let (sent, packets, each) = send_queued-Sent now queued mid in
    let end = (send_queued now queued mid).1 in
    let after : PeerState = record end { pending_reliable = (resent now end.pending_reliable).1 } in
    let acks = (drain_acks pinged).0 in
    (
      sent,
      end.pending_reliable,
      ap
          (λ (t : List Bytes).
            (((ping_peer now state).0 ++ acks) ++ t) ++ (resent now end.pending_reliable).0)
          (sym packets),
      refl,
      λ c.
          Sent-InOrder c state mid after sent hc once kept.connection kept.numbers
            (rw (kept.pending, kept.outgoing))
            (subst (λ q. Sent c q mid after sent) (rw (kept.pending, kept.outgoing))
              (record {
                numbers = (each c).numbers;
                next = (each c).next;
                queues = (each c).queues;
              })),
    )
