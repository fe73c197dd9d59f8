-- ===== src/Transport/Handle/Sending/FastPath.antt =====
-- `try_send_many_unreliable_bytes` joins packets in its own loop: the other end takes the same packets
-- out of its datagrams as out of those of `build_merged_datagrams`.
use basis_rust_server.Common.{
  ℕ, ◌+◌, ◌%◌, ◌^◌, ◌<◌, ◌≡◌, refl, sym, ap, ◌∙◌, subst, true, false, List, [], ◌∷◌, ◌++◌, length,
  map, concat, All, some, ltb, ◌&&◌, arith, Bool-cases, ◌⊎◌, inl, inr, append-nil, append_assoc,
  length-append, All-append,
}
use mathlib.Core.List.{map-append}
use basis_rust_server.Common.Maps.{lookup, nat_key}
use basis_rust_server.Common.Words.{Bytes, to_le_bytes}
use basis_rust_server.Transport.Address.{SocketAddr}
use basis_rust_server.Transport.Packet.{
  unreliable, merged, header, is_valid_merged_packet, property_from_byte-header,
}
use basis_rust_server.Transport.Merge.RoundTrip.{unmerge_all-append}
use basis_rust_server.Transport.Merge.Unmerge.{
  IsPacket, unmerge, framed, unmerge-packet, unmerge-framed, framed-append,
}
use basis_rust_server.Transport.Peer.{PeerState}
use basis_rust_server.Transport.Handle.{TransportHandle, try_send_raw_to}
use basis_rust_server.Transport.Handle.Sending.{
  Direct, direct_packet, direct_send, empty_datagram, direct_room, direct_append, direct_step,
  direct_all, direct_end, try_send_many_unreliable_bytes,
}

abbrev pub to_addr : SocketAddr → Bytes → SocketAddr × Bytes
to_addr addr d = (addr, d)

-- A payload that fits a datagram.
abbrev pub IsShort : ℕ × Bytes → Type 0
IsShort p = length p.1 + 2 < 2 ^ 16

pub direct_packet-IsPacket :
    (c : ℕ) (p : ℕ × Bytes) → c < 4 → IsShort p → IsPacket (direct_packet c p)
unfolding direct_packet is_valid_merged_packet
direct_packet-IsPacket c (channel, payload) hc h =
    let e = property_from_byte-header unreliable c hc in
    record {
      valid = rw (is_valid_merged_packet, e) (ground arith);
      plain = λ f. absurd cc;
      short = omega arith;
    }

-- What the loop has sent, `ds`, and what `current` holds, `waiting`, make up `done`.
record Streams (c : ℕ) (addr : SocketAddr) (before : List (SocketAddr × Bytes)) (d : Direct)
    (ds done waiting : List Bytes) : Type 0 where
  log : d.handle.socket.sent ≡ before ++ map (to_addr addr) ds
  free : d.handle.socket.would_block ≡ []
  out : concat (map unmerge ds) ++ waiting ≡ done
  held : d.current ≡ header merged c ∷ framed waiting
  counted : d.current_count ≡ length waiting
  good : All IsPacket waiting

pub try_send_log :
    (addr : SocketAddr) (bytes : Bytes) (handle : TransportHandle)
    → handle.socket.would_block ≡ []
    → let after = (try_send_raw_to bytes addr handle).1 in
      (after.socket.sent ≡ handle.socket.sent ++ ((addr, bytes) ∷ []))
      × (after.socket.would_block ≡ [])
unfolding try_send_raw_to
try_send_log addr bytes handle free = rw (try_send_raw_to, free) (refl, refl)

module _ (c : ℕ) (addr : SocketAddr) (before : List (SocketAddr × Bytes)) (hc : c < 4) where
  send-log :
      (d : Direct) (ds : List Bytes) (bytes : Bytes)
      → d.handle.socket.sent ≡ before ++ map (to_addr addr) ds
      → d.handle.socket.would_block ≡ []
      → let after = (direct_send addr bytes d).handle in
        (after.socket.sent ≡ before ++ map (to_addr addr) (ds ++ (bytes ∷ [])))
        × (after.socket.would_block ≡ [])
  unfolding direct_send
  send-log d ds bytes log free =
      let (sent, still) = try_send_log addr bytes d.handle free in
      (
        sent
            ∙ rw (log, map-append (to_addr addr) ds (bytes ∷ []))
                (append_assoc before (map (to_addr addr) ds) ((addr, bytes) ∷ [])),
        still,
      )

  -- `current` goes out and starts again.
  flush-Streams :
      (d : Direct) (ds done waiting : List Bytes)
      → Streams c addr before d ds done waiting
      → Streams c addr before
          (record (direct_send addr d.current d) { current = empty_datagram c; current_count = 0 })
          (ds ++ (d.current ∷ []))
          done
          []
  flush-Streams d ds done waiting s = record {
    log = (send-log d ds d.current s.log s.free).0;
    free = (send-log d ds d.current s.log s.free).1;
    out =
        rw (append-nil, unmerge_all-append ds d.current, s.held, unmerge-framed c waiting hc s.good)
          s.out;
    held = refl;
    counted = refl;
    good = tt;
  }

  -- Room is made, and what waits then is nothing or has room.
  room-Streams :
      (d : Direct) (n : ℕ) (ds done waiting : List Bytes)
      → Streams c addr before d ds done waiting
      → (ds' : List Bytes) × (waiting' : List Bytes) × Streams c addr before
          (direct_room addr c n d)
          ds'
          done
          waiting'
        × ((waiting' ≡ []) ⊎ (n < 1200))
  unfolding direct_room
  room-Streams d n ds done waiting s =
      let full = ltb 0 d.current_count && ltb 1200 (length d.current + n) in
      elim (Bool-cases full) [
        | inl e ↦ (
          ds ++ (d.current ∷ []),
          [],
          rw (direct_room, e) (flush-Streams d ds done waiting s),
          inl refl,
        )
        | inr e ↦ (ds, waiting, rw (direct_room, e) s, fits waiting s.counted s.held e)
      ]
    where
      fits :
          (w : List Bytes)
          → d.current_count ≡ length w
          → d.current ≡ header merged c ∷ framed w
          → (ltb 0 d.current_count && ltb 1200 (length d.current + n)) ≡ false
          → (w ≡ []) ⊎ (n < 1200)
      fits [] k h e = inl refl
      fits (p ∷ ps) k h e = inr (ground (arith, ap length h))

  append-Streams :
      (d : Direct) (ds done waiting : List Bytes) (p : ℕ × Bytes)
      → IsShort p
      → Streams c addr before d ds done waiting
      → Streams c addr before
          (direct_append c p d)
          ds
          (done ++ (direct_packet c p ∷ []))
          (waiting ++ (direct_packet c p ∷ []))
  unfolding direct_append
  append-Streams d ds done waiting (channel, payload) h s = record {
    log = s.log;
    free = s.free;
    out =
        sym (append_assoc _ waiting (direct_packet c (channel, payload) ∷ []))
        ∙ ap (λ (t : List Bytes). t ++ (direct_packet c (channel, payload) ∷ [])) s.out;
    held =
        let q = direct_packet c (channel, payload) in
        let size : (length payload + 2) % 65536 ≡ length q = omega (arith, h) in
        ap (λ n. (d.current ++ to_le_bytes 2 n) ++ q) size
        ∙ ap (λ (t : Bytes). (t ++ to_le_bytes 2 (length q)) ++ q) s.held
        ∙ append_assoc (header merged c ∷ framed waiting) (to_le_bytes 2 (length q)) q
        ∙ ap (◌∷◌ (header merged c)) (sym (framed-append waiting q));
    counted =
        omega (arith, s.counted, length-append waiting (direct_packet c (channel, payload) ∷ []));
    good =
        All-append IsPacket waiting (direct_packet c (channel, payload) ∷ []) s.good
          (direct_packet-IsPacket c (channel, payload) hc h, tt);
  }

  alone-Streams :
      (d : Direct) (ds done : List Bytes) (p : ℕ × Bytes)
      → IsShort p
      → Streams c addr before d ds done []
      → Streams c addr before
          (direct_send addr (direct_packet c p) d)
          (ds ++ (direct_packet c p ∷ []))
          (done ++ (direct_packet c p ∷ []))
          []
  unfolding direct_send
  alone-Streams d ds done p h s = record {
    log = (send-log d ds (direct_packet c p) s.log s.free).0;
    free = (send-log d ds (direct_packet c p) s.log s.free).1;
    out =
        rw
          (
            append-nil,
            unmerge_all-append ds (direct_packet c p),
            unmerge-packet (direct_packet c p) (direct_packet-IsPacket c p hc h),
          )
          (ap (λ (t : List Bytes). t ++ (direct_packet c p ∷ [])) (sym (append-nil _) ∙ s.out));
    held = s.held;
    counted = s.counted;
    good = tt;
  }

  -- One packet of the loop.
  step-Streams :
      (d : Direct) (ds done waiting : List Bytes) (p : ℕ × Bytes)
      → IsShort p
      → Streams c addr before d ds done waiting
      → (ds' : List Bytes) × (waiting' : List Bytes) × Streams c addr before
          (direct_step addr c p d)
          ds'
          (done ++ (direct_packet c p ∷ []))
          waiting'
  unfolding direct_step
  step-Streams d ds done waiting (channel, payload) h s =
      let n = length payload + 2 + 2 in
      let (ds1, waiting1, s1, room) = room-Streams d n ds done waiting s in
      let ready = direct_room addr c n d in
      elim (Bool-cases (ltb 1200 (n + 1))) [
        | inl long ↦
            let nothing : waiting1 ≡ [] = elim room [ inl e ↦ e | inr k ↦ absurd (ground arith) ] in
            (
              ds1 ++ (direct_packet c (channel, payload) ∷ []),
              [],
              rw (direct_step, long)
                  (alone-Streams ready ds1 done (channel, payload) h
                    (subst (Streams c addr before ready ds1 done) nothing s1)),
            )
        | inr fits ↦ (
          ds1,
          waiting1 ++ (direct_packet c (channel, payload) ∷ []),
          rw (direct_step, fits) (append-Streams ready ds1 done waiting1 (channel, payload) h s1),
        )
      ]

  direct_all-Streams :
      (d : Direct) (ds done waiting : List Bytes) (ps : List (ℕ × Bytes))
      → All IsShort ps
      → Streams c addr before d ds done waiting
      → (ds' : List Bytes) × (waiting' : List Bytes) × Streams c addr before
          (direct_all addr c ps d)
          ds'
          (done ++ map (direct_packet c) ps)
          waiting'
  unfolding direct_all
  direct_all-Streams d ds done waiting [] h s =
      (ds, waiting, subst (λ t. Streams c addr before d ds t waiting) (sym (append-nil done)) s)
  direct_all-Streams d ds done waiting (p ∷ ps) h s =
      let (ds1, waiting1, s1) = step-Streams d ds done waiting p h.0 s in
      let (ds2, waiting2, s2) =
        direct_all-Streams (direct_step addr c p d) ds1 (done ++ (direct_packet c p ∷ [])) waiting1
          ps h.1 s1 in
      (
        ds2,
        waiting2,
        subst
            (λ t.
              Streams c addr before (direct_all addr c ps (direct_step addr c p d)) ds2 t waiting2)
            (append_assoc done (direct_packet c p ∷ []) (map (direct_packet c) ps)) s2,
      )

  end-Streams :
      (d : Direct) (ds done waiting : List Bytes)
      → Streams c addr before d ds done waiting
      → (ds' : List Bytes) × ((direct_end addr d).1.socket.sent ≡ before ++ map (to_addr addr) ds')
        × (concat (map unmerge ds') ≡ done)
  unfolding direct_end
  end-Streams d ds done [] s =
      let e : ltb 0 d.current_count ≡ false = ground (arith, s.counted) in
      (ds, rw (direct_end, e) s.log, sym (append-nil _) ∙ s.out)
  end-Streams d ds done (p ∷ ps) s =
      let e : ltb 0 d.current_count ≡ true = ground (arith, s.counted) in
      let f = flush-Streams d ds done (p ∷ ps) s in
      (ds ++ (d.current ∷ []), rw (direct_end, e) f.log, sym (append-nil _) ∙ f.out)

-- Unreliable messages go out, on a socket that takes everything, in datagrams to the address of the
-- peer, out of which the other end takes exactly the packets of these messages, in their order. No
-- payload is longer than a datagram.
pub try_send_many_unreliable_bytes_lem :
    (id : ℕ) (ps : List (ℕ × Bytes)) (state : PeerState) (handle : TransportHandle)
    → lookup id handle.peers ≡ some state
    → state.connection_number < 4
    → handle.socket.would_block ≡ []
    → All IsShort ps
    → (ds : List Bytes) × ((try_send_many_unreliable_bytes id ps handle).1.socket.sent
        ≡ handle.socket.sent ++ map (to_addr state.addr) ds)
      × (concat (map unmerge ds) ≡ map (direct_packet state.connection_number) ps)
unfolding try_send_many_unreliable_bytes
try_send_many_unreliable_bytes_lem id [] state handle e hc free h = ([], sym (append-nil _), refl)
try_send_many_unreliable_bytes_lem id (p ∷ []) state handle e hc free h =
    let c = state.connection_number in
    (
      direct_packet c p ∷ [],
      rw (try_send_many_unreliable_bytes, e)
          ((try_send_log state.addr (direct_packet c p) handle free).0),
      append-nil _ ∙ unmerge-packet (direct_packet c p) (direct_packet-IsPacket c p hc h.0),
    )
try_send_many_unreliable_bytes_lem id (p ∷ q ∷ ps) state handle e hc free h =
    let c = state.connection_number in
    let d : Direct = record {
      current = empty_datagram c;
      current_count = 0;
      sent = 0;
      handle = handle;
    } in
    let s : Streams c state.addr handle.socket.sent d [] [] [] = record {
      log = sym (append-nil _);
      free = free;
      out = refl;
      held = refl;
      counted = refl;
      good = tt;
    } in
    let (ds, waiting, s1) =
      direct_all-Streams c state.addr handle.socket.sent hc d [] [] [] (p ∷ q ∷ ps) h s in
    let (out, log, parts) =
      end-Streams c state.addr handle.socket.sent hc (direct_all state.addr c (p ∷ q ∷ ps) d) ds
        (map (direct_packet c) (p ∷ q ∷ ps)) waiting s1 in
    (out, rw (try_send_many_unreliable_bytes, e) log, parts)
