-- ===== src/Transport/Merge/RoundTrip.antt =====
-- What `build_merged_datagrams` joins, `process_merged_packet` takes apart.
use mathlib.Core.List.{foldl, map-append}
use basis_rust_server.Common.{
  ℕ, suc, ◌+◌, ◌<◌, ◌≡◌, ◌≢◌, refl, sym, ap, ◌∙◌, true, false, List, [], ◌∷◌, ◌++◌, length, concat,
  concat-append, map, ltb, leb, ◌==◌, ◌&&◌, if◌then◌else◌, arith, All, All-append, append_assoc,
  append-nil, length-append, Bool-cases, inl, inr,
}
use basis_rust_server.Common.Words.{Bytes, to_le_bytes}
use basis_rust_server.Transport.Packet.{merged, header}
use basis_rust_server.Transport.Merge.{
  Merging, closed, flush, make_room, send_alone, append_packet, merge_packet, finish, start,
  build_merged_datagrams,
}
use basis_rust_server.Transport.Merge.Unmerge.{
  IsPacket, unmerge, framed, valid_nonempty, unmerge-packet, unmerge-framed, unpack-frame,
  framed-append,
}

-- `waiting` is what `current` holds, and with the datagrams built so far it makes up `done`.
record Holds (c : ℕ) (m : Merging) (done waiting : List Bytes) : Type 0 where
  out : concat (map unmerge m.datagrams) ++ waiting ≡ done
  held : m.current ≡ header merged c ∷ framed waiting
  counted : m.current_count ≡ length waiting
  good : All IsPacket waiting

pub unmerge_all-append :
    (ds : List Bytes) (d : Bytes)
    → concat (map unmerge (ds ++ (d ∷ []))) ≡ concat (map unmerge ds) ++ unmerge d
unmerge_all-append ds d =
    rw (map-append unmerge ds (d ∷ []), concat-append (map unmerge ds), append-nil)

unmerge-closed :
    (c : ℕ) (m : Merging) (done waiting : List Bytes)
    → c < 4
    → waiting ≢ []
    → Holds c m done waiting
    → unmerge (closed m) ≡ waiting
unfolding closed
unmerge-closed c m done [] hc ne h = absurd (ne refl)
unmerge-closed c m done (p ∷ []) hc ne h =
    rw
      (
        h.counted,
        h.held,
        unpack-frame (header merged c) p (valid_nonempty p h.good.0.valid) h.good.0.short,
      )
      (unmerge-packet p h.good.0)
unmerge-closed c m done (p ∷ q ∷ ps) hc ne h =
    let e : (suc (suc (length ps)) == 1) ≡ false = ground arith in
    rw (h.counted, h.held, e) (unmerge-framed c (p ∷ q ∷ ps) hc h.good)

flush-Holds :
    (c : ℕ) (m : Merging) (done waiting : List Bytes)
    → c < 4
    → waiting ≢ []
    → Holds c m done waiting
    → Holds c (flush c m) done []
unfolding flush
flush-Holds c m done waiting hc ne h = record {
  out =
      rw
        (
          append-nil,
          unmerge_all-append m.datagrams (closed m),
          unmerge-closed c m done waiting hc ne h,
        )
        h.out;
  held = refl;
  counted = refl;
  good = tt;
}

waits : (n : ℕ) (waiting : List Bytes) → 0 < n → n ≡ length waiting → waiting ≢ []
waits n [] h e = λ _. absurd (omega arith)
waits n (p ∷ ps) h e = λ f. cc

make_room-Holds :
    (c : ℕ) (packet : Bytes) (m : Merging) (done waiting : List Bytes)
    → c < 4
    → Holds c m done waiting
    → (waiting' : List Bytes) × Holds c (make_room c packet m) done waiting'
unfolding make_room
make_room-Holds c packet m done waiting hc h =
    let full = ltb 0 m.current_count && ltb 1200 (length m.current + (2 + length packet)) in
    elim (Bool-cases full) [
      | inl yes_full ↦ (
        [],
        rw yes_full (
            flush-Holds c m done waiting hc (waits m.current_count waiting (ground arith) h.counted)
              h),
      )
      | inr room ↦ (waiting, rw room h)
    ]

emptied :
    (c : ℕ) (m : Merging) (done waiting : List Bytes)
    → c < 4
    → Holds c m done waiting
    → Holds c (if ltb 0 m.current_count then flush c m else m) done []
emptied c m done [] hc h =
    let e : ltb 0 m.current_count ≡ false = ground (arith, h.counted) in rw e h
emptied c m done (p ∷ ps) hc h =
    let e : ltb 0 m.current_count ≡ true = ground (arith, h.counted) in
    rw e (flush-Holds c m done (p ∷ ps) hc (λ f. cc) h)

send_alone-Holds :
    (c : ℕ) (packet : Bytes) (m : Merging) (done waiting : List Bytes)
    → c < 4
    → IsPacket packet
    → Holds c m done waiting
    → Holds c (send_alone c packet m) (done ++ (packet ∷ [])) []
unfolding send_alone
send_alone-Holds c packet m done waiting hc good h =
    let m' = if ltb 0 m.current_count then flush c m else m in
    let h' : Holds c m' done [] = emptied c m done waiting hc h in
    record {
      out =
          append-nil _
          ∙ unmerge_all-append m'.datagrams packet
          ∙ rw (unmerge-packet packet good)
              (ap (λ (t : List Bytes). t ++ (packet ∷ [])) (sym (append-nil _) ∙ h'.out));
      held = h'.held;
      counted = h'.counted;
      good = tt;
    }

append_packet-Holds :
    (c : ℕ) (packet : Bytes) (m : Merging) (done waiting : List Bytes)
    → IsPacket packet
    → Holds c m done waiting
    → Holds c (append_packet packet m) (done ++ (packet ∷ [])) (waiting ++ (packet ∷ []))
unfolding append_packet
append_packet-Holds c packet m done waiting good h = record {
  out =
      sym (append_assoc _ waiting (packet ∷ []))
      ∙ ap (λ (t : List Bytes). t ++ (packet ∷ [])) h.out;
  held = ground (
    arith,
    framed-append waiting packet,
    append_assoc (framed waiting) (to_le_bytes 2 (length packet)) packet,
    good.short,
  );
  counted = omega (arith, h.counted, length-append waiting (packet ∷ []));
  good = All-append IsPacket waiting (packet ∷ []) h.good (good, tt);
}

merge_packet-Holds :
    (c : ℕ) (packet : Bytes) (m : Merging) (done waiting : List Bytes)
    → c < 4
    → IsPacket packet
    → Holds c m done waiting
    → (waiting' : List Bytes) × Holds c (merge_packet c m packet) (done ++ (packet ∷ [])) waiting'
unfolding merge_packet
merge_packet-Holds c packet m done waiting hc good h =
    let (w, h') = make_room-Holds c packet m done waiting hc h in
    elim (Bool-cases (ltb 1200 (2 + length packet + 1))) [
      | inl large ↦
          ([], rw large (send_alone-Holds c packet (make_room c packet m) done w hc good h'))
      | inr small ↦ (
        w ++ (packet ∷ []),
        rw small (append_packet-Holds c packet (make_room c packet m) done w good h'),
      )
    ]

foldl-Holds :
    (c : ℕ) (packets : List Bytes) (m : Merging) (done waiting : List Bytes)
    → c < 4
    → All IsPacket packets
    → Holds c m done waiting
    → (waiting' : List Bytes) × Holds c
        (foldl (merge_packet c) m packets)
        (done ++ packets)
        waiting'
foldl-Holds c [] m done waiting hc good h = (waiting, rw append-nil h)
foldl-Holds c (p ∷ ps) m done waiting hc good h =
    let (w, h') = merge_packet-Holds c p m done waiting hc good.0 h in
    rw (← append_assoc done (p ∷ []) ps)
      (foldl-Holds c ps (merge_packet c m p) (done ++ (p ∷ [])) w hc good.1 h')

unmerge-finish :
    (c : ℕ) (m : Merging) (done waiting : List Bytes)
    → c < 4
    → Holds c m done waiting
    → concat (map unmerge (finish m)) ≡ done
unfolding finish
unmerge-finish c m done [] hc h =
    let e : ltb 0 m.current_count ≡ false = ground (arith, h.counted) in
    rw e (sym (append-nil _) ∙ h.out)
unmerge-finish c m done (p ∷ ps) hc h =
    let e : ltb 0 m.current_count ≡ true = ground (arith, h.counted) in
    rw e (
      unmerge_all-append m.datagrams (closed m)
      ∙ rw (unmerge-closed c m done (p ∷ ps) hc (λ f. cc) h) h.out)

unmerge-bare : (ps : List Bytes) → All IsPacket ps → concat (map unmerge ps) ≡ ps
unmerge-bare [] h = refl
unmerge-bare (p ∷ ps) h = rw (unmerge-packet p h.0) (ap (◌∷◌ p) (unmerge-bare ps h.1))

-- Whatever whole packets are joined, taking the datagrams apart in the order in which they were
-- built gives back these packets, each once and in their order.
pub unmerge-build_merged_datagrams :
    (c : ℕ) (packets : List Bytes)
    → c < 4
    → All IsPacket packets
    → concat (map unmerge (build_merged_datagrams c packets)) ≡ packets
unfolding build_merged_datagrams
unmerge-build_merged_datagrams c packets hc good = elim (Bool-cases (leb (length packets) 1)) [
  | inl few ↦ rw few (unmerge-bare packets good)
  | inr many ↦
      let (w, h) =
        foldl-Holds c packets (start c) [] [] hc good
          (record { out = refl; held = refl; counted = refl; good = tt }) in
      rw many (unmerge-finish c (foldl (merge_packet c) (start c) packets) packets w hc h)
]
