-- ===== src/Core/Voice/Bitfield.antt =====
-- Recipients that are chosen by a field of bits.
use basis_rust_server.Common.{
  ℕ, zero, suc, ◌+◌, ◌-◌, ◌*◌, ◌%◌, ◌/◌, ◌^◌, ◌<◌, ◌≤◌, ◌≡◌, refl, sym, ap, ◌∙◌, Bool, false, List,
  [], ◌∷◌, ◌++◌, length, take, drop, ltb, leb, ◌==◌, not, ◌&&◌, ◌||◌, if◌then◌else◌, arith, inl,
  inr, ◌⊎◌, length-append, take-append, drop-append,
}
use basis_rust_server.Common.Maps.{insert, member, nat_key, lookup-insert_self}
use basis_rust_server.Common.Words.{
  Bytes, to_le_bytes, from_le_bytes, length-to_le_bytes, from_le_bytes-to_le_bytes,
}
use basis_rust_server.P2p.{is_offloaded}
use basis_rust_server.Core.{ServerState, is_authenticated}
use basis_rust_server.Core.Voice.{
  keep_ids, bits_of, ids_of_bytes, update_voice_recipients_bitfield, relay_voice_message,
}
use basis_rust_server.Core.Voice.Heard.{targets, member-keep_ids, relayed}

-- A bit of a byte, and one of a field, counted from the lowest one.
abbrev pub nth_bit : ℕ → ℕ → Bool
nth_bit zero byte = byte % 2 == 1
nth_bit (suc n) byte = nth_bit n (byte / 2)

abbrev pub bit_at : Bytes → ℕ → Bool
bit_at [] n = false
bit_at (byte ∷ bytes) n = if ltb n 8 then nth_bit n byte else bit_at bytes (n - 8)

member-append : (id : ℕ) (xs ys : List ℕ) → member id (xs ++ ys) ≡ (member id xs || member id ys)
unfolding member
member-append id [] ys = refl
member-append id (x ∷ xs) ys = ground (arith, member-append id xs ys)

lt_eq_gt : (m n : ℕ) → (m < n) ⊎ ((m ≡ n) ⊎ (n < m))
lt_eq_gt m n = ground arith

nth_bit_below :
    (base id byte : ℕ) → base < id → nth_bit (id - base) byte ≡ nth_bit (id - (base + 1)) (byte / 2)
nth_bit_below base id byte h =
    let next : id - base ≡ suc (id - (base + 1)) = omega (arith, h) in ap (λ n. nth_bit n byte) next

nth_bit_self : (base byte : ℕ) → nth_bit (base - base) byte ≡ (byte % 2 == 1)
nth_bit_self base byte = let here : base - base ≡ 0 = omega arith in ap (λ n. nth_bit n byte) here

member-bits_of :
    (left byte base id : ℕ)
    → base + left ≤ 2 ^ 16
    → member id (bits_of left byte base)
      ≡ (leb base id && ltb id (base + left) && nth_bit (id - base) byte)
unfolding member bits_of
member-bits_of zero byte base id h = ground arith
member-bits_of (suc left) byte base id h =
    let rest = member-bits_of left (byte / 2) (base + 1) id (omega (arith, h)) in
    elim (lt_eq_gt base id) [
      | inl below ↦ ground (arith, rest, nth_bit_below base id byte below)
      | inr (inl same) ↦ ground (arith, rest, nth_bit_self base byte, same)
      | inr (inr above) ↦ ground (arith, rest, above)
    ]

this_or_later :
    (x y : Bool) (byte : ℕ) (bytes : Bytes) (base id : ℕ)
    → x ≡ (leb base id && ltb id (base + 8) && nth_bit (id - base) byte)
    → y ≡ (leb (base + 8) id && bit_at bytes (id - (base + 8)))
    → (x || y) ≡ (leb base id && bit_at (byte ∷ bytes) (id - base))
this_or_later x y byte bytes base id p q =
    let later : bit_at bytes (id - base - 8) ≡ bit_at bytes (id - (base + 8)) =
      ap (bit_at bytes) (omega arith) in
    ground (arith, p, q, later)

member-ids_of_bytes :
    (bytes : Bytes) (base id : ℕ)
    → base + 8 * length bytes ≤ 2 ^ 16
    → member id (ids_of_bytes base bytes) ≡ (leb base id && bit_at bytes (id - base))
unfolding member ids_of_bytes
member-ids_of_bytes [] base id h = ground arith
member-ids_of_bytes (byte ∷ bytes) base id h =
    let rest = member-ids_of_bytes bytes (base + 8) id (omega (arith, h)) in
    let here = member-bits_of 8 byte base id (omega (arith, h)) in
    let both = member-append id (bits_of 8 byte base) (ids_of_bytes (base + 8) bytes) in
    both ∙ this_or_later _ _ byte bytes base id here rest

chosen_ids :
    (peer : ℕ) (payload field : Bytes) (state : ServerState)
    → from_le_bytes (take 2 payload) ≡ length field
    → 2 + length field ≤ length payload
    → take (length field) (drop 2 payload) ≡ field
    → update_voice_recipients_bitfield peer payload state ≡ record state {
      voice_recipients =
          insert peer
            (keep_ids (λ id. not (id == peer) && is_authenticated state id) (ids_of_bytes 0 field))
            state.voice_recipients;
    }
unfolding update_voice_recipients_bitfield
chosen_ids peer payload field state count fits whole =
    let enough : ltb (length payload) 2 ≡ false = ground (arith, fits) in
    let all : ltb (length payload) (2 + length field) ≡ false = ground (arith, fits) in
    rw (update_voice_recipients_bitfield, enough, count, all, whole) refl

-- Once a player has chosen its recipients by a field of bits, a voice of that player goes to exactly those
-- whose bits are set, who are signed in, are someone else, and have no direct link to the player. What
-- follows the field does not count.
pub heard_by_bits :
    (peer id : ℕ) (field tail voice : Bytes) (state : ServerState)
    → length field ≤ 8192
    → let payload = to_le_bytes 2 (length field) ++ (field ++ tail) in
      let after = update_voice_recipients_bitfield peer payload state in
      member id (targets (relay_voice_message after peer voice)) ≡ (
        not (id == peer)
        && is_authenticated state id
        && bit_at field id
        && not (is_offloaded peer id state.p2p_broker))
heard_by_bits peer id field tail voice state h =
    let payload = to_le_bytes 2 (length field) ++ (field ++ tail) in
    let test : ℕ → Bool = λ i. not (i == peer) && is_authenticated state i in
    let ids = keep_ids test (ids_of_bytes 0 field) in
    let after = record state { voice_recipients = insert peer ids state.voice_recipients } in
    let two = length-to_le_bytes 2 (length field) in
    let stored : update_voice_recipients_bitfield peer payload state ≡ after =
      chosen_ids peer payload field state
        (ap from_le_bytes (
            ap (λ n. take n payload) (sym two)
            ∙ take-append (to_le_bytes 2 (length field)) (field ++ tail))
          ∙ from_le_bytes-to_le_bytes 2 (length field) (omega (arith, h)))
        (omega (
          arith,
          two,
          length-append (to_le_bytes 2 (length field)) (field ++ tail),
          length-append field tail,
        ))
        (ap (take (length field)) (
            ap (λ n. drop n payload) (sym two)
            ∙ drop-append (to_le_bytes 2 (length field)) (field ++ tail))
          ∙ take-append field tail) in
    let listed = member-keep_ids test id (ids_of_bytes 0 field) in
    let bits = member-ids_of_bytes field 0 id (omega (arith, h)) in
    let heard =
      relayed peer id voice ids after (lookup-insert_self peer ids state.voice_recipients) in
    ap (λ (t : ServerState). member id (targets (relay_voice_message t peer voice))) stored
    ∙ ground (arith, heard, listed, bits)
