-- ===== src/Transport/Acks/Window.antt =====
-- The window of an acknowledgement holds exactly the sequences that came in. Sequences are numbers
-- without end here, of which the program keeps the remainder by 32768.
use basis_rust_server.Common.{
  ℕ, suc, ◌+◌, ◌-◌, ◌%◌, ◌<◌, ◌≤◌, ◌≡◌, refl, Bool, true, false, ltb, leb, ◌==◌, not, ◌&&◌, ◌||◌,
  if◌then◌else◌, arith, replicate, Bool-cases, ◌⊎◌, inl, inr,
}
use basis_rust_server.Common.Bits.{all_below, all_below→all, test_bit}
use basis_rust_server.Common.Int.{pos, negsuc}
use basis_rust_server.Transport.Acks.Bits.{
  IsBitmap, acked_at-set_mark, set_mark-IsBitmap, clear_marks-IsBitmap, acked_at-clear_marks,
}
use basis_rust_server.Transport.Acks.{
  AckState, relative_sequence, clear_marks, slide, mark, fresh_ack, queue_in_window, acked_at,
  is_acked,
}

relative_sequence-pos :
    (a b r : ℕ)
    → a < 32768
    → b < 32768
    → r < 16384
    → (a ≡ b + r) ⊎ (a + 32768 ≡ b + r)
    → relative_sequence a b ≡ pos r
unfolding relative_sequence
relative_sequence-pos a b r ha hb hr (inl e) = ground arith
relative_sequence-pos a b r ha hb hr (inr e) = ground arith

relative_sequence-negsuc :
    (a b r : ℕ)
    → a < 32768
    → b < 32768
    → r < 16383
    → (b ≡ a + suc r) ⊎ (b + 32768 ≡ a + suc r)
    → relative_sequence a b ≡ negsuc r
unfolding relative_sequence
relative_sequence-negsuc a b r ha hb hr (inl e) = ground arith
relative_sequence-negsuc a b r ha hb hr (inr e) = ground arith

mod_near :
    (w r : ℕ)
    → r < 16384
    → ((w + r) % 32768 ≡ w % 32768 + r) ⊎ ((w + r) % 32768 + 32768 ≡ w % 32768 + r)
mod_near w r h = omega arith

-- A sequence that is `r` ahead, less than half a round, is seen `r` ahead across the wrap.
pub relative_sequence-ahead :
    (w r : ℕ) → r < 16384 → relative_sequence ((w + r) % 32768) (w % 32768) ≡ pos r
relative_sequence-ahead w r h =
    relative_sequence-pos ((w + r) % 32768) (w % 32768) r (omega arith) (omega arith) h
      (mod_near w r h)

-- And one that is behind is seen behind.
pub relative_sequence-behind :
    (s r : ℕ) → r < 16383 → relative_sequence (s % 32768) ((s + suc r) % 32768) ≡ negsuc r
relative_sequence-behind s r h =
    relative_sequence-negsuc (s % 32768) ((s + suc r) % 32768) r (omega arith) (omega arith) h
      (mod_near s (suc r) (omega arith))

-- `state` stands at `w`, and has marked in its window the sequences that `queued` names.
pub record Tracks (state : AckState) (w : ℕ) (queued : ℕ → Bool) : Type 0 where
  pub start : state.window_start ≡ w % 32768
  pub bitmap : IsBitmap state.bits
  pub marks : (s : ℕ) → w ≤ s → s < w + 128 → acked_at state.bits (s % 128) ≡ queued s
  pub ahead : (s : ℕ) → w + 128 ≤ s → queued s ≡ false

-- The three ways in which a sequence lies to the window that starts at `w`.
data Lies (w s : ℕ) : Type 0 where
  behind : (r : ℕ) → w ≡ s + suc r → r < 16383 → Lies w s
  within : (r : ℕ) → s ≡ w + r → r < 128 → Lies w s
  beyond : (r : ℕ) → s ≡ w + r → 128 ≤ r → r < 16384 → Lies w s

Lies-total : (w s : ℕ) → w < s + 16384 → s < w + 16384 → Lies w s
Lies-total w s h k = elim (Bool-cases (ltb s w)) [
  | inl less ↦ behind (w - s - 1) (ground arith) (ground arith)
  | inr more ↦ elim (Bool-cases (ltb (s - w) 128)) [
    | inl near ↦ within (s - w) (ground arith) (ground arith)
    | inr far ↦ beyond (s - w) (ground arith) (ground arith) (ground arith)
  ]
]

-- The window after `s` came in.
abbrev pub moved : ℕ → ℕ → ℕ
moved w s = if ltb (w + 127) s then s - 127 else w

abbrev pub with_sequence : ℕ → (ℕ → Bool) → ℕ → Bool
with_sequence s queued t = s == t || queued t

mark-Tracks :
    (state : AckState) (w s : ℕ) (queued : ℕ → Bool)
    → w ≤ s
    → s < w + 128
    → Tracks state w queued
    → Tracks (mark (s % 32768) state) w (with_sequence s queued)
unfolding mark
mark-Tracks state w s queued h k v = record {
  start = v.start;
  bitmap = set_mark-IsBitmap state.bits v.bitmap (s % 32768);
  marks = λ t ht kt. ground (
    arith,
    acked_at-set_mark state.bits v.bitmap (s % 32768) (t % 128) (omega arith),
    v.marks t ht kt,
  );
  ahead = λ t ht. ground (arith, v.ahead t ht);
}

-- After the marks of `shift` places are cleared, the window that starts there is right.
cleared_marks :
    (state : AckState) (w shift t : ℕ) (queued : ℕ → Bool)
    → Tracks state w queued
    → w + shift ≤ t
    → t < w + shift + 128
    → acked_at (clear_marks shift state.window_start state.bits) (t % 128) ≡ queued t
cleared_marks state w shift t queued v h k = elim (Bool-cases (ltb t (w + 128))) [
  | inl kept ↦ ground (
    arith,
    v.start,
    v.marks t,
    acked_at-clear_marks shift state.window_start (t % 128) (t - w) state.bits v.bitmap,
  )
  | inr new ↦ ground (
    arith,
    v.start,
    v.ahead t,
    acked_at-clear_marks shift state.window_start (t % 128) ((t - w) % 128) state.bits v.bitmap,
  )
]

slide-Tracks :
    (state : AckState) (w shift : ℕ) (queued : ℕ → Bool)
    → shift < 16384
    → Tracks state w queued
    → Tracks (slide shift state) (w + shift) queued
unfolding slide
slide-Tracks state w shift queued h v =
    let from = state.window_start in
    let count : (from + shift % 65536) % 65536 - from ≡ shift = omega (arith, v.start) in
    record {
      start = omega (arith, v.start);
      bitmap =
          clear_marks-IsBitmap ((from + shift % 65536) % 65536 - from) from state.bits v.bitmap;
      marks = λ t ht kt. rw count (cleared_marks state w shift t queued v ht kt);
      ahead = λ t ht. v.ahead t (omega arith);
    }

behind-Tracks :
    (state : AckState) (w s : ℕ) (queued : ℕ → Bool)
    → s < w
    → Tracks state w queued
    → Tracks state w (with_sequence s queued)
behind-Tracks state w s queued h v = record {
  start = v.start;
  bitmap = v.bitmap;
  marks = λ t ht kt. ground (arith, v.marks t ht kt);
  ahead = λ t ht. ground (arith, v.ahead t ht);
}

-- One call of `queue_ack` adds its sequence and moves the window just as far as it must.
pub queue_in_window-Tracks :
    (state : AckState) (w s : ℕ) (queued : ℕ → Bool)
    → w < s + 16384
    → s < w + 16384
    → Tracks state w queued
    → Tracks (queue_in_window (s % 32768) state) (moved w s) (with_sequence s queued)
unfolding queue_in_window
queue_in_window-Tracks state w s queued h k v = elim (Lies-total w s h k) [
  | behind r e hr ↦
      let seen : relative_sequence (s % 32768) state.window_start ≡ negsuc r =
        rw (v.start, e) (relative_sequence-behind s r hr) in
      let stays : ltb (w + 127) s ≡ false = ground arith in
      rw (seen, queue_in_window, stays) (behind-Tracks state w s queued (omega arith) v)
  | within r e hr ↦
      let seen : relative_sequence (s % 32768) state.window_start ≡ pos r =
        rw (v.start, e) (relative_sequence-ahead w r (omega arith)) in
      let stays : ltb (w + 127) s ≡ false = ground arith in
      let near : leb 128 r ≡ false = ground arith in
      rw (seen, queue_in_window, stays, near)
        (mark-Tracks state w s queued (omega arith) (omega arith) v)
  | beyond r e lo hr ↦
      let seen : relative_sequence (s % 32768) state.window_start ≡ pos r =
        rw (v.start, e) (relative_sequence-ahead w r hr) in
      let moves : ltb (w + 127) s ≡ true = ground arith in
      let far : leb 128 r ≡ true = ground arith in
      let to : s - 127 ≡ w + (r - 128 + 1) = omega arith in
      rw (seen, queue_in_window, moves, far, to)
        (mark-Tracks (slide (r - 128 + 1) state) (w + (r - 128 + 1)) s queued (omega arith)
          (omega arith) (slide-Tracks state w (r - 128 + 1) queued (omega arith) v))
]

no_marks_table : all_below 128 (λ p. not (acked_at (replicate 17 0) p)) ≡ true
unfolding all_below acked_at test_bit
no_marks_table = refl

no_marks : (p : ℕ) → p < 128 → acked_at (replicate 17 0) p ≡ false
no_marks p h =
    ground (arith, all_below→all 128 (λ p. not (acked_at (replicate 17 0) p)) p no_marks_table h)

-- A fresh acknowledgement has nothing marked.
pub fresh_ack-Tracks : (s : ℕ) → Tracks (fresh_ack (s % 32768)) s (λ _. false)
unfolding fresh_ack
fresh_ack-Tracks s = record {
  start = refl;
  bitmap = record { size = refl; bytes = omega arith };
  marks = λ t ht kt. no_marks (t % 128) (omega arith);
  ahead = λ t ht. refl;
}

-- The receiver of an acknowledgement drops a sequence near its window exactly if it lies in the
-- window and came in.
pub is_acked-Tracks :
    (state : AckState) (w s : ℕ) (queued : ℕ → Bool)
    → w < s + 16384
    → s < w + 16384
    → Tracks state w queued
    → is_acked state.window_start state.bits (s % 32768) ≡ (leb w s && ltb s (w + 128) && queued s)
unfolding is_acked
is_acked-Tracks state w s queued h k v = elim (Lies-total w s h k) [
  | behind r e hr ↦
      let seen : relative_sequence (s % 32768) state.window_start ≡ negsuc r =
        rw (v.start, e) (relative_sequence-behind s r hr) in
      let before : leb w s ≡ false = ground arith in rw (seen, is_acked, before)
  | within r e hr ↦
      let seen : relative_sequence (s % 32768) state.window_start ≡ pos r =
        rw (v.start, e) (relative_sequence-ahead w r (omega arith)) in
      let near : leb 128 r ≡ false = ground arith in
      let same : s % 32768 % 128 ≡ s % 128 = omega arith in
      rw (seen, is_acked, near, same) (ground (arith, v.marks s))
  | beyond r e lo hr ↦
      let seen : relative_sequence (s % 32768) state.window_start ≡ pos r =
        rw (v.start, e) (relative_sequence-ahead w r hr) in
      let far : leb 128 r ≡ true = ground arith in
      let after : ltb s (w + 128) ≡ false = ground arith in rw (seen, is_acked, far) (ground arith)
]
