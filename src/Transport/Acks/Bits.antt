-- ===== src/Transport/Acks/Bits.antt =====
-- The marks of an acknowledgement, one bit for each place of the window.
use basis_rust_server.Common.{
  ℕ, zero, suc, ◌+◌, ◌/◌, ◌%◌, ◌<◌, ◌≡◌, refl, ◌∙◌, Bool, true, false, [], ◌∷◌, length, get_elem?,
  get_or, set, some, ltb, ◌==◌, not, ◌&&◌, ◌||◌, if◌then◌else◌, arith, All, length-set,
}
use basis_rust_server.Common.Bits.{
  test_bit, set_bit, clear_bit, test_bit-set_bit, test_bit-clear_bit, set_bit-lt, clear_bit-lt,
}
use basis_rust_server.Common.Words.{Bytes, IsByte}
use basis_rust_server.Transport.Acks.{clear_mark, set_mark, clear_marks, acked_at}

-- The bytes of the marks: 16 hold the window, and one is spare.
pub record IsBitmap (bits : Bytes) : Type 0 where
  pub size : length bits ≡ 17
  pub bytes : All IsByte bits

get_or-IsByte : (bits : Bytes) (i : ℕ) → All IsByte bits → get_or bits i 0 < 256
get_or-IsByte [] i h = omega arith
get_or-IsByte (b ∷ bits) zero h = h.0
get_or-IsByte (b ∷ bits) (suc i) h = get_or-IsByte bits i h.1

set-IsByte : (bits : Bytes) (i v : ℕ) → v < 256 → All IsByte bits → All IsByte (set bits i v)
set-IsByte [] i v k h = tt
set-IsByte (b ∷ bits) zero v k h = (k, h.1)
set-IsByte (b ∷ bits) (suc i) v k h = (h.0, set-IsByte bits i v k h.1)

get_elem?-get_or :
    (bits : Bytes) (i : ℕ) → i < length bits → get_elem? bits i ≡ some (get_or bits i 0)
get_elem?-get_or [] i h = absurd (omega arith)
get_elem?-get_or (b ∷ bits) zero h = refl
get_elem?-get_or (b ∷ bits) (suc i) h = get_elem?-get_or bits i (omega arith)

get_or-set :
    (bits : Bytes) (i j v : ℕ)
    → i < length bits
    → get_or (set bits i v) j 0 ≡ (if i == j then v else get_or bits j 0)
get_or-set [] i j v h = absurd (omega arith)
get_or-set (b ∷ bits) zero zero v h = refl
get_or-set (b ∷ bits) zero (suc j) v h = ground arith
get_or-set (b ∷ bits) (suc i) zero v h = ground arith
get_or-set (b ∷ bits) (suc i) (suc j) v h = ground (arith, get_or-set bits i j v)

acked_at-get_or :
    (bits : Bytes) (p : ℕ)
    → p / 8 < length bits
    → acked_at bits p ≡ test_bit (get_or bits (p / 8) 0) (p % 8)
unfolding acked_at
acked_at-get_or bits p h = rw (get_elem?-get_or bits (p / 8) h, acked_at)

module _ (bits : Bytes) (v : IsBitmap bits) where
  pub clear_mark-IsBitmap : (s : ℕ) → IsBitmap (clear_mark s bits)
  unfolding clear_mark
  clear_mark-IsBitmap s =
      let i = s % 128 / 8 in
      let b = get_or bits i 0 in
      let fits : b < 256 = get_or-IsByte bits i v.bytes in
      record {
        size = length-set bits i (clear_bit b (s % 128 % 8)) ∙ v.size;
        bytes =
            set-IsByte bits i _ (clear_bit-lt b (s % 128 % 8) 0 fits (omega arith) (omega arith))
              v.bytes;
      }

  pub set_mark-IsBitmap : (s : ℕ) → IsBitmap (set_mark s bits)
  unfolding set_mark
  set_mark-IsBitmap s =
      let i = s % 128 / 8 in
      let b = get_or bits i 0 in
      let fits : b < 256 = get_or-IsByte bits i v.bytes in
      record {
        size = length-set bits i (set_bit b (s % 128 % 8)) ∙ v.size;
        bytes =
            set-IsByte bits i _ (set_bit-lt b (s % 128 % 8) 0 fits (omega arith) (omega arith))
              v.bytes;
      }

  -- A place is marked by its own sequences, and else as before.
  pub acked_at-set_mark :
      (s p : ℕ) → p < 128 → acked_at (set_mark s bits) p ≡ (s % 128 == p || acked_at bits p)
  unfolding set_mark
  acked_at-set_mark s p h =
      let i = s % 128 / 8 in
      let b = get_or bits i 0 in
      ground (
        arith,
        v.size,
        length-set bits i (set_bit b (s % 128 % 8)),
        acked_at-get_or bits p,
        acked_at-get_or (set bits i (set_bit b (s % 128 % 8))) p,
        get_or-set bits i (p / 8) (set_bit b (s % 128 % 8)),
        test_bit-set_bit b (s % 128 % 8) (p % 8) (get_or-IsByte bits i v.bytes),
      )

  pub acked_at-clear_mark :
      (s p : ℕ) → p < 128 → acked_at (clear_mark s bits) p ≡ (not (s % 128 == p) && acked_at bits p)
  unfolding clear_mark
  acked_at-clear_mark s p h =
      let i = s % 128 / 8 in
      let b = get_or bits i 0 in
      ground (
        arith,
        v.size,
        length-set bits i (clear_bit b (s % 128 % 8)),
        acked_at-get_or bits p,
        acked_at-get_or (set bits i (clear_bit b (s % 128 % 8))) p,
        get_or-set bits i (p / 8) (clear_bit b (s % 128 % 8)),
        test_bit-clear_bit b (s % 128 % 8) (p % 8) (get_or-IsByte bits i v.bytes),
      )

pub clear_marks-IsBitmap :
    (count from : ℕ) (bits : Bytes) → IsBitmap bits → IsBitmap (clear_marks count from bits)
unfolding clear_marks
clear_marks-IsBitmap zero from bits v = v
clear_marks-IsBitmap (suc count) from bits v =
    clear_marks-IsBitmap count (from + 1) (clear_mark from bits) (clear_mark-IsBitmap bits v from)

and-false : (b : Bool) → (b && false) ≡ false
and-false true = refl
and-false false = refl

-- `d` is how far the place `p` lies behind `from` in the window.
pub acked_at-clear_marks :
    (count from p d : ℕ) (bits : Bytes)
    → IsBitmap bits
    → p < 128
    → d < 128
    → (from + d) % 128 ≡ p
    → acked_at (clear_marks count from bits) p ≡ (not (ltb d count) && acked_at bits p)
unfolding clear_marks
acked_at-clear_marks zero from p d bits v hp hd e = ground arith
acked_at-clear_marks (suc count) from p zero bits v hp hd e =
    let here : (from % 128 == p) ≡ true = ground arith in
    let gone : acked_at (clear_mark from bits) p ≡ false =
      rw (acked_at-clear_mark bits v from p hp, here) in
    let first : ltb 0 (suc count) ≡ true = ground arith in
    acked_at-clear_marks count (from + 1) p 127 (clear_mark from bits)
      (clear_mark-IsBitmap bits v from) hp (omega arith) (omega arith)
    ∙ rw (gone, first) (and-false _)
acked_at-clear_marks (suc count) from p (suc d) bits v hp hd e = ground (
  arith,
  acked_at-clear_mark bits v from p hp,
  acked_at-clear_marks count (from + 1) p d (clear_mark from bits) (clear_mark-IsBitmap bits v from)
      hp (omega arith) (omega arith),
)
