-- ===== src/Common/Bits.antt =====
-- The bit operations of the source (`|`, `&`, `<<`, `>>`, `1 << k`) on native numbers, as arithmetic.
use Prim.Native.Nat.{
  ℕ, zero, suc, ◌+◌, ◌-◌, ◌*◌, ◌/◌, ◌%◌, ◌≤◌, ◌<◌, ◌^◌, max, bit_and, bit_or, digits,
  bit_or-bitwise,
}
use mathlib.Core.Path.{◌≡◌, refl, ap}
use mathlib.Core.Bool.{Bool, true, false, not, ◌&&◌, ◌||◌}
use native.Mathlib.Omega.{arith}
use native.Mathlib.Nat.{pow-suc}
use basis_rust_server.Common.Tests.{◌==◌, ltb}

infix 20 ◌==b◌
abbrev ◌==b◌ : Bool → Bool → Bool
true ==b c = c
false ==b c = not c

-- A statement about the numbers below a bound, checked one by one.
unfoldable pub all_below : ℕ → (ℕ → Bool) → Bool
all_below zero p = true
all_below (suc n) p = p n && all_below n p

pub all_below→all : (n : ℕ) (p : ℕ → Bool) (x : ℕ) → all_below n p ≡ true → x < n → p x ≡ true
unfolding all_below
all_below→all zero p x h lt = absurd (omega arith)
all_below→all (suc n) p x h lt = ground (arith, all_below→all n p x)

-- The digit recursion of `bit_or`.
abbrev or_digits : ℕ → ℕ → ℕ → ℕ
or_digits n a b = digits (λ b. b) max n a b

or_digits_fuel : (n m a b : ℕ) → a ≤ n → a ≤ m → or_digits n a b ≡ or_digits m a b
or_digits_fuel zero zero a b p q = refl
or_digits_fuel zero (suc m) zero b p q = refl
or_digits_fuel zero (suc m) (suc a) b p q = absurd (omega arith)
or_digits_fuel (suc n) zero zero b p q = refl
or_digits_fuel (suc n) zero (suc a) b p q = absurd (omega arith)
or_digits_fuel (suc n) (suc m) zero b p q = refl
or_digits_fuel (suc n) (suc m) (suc a) b p q =
    omega (arith, or_digits_fuel n m (suc a / 2) (b / 2) (omega arith) (omega arith))

zero-bit_or : (b : ℕ) → bit_or 0 b ≡ b
zero-bit_or b = bit_or-bitwise 0 b

pub bit_or_step : (a b : ℕ) → bit_or a b ≡ bit_or (a / 2) (b / 2) * 2 + max (a % 2) (b % 2)
bit_or_step zero b = omega (arith, zero-bit_or b, zero-bit_or (b / 2))
bit_or_step (suc a) b = omega (
  arith,
  bit_or-bitwise (suc a) b,
  bit_or-bitwise (suc a / 2) (b / 2),
  or_digits_fuel a (suc a / 2) (suc a / 2) (b / 2) (omega arith) (omega arith),
)

bit_or-zero_fuel : (n a : ℕ) → a ≤ n → bit_or a 0 ≡ a
bit_or-zero_fuel n zero h = refl
bit_or-zero_fuel zero (suc a) h = absurd (omega arith)
bit_or-zero_fuel (suc n) (suc a) h =
    omega (arith, bit_or_step (suc a) 0, bit_or-zero_fuel n (suc a / 2) (omega arith))

pub bit_or-zero : (a : ℕ) → bit_or a 0 ≡ a
bit_or-zero a = bit_or-zero_fuel a a (omega arith)

mul-pow-suc : (q k : ℕ) → q * 2 ^ suc k ≡ q * 2 ^ k * 2
mul-pow-suc q k = omega (arith, ap (λ (t : ℕ). q * t) (pow-suc 2 k))

-- Fields that do not overlap: `(q << k) | r` is a sum.
pub bit_or_fields : (k q r : ℕ) → r < 2 ^ k → bit_or (q * 2 ^ k) r ≡ q * 2 ^ k + r
bit_or_fields zero q r h = ground (arith, bit_or-zero q)
bit_or_fields (suc k) q r h = ground (
  arith,
  bit_or_step (q * 2 ^ suc k) r,
  mul-pow-suc q k,
  pow-suc 2 k,
  bit_or_fields k q (r / 2) (omega (arith, pow-suc 2 k)),
)

-- Bit `k`, as the source tests it: `b & (1 << k) != 0`.
unfoldable pub test_bit : ℕ → ℕ → Bool
test_bit b k = not (bit_and b (2 ^ k) == 0)

-- `b |= 1 << k` and `b &= !(1 << k)` on a byte.
unfoldable pub set_bit : ℕ → ℕ → ℕ
set_bit b k = bit_or b (2 ^ k)

unfoldable pub clear_bit : ℕ → ℕ → ℕ
clear_bit b k = bit_and b (255 - 2 ^ k)

-- The tables of a byte `x / 64`, a written bit `x / 8 % 8` and a read bit `x % 8`.
abbrev set_case : ℕ → Bool
set_case x =
    let b = x / 64 in
    let k = x / 8 % 8 in
    let j = x % 8 in
    (test_bit (set_bit b k) j ==b (k == j || test_bit b j))
    && (test_bit (clear_bit b k) j ==b (not (k == j) && test_bit b j))
    && ltb (set_bit b k) 256
    && ltb (clear_bit b k) 256

bit_table : all_below 16384 set_case ≡ true
unfolding all_below test_bit set_bit clear_bit
bit_table = refl

bit_case : (b k j : ℕ) → b < 256 → k < 8 → j < 8 → set_case (b * 64 + k * 8 + j) ≡ true
bit_case b k j hb hk hj = all_below→all 16384 set_case (b * 64 + k * 8 + j) bit_table (omega arith)

module _ (b k j : ℕ) (hb : b < 256) (hk : k < 8) (hj : j < 8) where
  bit_parts :
      (test_bit (set_bit b k) j ≡ (k == j || test_bit b j))
      × (test_bit (clear_bit b k) j ≡ (not (k == j) && test_bit b j))
      × (set_bit b k < 256)
      × (clear_bit b k < 256)
  bit_parts =
      let e1 : (b * 64 + k * 8 + j) / 64 ≡ b = omega arith in
      let e2 : (b * 64 + k * 8 + j) / 8 % 8 ≡ k = omega arith in
      let e3 : (b * 64 + k * 8 + j) % 8 ≡ j = omega arith in ground (arith, bit_case b k j hb hk hj)

  pub test_bit-set_bit : test_bit (set_bit b k) j ≡ (k == j || test_bit b j)
  test_bit-set_bit = bit_parts.0

  pub test_bit-clear_bit : test_bit (clear_bit b k) j ≡ (not (k == j) && test_bit b j)
  test_bit-clear_bit = bit_parts.1

  pub set_bit-lt : set_bit b k < 256
  set_bit-lt = bit_parts.2

  pub clear_bit-lt : clear_bit b k < 256
  clear_bit-lt = bit_parts.3
