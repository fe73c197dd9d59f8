-- ===== src/Common/Utf8/Cut.antt =====
-- A text that is cut in front of the first byte of a character is a text.
use basis_rust_server.Common.Tests.{leb, ltb, if◌then◌else◌}
use basis_rust_server.Common.Lists.{take, get_elem?}
use Prim.Native.Nat.{ℕ, zero, suc, ◌≤◌}
use mathlib.Core.Bool.{Bool, true, false, ◌||◌, ◌&&◌}
use mathlib.Core.List.{List, [], ◌∷◌}
use mathlib.Core.Option.{some}
use mathlib.Core.Path.{◌≡◌, refl}
use native.Mathlib.Omega.{arith}
use basis_rust_server.Common.Utf8.{
  Utf8State, boundary, inside, invalid, lead, utf8_step, utf8_run, ends_well, is_utf8,
}

-- What comes next inside a character is a continuation byte.
abbrev IsSound : Utf8State → Type 0
IsSound boundary = Unit {0}
IsSound (inside lo hi more) = (0x80 ≤ lo) × (hi ≤ 0xbf)
IsSound invalid = Unit {0}

is_sound : Utf8State → Bool
is_sound boundary = true
is_sound (inside lo hi more) = leb 0x80 lo && leb hi 0xbf
is_sound invalid = true

is_sound-IsSound : (s : Utf8State) → is_sound s ≡ true → IsSound s
unfolding is_sound
is_sound-IsSound boundary h = tt
is_sound-IsSound (inside lo hi more) h = (ground arith, ground arith)
is_sound-IsSound invalid h = tt

if-is_sound :
    (c : Bool) (s t : Utf8State)
    → is_sound s ≡ true
    → is_sound t ≡ true
    → is_sound (if c then s else t) ≡ true
if-is_sound true s t h k = h
if-is_sound false s t h k = k

lead-is_sound : (b : ℕ) → is_sound (lead b) ≡ true
unfolding lead is_sound
lead-is_sound b = ground arith

lead-IsSound : (b : ℕ) → IsSound (lead b)
lead-IsSound b = is_sound-IsSound (lead b) (lead-is_sound b)

step-IsSound : (s : Utf8State) (b : ℕ) → IsSound s → IsSound (utf8_step s b)
unfolding utf8_step
step-IsSound boundary b h = lead-IsSound b
step-IsSound (inside lo hi zero) b h = ground arith
step-IsSound (inside lo hi (suc n)) b h = ground arith
step-IsSound invalid b h = tt

run-invalid : (bs : List ℕ) → ends_well (utf8_run invalid bs) ≡ false
unfolding utf8_run ends_well
run-invalid [] = refl
run-invalid (b ∷ bs) = run-invalid bs

-- A state that a lead byte or nothing can follow is between characters.
between :
    (s : Utf8State) (b : ℕ) (bs : List ℕ)
    → IsSound s
    → (ltb b 0x80 || leb 0xc0 b) ≡ true
    → ends_well (utf8_run s (b ∷ bs)) ≡ true
    → ends_well s ≡ true
unfolding utf8_run ends_well utf8_step
between boundary b bs v h e = refl
between (inside lo hi more) b bs v h e =
    let out : (leb lo b && leb b hi) ≡ false = ground arith in cc (run-invalid bs, rw out at e)
between invalid b bs v h e = cc (run-invalid bs)

run-take :
    (s : Utf8State) (n : ℕ) (bs : List ℕ) (b : ℕ)
    → IsSound s
    → get_elem? bs n ≡ some b
    → (ltb b 0x80 || leb 0xc0 b) ≡ true
    → ends_well (utf8_run s bs) ≡ true
    → ends_well (utf8_run s (take n bs)) ≡ true
unfolding utf8_run
run-take s n [] b v g h e = cc
run-take s zero (c ∷ bs) b v g h e = let same : c ≡ b = cc in between s c bs v (rw same h) e
run-take s (suc n) (c ∷ bs) b v g h e = run-take (utf8_step s c) n bs b (step-IsSound s c v) g h e

-- A text may be cut where a character starts.
pub is_utf8-take :
    (n b : ℕ) (bs : List ℕ)
    → get_elem? bs n ≡ some b
    → (ltb b 0x80 || leb 0xc0 b) ≡ true
    → is_utf8 bs ≡ true
    → is_utf8 (take n bs) ≡ true
unfolding is_utf8
is_utf8-take n b bs g h e = run-take boundary n bs b tt g h e
