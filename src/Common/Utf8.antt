-- ===== src/Common/Utf8.antt =====
-- `std::str::from_utf8`: which byte sequences are UTF-8. A text of the program is its bytes.
pub mod Cut
use Prim.Native.Nat.{ℕ, zero, suc}
use mathlib.Core.Bool.{Bool, true, false, ◌&&◌}
use mathlib.Core.List.{List, [], ◌∷◌}
use basis_rust_server.Common.Tests.{leb, ltb, ◌==◌, if◌then◌else◌}

-- The next byte lies between `lo` and `hi`, and `more` plain continuation bytes follow it.
pub data Utf8State : Type 0 where
  boundary : Utf8State
  inside : ℕ → ℕ → ℕ → Utf8State
  invalid : Utf8State

lead : ℕ → Utf8State
lead b =
    if ltb b 0x80
    then boundary
    else if ltb b 0xc2
    then invalid
    else if ltb b 0xe0
    then inside 0x80 0xbf 0
    else if b == 0xe0
    then inside 0xa0 0xbf 1
    else if b == 0xed
    then inside 0x80 0x9f 1
    else if ltb b 0xf0
    then inside 0x80 0xbf 1
    else if b == 0xf0
    then inside 0x90 0xbf 2
    else if ltb b 0xf4
    then inside 0x80 0xbf 2
    else if b == 0xf4
    then inside 0x80 0x8f 2
    else invalid

after_continuation : ℕ → Utf8State
after_continuation zero = boundary
after_continuation (suc n) = inside 0x80 0xbf n

utf8_step : Utf8State → ℕ → Utf8State
unfolding lead after_continuation
utf8_step boundary b = lead b
utf8_step (inside lo hi more) b = if leb lo b && leb b hi then after_continuation more else invalid
utf8_step invalid b = invalid

utf8_run : Utf8State → List ℕ → Utf8State
unfolding utf8_step
utf8_run s [] = s
utf8_run s (b ∷ bs) = utf8_run (utf8_step s b) bs

ends_well : Utf8State → Bool
ends_well boundary = true
ends_well (inside lo hi more) = false
ends_well invalid = false

unfoldable pub is_utf8 : List ℕ → Bool
unfolding utf8_run ends_well
is_utf8 bs = ends_well (utf8_run boundary bs)
