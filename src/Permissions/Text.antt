-- ===== src/Permissions/Text.antt =====
-- `str::trim`, `strip_prefix('-')` and `rsplit_once('.')`, on the bytes of a text.
use basis_rust_server.Common.{
  ℕ, zero, suc, Bool, true, false, [], ◌∷◌, length, Option, none, some, ◌==◌, leb, ◌&&◌, ◌||◌,
  if◌then◌else◌,
}
use basis_rust_server.Common.Words.{Bytes}

unfoldable pub is_empty : Bytes → Bool
is_empty [] = true
is_empty (b ∷ bs) = false

-- White space of one, two and three bytes in UTF-8.
is_white1 : ℕ → Bool
is_white1 a = leb 9 a && leb a 13 || a == 32

is_white2 : ℕ → ℕ → Bool
is_white2 a b = a == 0xc2 && (b == 0x85 || b == 0xa0)

is_white3 : ℕ → ℕ → ℕ → Bool
is_white3 a b c =
    a == 0xe1 && b == 0x9a && c == 0x80
    || a == 0xe2 && b == 0x80 && (leb 0x80 c && leb c 0x8a || c == 0xa8 || c == 0xa9 || c == 0xaf)
    || a == 0xe2 && b == 0x81 && c == 0x9f
    || a == 0xe3 && b == 0x80 && c == 0x80

-- `front` reads a character from its first byte on, and otherwise from its last byte on.
skip_white : ℕ → Bool → Bytes → Bytes
unfolding is_white1 is_white2 is_white3
skip_white zero front bytes = bytes
skip_white (suc fuel) front [] = []
skip_white (suc fuel) front (a ∷ []) = if is_white1 a then [] else a ∷ []
skip_white (suc fuel) front (a ∷ b ∷ []) =
    let one = skip_white fuel front (b ∷ []) in
    if is_white1 a
    then one
    else if (if front then is_white2 a b else is_white2 b a)
    then []
    else a ∷ b ∷ []
skip_white (suc fuel) front (a ∷ b ∷ c ∷ rest) =
    let one = skip_white fuel front (b ∷ c ∷ rest) in
    let two = skip_white fuel front (c ∷ rest) in
    let three = skip_white fuel front rest in
    if is_white1 a
    then one
    else if (if front then is_white2 a b else is_white2 b a)
    then two
    else if (if front then is_white3 a b c else is_white3 c b a)
    then three
    else a ∷ b ∷ c ∷ rest

reversed : Bytes → Bytes → Bytes
reversed done [] = done
reversed done (b ∷ bs) = reversed (b ∷ done) bs

unfoldable pub trim : Bytes → Bytes
unfolding skip_white reversed
trim bytes =
    let started = skip_white (length bytes) true bytes in
    reversed [] (skip_white (length started) false (reversed [] started))

-- The text behind a minus sign and that it had one, or the text as it is.
unfoldable pub strip_minus : Bytes → Bytes × Bool
unfolding trim
strip_minus [] = ([], true)
strip_minus (b ∷ bs) = if b == 45 then (trim bs, false) else (b ∷ bs, true)

-- What stands before the last full stop.
unfoldable pub before_last_dot : Bytes → Option Bytes
before_last_dot [] = none
before_last_dot (b ∷ bs) = elim (before_last_dot bs) [
  | some prefix ↦ some (b ∷ prefix)
  | none ↦ if b == 46 then some [] else none
]
