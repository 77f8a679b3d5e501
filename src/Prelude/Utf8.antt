-- ===== src/Prelude/Utf8.antt =====
-- `String::from_utf8`.
use git_storage.Prelude.Tests.{ltb, leb, if◌then◌else◌}
use git_storage.Prelude.Text.{Bytes, Text}
use git_storage.Prelude.Result.{Result, ok, err, bad_utf8}
use Prim.Native.Nat.{ℕ, zero, suc, ◌<◌}
use mathlib.Core.Path.{◌≡◌, refl}
use mathlib.Core.Bool.{Bool, true, false, ◌&&◌}
use mathlib.Core.Option.{Option, none, some}
use mathlib.Core.List.{[], ◌∷◌}
use native.Mathlib.Omega.{arith}

-- How many bytes follow a first byte, and the range of the second.
unfoldable pub first_byte : ℕ → Option (ℕ × ℕ × ℕ)
first_byte a =
    if ltb a 0x80
    then some (0, 0, 0)
    else if ltb a 0xC2
    then none
    else if ltb a 0xE0
    then some (1, 0x80, 0xBF)
    else if ltb a 0xE1
    then some (2, 0xA0, 0xBF)
    else if ltb a 0xED
    then some (2, 0x80, 0xBF)
    else if ltb a 0xEE
    then some (2, 0x80, 0x9F)
    else if ltb a 0xF0
    then some (2, 0x80, 0xBF)
    else if ltb a 0xF1
    then some (3, 0x90, 0xBF)
    else if ltb a 0xF4
    then some (3, 0x80, 0xBF)
    else if ltb a 0xF5
    then some (3, 0x80, 0x8F)
    else none

-- With `n` bytes of a character to come, of which the next is from `lo` to `hi`.
unfoldable pub utf8_rest : ℕ → ℕ → ℕ → Bytes → Bool
unfolding first_byte
utf8_rest zero lo hi [] = true
utf8_rest (suc n) lo hi [] = false
utf8_rest (suc n) lo hi (b ∷ s) = (leb lo b && leb b hi) && utf8_rest n 0x80 0xBF s
utf8_rest zero lo hi (a ∷ s) = elim (first_byte a) [
  | none ↦ false
  | some (n, from, to) ↦ utf8_rest n from to s
]

unfoldable pub from_utf8 : Bytes → Result Text
unfolding utf8_rest
from_utf8 s = if utf8_rest 0 0 0 s then ok s else err bad_utf8

abbrev pub IsAscii : Text → Type 0
IsAscii [] = Unit
IsAscii (c ∷ s) = (c < 0x80) × IsAscii s

first_byte-ascii : (c : ℕ) → c < 0x80 → first_byte c ≡ some (0, 0, 0)
unfolding first_byte
first_byte-ascii c h = ground arith

utf8_rest-ascii : (s : Text) → IsAscii s → utf8_rest 0 0 0 s ≡ true
unfolding utf8_rest
utf8_rest-ascii [] h = refl
utf8_rest-ascii (c ∷ s) h = rw (utf8_rest, first_byte-ascii c h.0) (utf8_rest-ascii s h.1)

pub from_utf8_ascii : (s : Text) → IsAscii s → from_utf8 s ≡ ok s
unfolding from_utf8
from_utf8_ascii s h = rw (utf8_rest-ascii s h)
