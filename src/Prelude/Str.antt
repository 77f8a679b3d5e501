-- ===== src/Prelude/Str.antt =====
-- The functions of `str` that the program calls, on ASCII text.
use git_storage.Prelude.Tests.{ltb, leb, ◌==◌, if◌then◌else◌}
use git_storage.Prelude.Text.{Text}
use git_storage.Prelude.Int.{ℤ, pos, sub_ℕ}
use Prim.Native.Nat.{ℕ, ◌+◌, ◌-◌, ◌*◌, ◌^◌}
use mathlib.Core.Bool.{Bool, true, false, ◌&&◌, ◌||◌}
use mathlib.Core.Option.{Option, none, some}
use mathlib.Core.List.{[], ◌∷◌, reverse}

-- `char::is_whitespace`
unfoldable pub is_whitespace : ℕ → Bool
is_whitespace c = (leb 9 c && leb c 13) || (c == 32)

unfoldable pub trim_start : Text → Text
unfolding is_whitespace
trim_start [] = []
trim_start (c ∷ s) = let rest = trim_start s in if is_whitespace c then rest else c ∷ s

unfoldable pub trim : Text → Text
unfolding trim_start
trim s = reverse (trim_start (reverse (trim_start s)))

-- `s.chars().last()`
unfoldable pub last : Text → Option ℕ
last [] = none
last (c ∷ []) = some c
last (c ∷ d ∷ s) = last (d ∷ s)

-- The digits of a `usize`, most significant first; `none` on another character or past 64 bits.
unfoldable pub parse_digits : ℕ → Text → Option ℕ
parse_digits n [] = some n
parse_digits n (c ∷ s) =
    let m = n * 10 + (c - b'0') in
    let rest = parse_digits m s in
    if leb b'0' c && (leb c b'9' && ltb m (2 ^ 64)) then rest else none

-- `s.parse::<usize>()`: a leading plus is allowed, and no digits are refused.
unfoldable pub parse_usize : Text → Option ℕ
unfolding parse_digits
parse_usize [] = none
parse_usize (c ∷ []) = if c == b'+' then none else parse_digits 0 (c ∷ [])
parse_usize (c ∷ d ∷ s) = if c == b'+' then parse_digits 0 (d ∷ s) else parse_digits 0 (c ∷ d ∷ s)

unfoldable pub starts_with : Text → Text → Bool
starts_with s [] = true
starts_with [] (_ ∷ _) = false
starts_with (x ∷ xs) (y ∷ ys) = (x == y) && starts_with xs ys

unfoldable pub strip_prefix : Text → Text → Option Text
strip_prefix s [] = some s
strip_prefix [] (_ ∷ _) = none
strip_prefix (x ∷ xs) (y ∷ ys) = if x == y then strip_prefix xs ys else none

unfoldable pub contains : Text → Text → Bool
unfolding starts_with
contains [] needle = starts_with [] needle
contains (x ∷ xs) needle = starts_with (x ∷ xs) needle || contains xs needle

-- `s.split_once(c)`, at the first place of a character.
unfoldable pub split_once : ℕ → Text → Option (Text × Text)
split_once c [] = none
split_once c (x ∷ xs) =
    let rest = split_once c xs in
    if x == c then some ([], xs) else elim rest [ none ↦ none | some (a, b) ↦ some (x ∷ a, b) ]

-- `s.rsplit_once(c)`, at its last place.
unfoldable pub rsplit_once : ℕ → Text → Option (Text × Text)
rsplit_once c [] = none
rsplit_once c (x ∷ xs) = elim (rsplit_once c xs) [
  | some (a, b) ↦ some (x ∷ a, b)
  | none ↦ if x == c then some ([], xs) else none
]

-- `char::to_ascii_lowercase`
unfoldable pub lower : ℕ → ℕ
lower c = if leb b'A' c && leb c b'Z' then c + 32 else c

-- The digits of an `i64`, after the sign that `negative` tells.
unfoldable pub parse_signed : Bool → Text → Option ℤ
unfolding parse_digits
parse_signed negative [] = none
parse_signed negative (c ∷ s) = elim (parse_digits 0 (c ∷ s)) [
  | none ↦ none
  | some n ↦
      if negative
      then if leb n (2 ^ 63) then some (sub_ℕ 0 n) else none
      else if ltb n (2 ^ 63)
      then some (pos n)
      else none
]

-- `s.parse::<i64>()`
unfoldable pub parse_i64 : Text → Option ℤ
unfolding parse_signed
parse_i64 [] = none
parse_i64 (c ∷ s) =
    if c == b'-'
    then parse_signed true s
    else if c == b'+'
    then parse_signed false s
    else parse_signed false (c ∷ s)
