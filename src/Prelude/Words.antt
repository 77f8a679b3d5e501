-- ===== src/Prelude/Words.antt =====
-- `lines`, `split_whitespace` and `splitn(2, _)` of `str`, on ASCII text.
use git_storage.Prelude.Tests.{◌==◌, if◌then◌else◌}
use git_storage.Prelude.Text.{Text}
use git_storage.Prelude.Str.{is_whitespace}
use Prim.Native.Nat.{ℕ}
use mathlib.Core.Bool.{Bool, false, ◌&&◌, not}
use mathlib.Core.List.{List, [], ◌∷◌}

-- A character before the first of the pieces.
unfoldable pub onto_first : ℕ → List Text → List Text
onto_first c [] = (c ∷ []) ∷ []
onto_first c (l ∷ ls) = (c ∷ l) ∷ ls

unfoldable pub at_newline : Text → Bool
at_newline [] = false
at_newline (c ∷ s) = c == 10

-- A line ends in a newline, or in a carriage return and a newline.
unfoldable pub lines : Text → List Text
unfolding onto_first at_newline
lines [] = []
lines (c ∷ s) =
    let rest = lines s in
    if c == 10 then [] ∷ rest else if (c == 13) && at_newline s then rest else onto_first c rest

unfoldable pub at_word : Text → Bool
unfolding is_whitespace
at_word [] = false
at_word (c ∷ s) = not (is_whitespace c)

unfoldable pub split_whitespace : Text → List Text
unfolding at_word onto_first
split_whitespace [] = []
split_whitespace (c ∷ s) =
    let rest = split_whitespace s in
    if is_whitespace c then rest else if at_word s then onto_first c rest else (c ∷ []) ∷ rest
