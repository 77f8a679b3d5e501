-- ===== src/Prelude/Spaces.antt =====
-- Words without white space, and the lines that are made of them.
use git_storage.Prelude.Tests.{◌==◌}
use git_storage.Prelude.Text.{Text}
use git_storage.Prelude.Str.{is_whitespace, trim_start, trim}
use git_storage.Prelude.Words.{lines, split_whitespace, onto_first, at_word}
use Prim.Native.Nat.{ℕ}
use mathlib.Core.Path.{◌≡◌, refl}
use mathlib.Core.Bool.{true, false}
use mathlib.Core.List.{[], ◌∷◌, ◌++◌, reverse, reverse-append, reverse-reverse}
use native.Mathlib.Omega.{arith}

abbrev pub NoSpace : Text → Type 0
NoSpace [] = Unit
NoSpace (c ∷ s) = (is_whitespace c ≡ false) × NoSpace s

pub NoSpace-append : (s t : Text) → NoSpace s → NoSpace t → NoSpace (s ++ t)
NoSpace-append [] t h k = k
NoSpace-append (c ∷ s) t h k = (h.0, NoSpace-append s t h.1 k)

pub NoSpace-reverse : (s : Text) → NoSpace s → NoSpace (reverse s)
NoSpace-reverse [] h = tt
NoSpace-reverse (c ∷ s) h =
    rw (reverse-append (c ∷ []) s)
      (NoSpace-append (reverse s) (c ∷ []) (NoSpace-reverse s h.1) (h.0, tt))

pub trim_start_none : (s : Text) → NoSpace s → trim_start s ≡ s
unfolding trim_start
trim_start_none [] h = refl
trim_start_none (c ∷ s) h = rw h.0

trim_start_newline : (s : Text) → trim_start (10 ∷ s) ≡ trim_start s
unfolding trim_start
trim_start_newline s = refl

trim_start_kept : (c : ℕ) (s : Text) → is_whitespace c ≡ false → trim_start (c ∷ s) ≡ c ∷ s
unfolding trim_start
trim_start_kept c s h = rw h

-- A line with no white space in it is trimmed to what stands before its newline.
pub trim_line : (c : ℕ) (s : Text) → NoSpace (c ∷ s) → trim ((c ∷ s) ++ 10 ∷ []) ≡ c ∷ s
unfolding trim
trim_line c s h = rw (
  trim_start_kept c (s ++ 10 ∷ []) h.0,
  reverse-append (c ∷ s) (10 ∷ []),
  trim_start_newline (reverse (c ∷ s)),
  trim_start_none (reverse (c ∷ s)) (NoSpace-reverse (c ∷ s) h),
  reverse-reverse (c ∷ s),
)

pub not_newline : (c : ℕ) → is_whitespace c ≡ false → ((c == 10) ≡ false) × ((c == 13) ≡ false)
unfolding is_whitespace
not_newline c h = ground arith

-- A line of words and spaces, that is, without a break.
abbrev pub Unbroken : Text → Type 0
Unbroken [] = Unit
Unbroken (c ∷ s) = ((c == 10) ≡ false) × ((c == 13) ≡ false) × Unbroken s

pub NoSpace-Unbroken : (s : Text) → NoSpace s → Unbroken s
NoSpace-Unbroken [] h = tt
NoSpace-Unbroken (c ∷ s) h = let n = not_newline c h.0 in (n.0, n.1, NoSpace-Unbroken s h.1)

pub Unbroken-append : (s t : Text) → Unbroken s → Unbroken t → Unbroken (s ++ t)
Unbroken-append [] t h k = k
Unbroken-append (c ∷ s) t h k = (h.0, h.1, Unbroken-append s t h.2 k)

pub lines_cons : (l s : Text) → Unbroken l → lines (l ++ 10 ∷ s) ≡ l ∷ lines s
unfolding lines onto_first
lines_cons [] s h = refl
lines_cons (c ∷ l) s (h, k, u) = rw (h, k, lines_cons l s u)

at_word-kept : (c : ℕ) (s : Text) → is_whitespace c ≡ false → at_word (c ∷ s) ≡ true
unfolding at_word
at_word-kept c s h = rw h

pub split_whitespace_word :
    (c : ℕ) (w : Text) → NoSpace (c ∷ w) → split_whitespace (c ∷ w) ≡ (c ∷ w) ∷ []
unfolding split_whitespace onto_first at_word
split_whitespace_word c [] h = rw h.0
split_whitespace_word c (d ∷ w) (h, k) =
    rw (split_whitespace, h, at_word-kept d w k.0, split_whitespace_word d w k)

pub split_whitespace_cons :
    (c : ℕ) (w s : Text)
    → NoSpace (c ∷ w)
    → split_whitespace ((c ∷ w) ++ 32 ∷ s) ≡ (c ∷ w) ∷ split_whitespace s
unfolding split_whitespace onto_first at_word
split_whitespace_cons c [] s h = rw h.0
split_whitespace_cons c (d ∷ w) s (h, k) =
    rw (split_whitespace, h, at_word-kept d (w ++ 32 ∷ s) k.0, split_whitespace_cons d w s k)
