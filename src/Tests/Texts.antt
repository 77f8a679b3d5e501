-- ===== src/Tests/Texts.antt =====
-- Tests of texts, for the conditions of the theorems at concrete texts.
use git_storage.Prelude.{◌≡◌, refl, Bool, true, false, not, ◌&&◌, [], ◌∷◌, ltb, ltb→lt}
use git_storage.Prelude.Text.{Text}
use git_storage.Prelude.Str.{is_whitespace}
use git_storage.Prelude.Utf8.{IsAscii}
use git_storage.Prelude.Spaces.{NoSpace}

abbrev pub all_ascii : Text → Bool
all_ascii [] = true
all_ascii (c ∷ s) = ltb c 0x80 && all_ascii s

abbrev pub spaceless : Text → Bool
spaceless [] = true
spaceless (c ∷ s) = not (is_whitespace c) && spaceless s

left-true : (a b : Bool) → (a && b) ≡ true → a ≡ true
left-true true b h = refl
left-true false b h = cc

right-true : (a b : Bool) → (a && b) ≡ true → b ≡ true
right-true true b h = h
right-true false b h = cc

not-true : (b : Bool) → not b ≡ true → b ≡ false
not-true true h = cc
not-true false h = refl

pub all_ascii-IsAscii : (s : Text) → all_ascii s ≡ true → IsAscii s
all_ascii-IsAscii [] h = tt
all_ascii-IsAscii (c ∷ s) h = (
  ltb→lt c 0x80 (left-true (ltb c 0x80) (all_ascii s) h),
  all_ascii-IsAscii s (right-true (ltb c 0x80) (all_ascii s) h),
)

pub spaceless-NoSpace : (s : Text) → spaceless s ≡ true → NoSpace s
spaceless-NoSpace [] h = tt
spaceless-NoSpace (c ∷ s) h = (
  not-true (is_whitespace c) (left-true (not (is_whitespace c)) (spaceless s) h),
  spaceless-NoSpace s (right-true (not (is_whitespace c)) (spaceless s) h),
)
