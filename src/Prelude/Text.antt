-- ===== src/Prelude/Text.antt =====
-- Strings and byte vectors: lists of bytes, compared as Rust compares them.
use Prim.Native.Nat.{ℕ, ◌<◌}
use Prim.Native.Char.{code}
use Prim.Native.String.{String}
use mathlib.Core.Path.{◌≡◌, refl}
use mathlib.Core.Logic.{◌↔◌}
use mathlib.Core.Bool.{Bool, true, false, ◌&&◌, ◌||◌}
use mathlib.Core.List.{List, [], ◌∷◌}
use native.Mathlib.Omega.{arith}
use git_storage.Prelude.Tests.{ltb, ◌==◌}

abbrev pub Bytes : Type 0
Bytes = List ℕ

-- A `String`, by its UTF-8 bytes.
abbrev pub Text : Type 0
Text = List ℕ

-- The bytes of an ASCII literal.
abbrev pub codes : String → Text
codes String.[] = []
codes (String.◌∷◌ c s) = code c ∷ codes s

unfoldable pub eqb : Text → Text → Bool
eqb [] [] = true
eqb [] (_ ∷ _) = false
eqb (_ ∷ _) [] = false
eqb (x ∷ xs) (y ∷ ys) = (x == y) && eqb xs ys

unfoldable pub lessb : Text → Text → Bool
lessb [] [] = false
lessb [] (_ ∷ _) = true
lessb (_ ∷ _) [] = false
lessb (x ∷ xs) (y ∷ ys) = ltb x y || ((x == y) && lessb xs ys)

pub eqb_refl : (a : Text) → eqb a a ≡ true
unfolding eqb
eqb_refl [] = refl
eqb_refl (x ∷ xs) = ground (arith, eqb_refl xs)

pub eq_of_eqb : (a b : Text) → eqb a b ≡ true → a ≡ b
unfolding eqb
eq_of_eqb [] [] h = refl
eq_of_eqb [] (y ∷ ys) h = cc
eq_of_eqb (x ∷ xs) [] h = cc
eq_of_eqb (x ∷ xs) (y ∷ ys) h = ground (arith, eq_of_eqb xs ys)

eqb_of_eq : (a b : Text) → a ≡ b → eqb a b ≡ true
eqb_of_eq a b h = rw h (eqb_refl b)

pub eqb_iff : (a b : Text) → (eqb a b ≡ true) ↔ (a ≡ b)
eqb_iff a b = (eq_of_eqb a b, eqb_of_eq a b)

pub lessb_irrefl : (a : Text) → lessb a a ≡ false
unfolding lessb
lessb_irrefl [] = refl
lessb_irrefl (x ∷ xs) = ground (arith, lessb_irrefl xs)

pub lessb_trans : (a b c : Text) → lessb a b ≡ true → lessb b c ≡ true → lessb a c ≡ true
unfolding lessb
lessb_trans [] [] c h k = cc
lessb_trans [] (y ∷ ys) [] h k = cc
lessb_trans [] (y ∷ ys) (z ∷ zs) h k = refl
lessb_trans (x ∷ xs) [] c h k = cc
lessb_trans (x ∷ xs) (y ∷ ys) [] h k = cc
lessb_trans (x ∷ xs) (y ∷ ys) (z ∷ zs) h k = ground (arith, lessb_trans xs ys zs)

pub lessb_total : (a b : Text) → lessb a b ≡ false → eqb a b ≡ false → lessb b a ≡ true
unfolding lessb eqb
lessb_total [] [] h k = cc
lessb_total [] (y ∷ ys) h k = cc
lessb_total (x ∷ xs) [] h k = refl
lessb_total (x ∷ xs) (y ∷ ys) h k = ground (arith, lessb_total xs ys)

abbrev pub AreBytes : Bytes → Type 0
AreBytes [] = Unit
AreBytes (b ∷ bs) = (b < 256) × AreBytes bs
