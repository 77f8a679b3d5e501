-- ===== src/Prelude/Decimal.antt =====
-- The decimal digits of a number, as `format!` writes them.
use git_storage.Prelude.Tests.{ltb, ltb→lt, Bool-cases, if◌then◌else◌}
use git_storage.Prelude.Text.{Text}
use git_storage.Prelude.Str.{parse_digits, parse_usize, is_whitespace}
use git_storage.Prelude.Spaces.{NoSpace}
use Prim.Native.Nat.{ℕ, zero, suc, ◌+◌, ◌-◌, ◌*◌, ◌/◌, ◌%◌, ◌^◌, ◌<◌, ◌≤◌}
use mathlib.Core.Path.{◌≡◌, sym, ap, ◌∙◌}
use mathlib.Core.Logic.{inl, inr}
use mathlib.Core.Bool.{false}
use mathlib.Core.Option.{some}
use mathlib.Core.List.{[], ◌∷◌}
use native.Mathlib.Omega.{arith}

-- The digits before some others; a number has fewer digits than one more than itself.
unfoldable pub digits_before : ℕ → ℕ → Text → Text
digits_before zero n s = s
digits_before (suc fuel) n s =
    let rest = digits_before fuel (n / 10) ((b'0' + n % 10) ∷ s) in
    if ltb n 10 then (b'0' + n) ∷ s else rest

unfoldable pub decimal : ℕ → Text
unfolding digits_before
decimal n = digits_before (suc n) n []

-- One digit is read.
parse_digits-step :
    (m d : ℕ) (s : Text)
    → d < 10
    → m * 10 + d < 2 ^ 64
    → parse_digits m ((b'0' + d) ∷ s) ≡ parse_digits (m * 10 + d) s
unfolding parse_digits
parse_digits-step m d s h k = let same : b'0' + d - b'0' ≡ d = omega arith in rw same (ground arith)

parse_digits-digits_before :
    (fuel n : ℕ) (s : Text)
    → n < fuel
    → n < 2 ^ 64
    → parse_digits 0 (digits_before fuel n s) ≡ parse_digits n s
unfolding digits_before
parse_digits-digits_before zero n s h k = absurd (omega arith)
parse_digits-digits_before (suc fuel) n s h k = elim (Bool-cases (ltb n 10)) [
  | inl e ↦
      let zero_tens : 0 * 10 + n ≡ n = omega arith in
      rw (e, parse_digits-step 0 n s (ltb→lt n 10 e) (omega arith), zero_tens)
  | inr e ↦
      let tens : 10 ≤ n = ground arith in
      let whole : n / 10 * 10 + n % 10 ≡ n = omega arith in
      rw (
        e,
        parse_digits-digits_before fuel (n / 10) ((b'0' + n % 10) ∷ s) (omega arith) (omega arith),
        parse_digits-step (n / 10) (n % 10) s (omega arith) (omega arith),
        whole,
      )
]

not_space : (d : ℕ) → d < 10 → is_whitespace (b'0' + d) ≡ false
unfolding is_whitespace
not_space d h = ground arith

-- No character of it is white space.
NoSpace-digits_before : (fuel n : ℕ) (s : Text) → NoSpace s → NoSpace (digits_before fuel n s)
unfolding digits_before
NoSpace-digits_before zero n s h = h
NoSpace-digits_before (suc fuel) n s h = elim (Bool-cases (ltb n 10)) [
  | inl e ↦ rw e (not_space n (ltb→lt n 10 e), h)
  | inr e ↦ rw e (
      NoSpace-digits_before fuel (n / 10) ((b'0' + n % 10) ∷ s)
        (not_space (n % 10) (omega arith), h))
]

pub NoSpace-decimal : (n : ℕ) → NoSpace (decimal n)
unfolding decimal
NoSpace-decimal n = NoSpace-digits_before (suc n) n [] tt

-- The number that stands in some decimal digits; a first digit is there.
starts_digit :
    (fuel n : ℕ) (s : Text)
    → (d : ℕ) × (t : Text) × (d < 10) × (digits_before (suc fuel) n s ≡ (b'0' + d) ∷ t)
unfolding digits_before
starts_digit zero n s = elim (Bool-cases (ltb n 10)) [
  | inl e ↦ (n, s, ltb→lt n 10 e, rw e)
  | inr e ↦ (n % 10, s, omega arith, rw e)
]
starts_digit (suc fuel) n s = elim (Bool-cases (ltb n 10)) [
  | inl e ↦ (n, s, ltb→lt n 10 e, rw e)
  | inr e ↦ let (d, t, h, k) = starts_digit fuel (n / 10) ((b'0' + n % 10) ∷ s) in (d, t, h, rw e k)
]

parse_usize_digit :
    (d : ℕ) (t : Text) → d < 10 → parse_usize ((b'0' + d) ∷ t) ≡ parse_digits 0 ((b'0' + d) ∷ t)
unfolding parse_usize
parse_usize_digit d [] h = ground arith
parse_usize_digit d (c ∷ t) h = ground arith

parse_usize-digits_before : (n : ℕ) → n < 2 ^ 64 → parse_usize (digits_before (suc n) n []) ≡ some n
unfolding parse_digits
parse_usize-digits_before n h =
    let (d, t, k, e) = starts_digit n n [] in
    let read : parse_digits 0 (digits_before (suc n) n []) ≡ some n =
      parse_digits-digits_before (suc n) n [] (omega arith) h in
    ap parse_usize e ∙ parse_usize_digit d t k ∙ ap (parse_digits 0) (sym e) ∙ read

pub parse_usize-decimal : (n : ℕ) → n < 2 ^ 64 → parse_usize (decimal n) ≡ some n
unfolding decimal
parse_usize-decimal n h = parse_usize-digits_before n h
