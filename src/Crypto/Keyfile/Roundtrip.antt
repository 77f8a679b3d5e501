-- ===== src/Crypto/Keyfile/Roundtrip.antt =====
-- A key that was written to a keyfile is read back.
use git_storage.Prelude.{
  ℕ, ◌*◌, ◌<◌, ◌%◌, ◌/◌, ◌≡◌, refl, ap, Bool, true, false, none, [], ◌∷◌, ◌++◌, length, arith,
}
use git_storage.Prelude.Text.{Bytes, AreBytes}
use git_storage.Prelude.Spaces.{NoSpace, trim_line}
use git_storage.Prelude.Str.{is_whitespace, trim}
use git_storage.Prelude.Result.{ok}
use git_storage.Crypto.Keyfile.{
  hex_digit, to_hex, is_hexdigit, all_hexdigits, digit_value, pairs, parse_hex_32, load_or_create,
}

digit_value-hex_digit : (n : ℕ) → n < 16 → digit_value (hex_digit n) ≡ n
unfolding digit_value hex_digit
digit_value-hex_digit n h = ground arith

is_hexdigit-hex_digit : (n : ℕ) → n < 16 → is_hexdigit (hex_digit n) ≡ true
unfolding is_hexdigit hex_digit
is_hexdigit-hex_digit n h = ground arith

pairs-to_hex : (bs : Bytes) → AreBytes bs → pairs (to_hex bs) ≡ bs
unfolding pairs to_hex
pairs-to_hex [] h = refl
pairs-to_hex (b ∷ bs) (h, hs) =
    rw
      (
        digit_value-hex_digit (b / 16 % 16) (omega arith),
        digit_value-hex_digit (b % 16) (omega arith),
        pairs-to_hex bs hs,
      )
      (ap (λ x. x ∷ bs) (omega arith))

length-to_hex : (bs : Bytes) → length (to_hex bs) ≡ 2 * length bs
unfolding to_hex
length-to_hex [] = refl
length-to_hex (b ∷ bs) = omega (arith, length-to_hex bs)

all_hexdigits-to_hex : (bs : Bytes) → all_hexdigits (to_hex bs) ≡ true
unfolding all_hexdigits to_hex
all_hexdigits-to_hex [] = refl
all_hexdigits-to_hex (b ∷ bs) = rw (
  is_hexdigit-hex_digit (b / 16 % 16) (omega arith),
  is_hexdigit-hex_digit (b % 16) (omega arith),
  all_hexdigits-to_hex bs,
)

parse_hex_32-to_hex :
    (key : Bytes) → AreBytes key → length key ≡ 32 → parse_hex_32 (to_hex key) ≡ ok key
unfolding parse_hex_32
parse_hex_32-to_hex key h n =
    rw (all_hexdigits-to_hex key, pairs-to_hex key h) (ground (arith, length-to_hex key))

is_whitespace-hex_digit : (n : ℕ) → n < 16 → is_whitespace (hex_digit n) ≡ false
unfolding is_whitespace hex_digit
is_whitespace-hex_digit n h = ground arith

NoSpace-to_hex : (bs : Bytes) → NoSpace (to_hex bs)
unfolding to_hex
NoSpace-to_hex [] = tt
NoSpace-to_hex (b ∷ bs) = (
  is_whitespace-hex_digit (b / 16 % 16) (omega arith),
  (is_whitespace-hex_digit (b % 16) (omega arith), NoSpace-to_hex bs),
)

trim_hex : (key : Bytes) → 0 < length key → trim (to_hex key ++ 10 ∷ []) ≡ to_hex key
trim_hex [] h = absurd (omega arith)
trim_hex (b ∷ bs) h =
    unfold to_hex in
    trim_line (hex_digit (b / 16 % 16)) (hex_digit (b % 16) ∷ to_hex bs) (NoSpace-to_hex (b ∷ bs))

-- The key that a new store creates is the key that every later run reads from the file, whether or
-- not it may create one, and no later run changes the file.
pub load_or_create_again :
    (key other : Bytes) (allow_create can_write can_chmod : Bool)
    → AreBytes key
    → length key ≡ 32
    → let made = load_or_create none true key true true in
      (made.0 ≡ ok key) × (load_or_create made.1 allow_create other can_write can_chmod ≡ made)
unfolding load_or_create
load_or_create_again key other allow_create can_write can_chmod h n =
    (refl, rw (trim_hex key (omega arith), parse_hex_32-to_hex key h n))
