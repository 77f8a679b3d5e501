-- ===== src/Crypto/Keyfile.antt =====
-- The keyfile (`mod keyfile` of src/crypto.rs): 64 hexadecimal digits for 32 bytes. The file system
-- is the one file at the path; the random key, and whether a write or a change of permissions
-- succeeds, are arguments.
pub mod Roundtrip
use git_storage.Prelude.{
  ℕ, ◌+◌, ◌-◌, ◌*◌, ◌/◌, ◌%◌, Bool, true, false, ◌&&◌, ◌||◌, not, Option, none, some, List, [], ◌∷◌,
  ◌++◌, length, ltb, leb, ◌==◌, if◌then◌else◌,
}
use git_storage.Prelude.Text.{Bytes, Text}
use git_storage.Prelude.Str.{trim}
use git_storage.Prelude.Result.{
  Result, ok, err, ◌>>=◌, ensure, bad_keyfile, keyfile_missing, io_failed,
}

-- `format!("{b:02x}")`, one digit and both.
unfoldable pub hex_digit : ℕ → ℕ
hex_digit n = if ltb n 10 then b'0' + n else b'a' + (n - 10)

unfoldable pub to_hex : Bytes → Text
unfolding hex_digit
to_hex [] = []
to_hex (b ∷ bs) = hex_digit (b / 16 % 16) ∷ hex_digit (b % 16) ∷ to_hex bs

-- `u8::is_ascii_hexdigit`
unfoldable pub is_hexdigit : ℕ → Bool
is_hexdigit c =
    (leb b'0' c && leb c b'9') || ((leb b'a' c && leb c b'f') || (leb b'A' c && leb c b'F'))

unfoldable pub all_hexdigits : Text → Bool
unfolding is_hexdigit
all_hexdigits [] = true
all_hexdigits (c ∷ s) = is_hexdigit c && all_hexdigits s

-- One digit under `u8::from_str_radix(_, 16)`.
unfoldable pub digit_value : ℕ → ℕ
digit_value c = if leb c b'9' then c - b'0' else if leb b'a' c then c - 87 else c - 55

unfoldable pub pairs : Text → Bytes
unfolding digit_value
pairs [] = []
pairs (c ∷ []) = []
pairs (c ∷ d ∷ s) = (digit_value c * 16 + digit_value d) ∷ pairs s

unfoldable pub parse_hex_32 : Text → Result Bytes
unfolding all_hexdigits pairs
parse_hex_32 hex =
    if not (length hex == 64) || not (all_hexdigits hex) then err bad_keyfile else ok (pairs hex)

pub record File : Type 0 where
  pub content : Text
  pub mode : ℕ

-- Mode 0644, before `set_permissions`.
abbrev pub created : Text → File
created content = record { content = content; mode = 0o644 }

-- The key, and the file afterwards.
unfoldable pub load_or_create :
    Option File → Bool → Bytes → Bool → Bool → Result Bytes × Option File
load_or_create (some f) allow_create key can_write can_chmod =
    (parse_hex_32 (trim f.content), some f)
load_or_create none false key can_write can_chmod = (err keyfile_missing, none)
load_or_create none true key false can_chmod = (err io_failed, none)
load_or_create none true key true false = (err io_failed, some (created (to_hex key ++ 10 ∷ [])))
load_or_create none true key true true =
    (ok key, some (record { content = to_hex key ++ 10 ∷ []; mode = 0o600 }))
