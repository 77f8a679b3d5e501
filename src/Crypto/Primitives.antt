-- ===== src/Crypto/Primitives.antt =====
-- The crates that src/crypto.rs calls, as a parameter: blake3, zstd and chacha20poly1305.
use git_storage.Prelude.{ℕ, ◌≡◌, Option, some, ◌++◌, [], ◌≤◌, length}
use git_storage.Prelude.Text.{Bytes, Text}
use git_storage.Prelude.Int.{ℤ}

pub record Primitives : Type 1 where
  -- `blake3::derive_key(context, key)` and `blake3::keyed_hash(key, input)`
  pub derive_key : Text → Bytes → Bytes
  pub keyed_hash : Bytes → Bytes → Bytes
  -- `blake3::hash`, `Hash::to_hex` and `Hash::from_hex`
  pub hash : Bytes → Bytes
  pub to_hex : Bytes → Text
  pub from_hex : Text → Option Bytes
  -- `blake3::Hasher`
  pub Hasher : Type 0
  pub hasher_new : Hasher
  pub update : Hasher → Bytes → Hasher
  pub finalize : Hasher → Bytes
  -- `zstd::bulk::compress(data, level)` and `decompress(data, capacity)`
  pub compress : Bytes → ℤ → Option Bytes
  pub decompress : Bytes → ℕ → Option Bytes
  -- XChaCha20-Poly1305: key, nonce, associated data, message
  pub encrypt : Bytes → Bytes → Bytes → Bytes → Option Bytes
  pub decrypt : Bytes → Bytes → Bytes → Bytes → Option Bytes

-- The documented behaviour that the program relies on.
pub record IsSound (P : Primitives) : Type 0 where
  -- a hasher that is fed in pieces is a hasher fed with all of them
  pub update-update : (h : P.Hasher) (a b : Bytes) → P.update (P.update h a) b ≡ P.update h (a ++ b)
  pub update-nil : (h : P.Hasher) → P.update h [] ≡ h
  pub finalize-update : (a : Bytes) → P.finalize (P.update P.hasher_new a) ≡ P.hash a
  -- the hexadecimal form of a hash can be read back
  pub from_hex-to_hex : (a : Bytes) → P.from_hex (P.to_hex (P.hash a)) ≡ some (P.hash a)
  -- what is compressed can be decompressed into a buffer that is large enough
  pub decompress-compress :
      (a c : Bytes) (level : ℤ) (cap : ℕ)
      → P.compress a level ≡ some c
      → length a ≤ cap
      → P.decompress c cap ≡ some a
  -- what is encrypted can be decrypted under the same key, nonce and associated data
  pub decrypt-encrypt :
      (key nonce aad a c : Bytes)
      → P.encrypt key nonce aad a ≡ some c
      → P.decrypt key nonce aad c ≡ some a
