-- ===== src/Crypto/Keys.antt =====
-- `Keys` (src/crypto.rs): what is derived from the master key, and the sealing and opening of chunks
-- and manifests. The random nonce of a sealed manifest is an argument.
pub mod Laws
use git_storage.Prelude.{
  ℕ, zero, suc, ◌+◌, ◌*◌, ◌%◌, ◌/◌, ◌^◌, Bool, true, false, Option, none, some, List, [], ◌∷◌, ◌++◌,
  length, take, drop, ltb, if◌then◌else◌,
}
use git_storage.Prelude.Text.{Bytes, Text, codes, eqb}
use git_storage.Prelude.Int.{ℤ}
use git_storage.Prelude.Result.{
  Result, ok, err, ◌>>=◌, ok_or, ensure, aead_failed, zstd_failed, bad_hash, hash_mismatch,
  too_short,
}
use git_storage.Chunker.Params.{abs_max_chunk}
use git_storage.Crypto.Primitives.{Primitives}

abbrev pub format_version : ℕ
format_version = 1

abbrev pub ctx_manifest : Text
ctx_manifest = codes "git-storage 2026-07-16 manifest key v1"

abbrev pub ctx_gear : Text
ctx_gear = codes "git-storage 2026-07-16 chunker gear seed v1"

abbrev pub ctx_chunk : Text
ctx_chunk = codes "git-storage 2026-07-16 chunk key v1"

abbrev pub ctx_nonce : Text
ctx_nonce = codes "git-storage 2026-07-16 chunk nonce v1"

abbrev pub ctx_name : Text
ctx_name = codes "git-storage 2026-07-16 manifest name tag v1"

-- `u64::from_le_bytes`, and `to_le_bytes` of a `u32`
unfoldable pub from_le_bytes : Bytes → ℕ
from_le_bytes [] = 0
from_le_bytes (b ∷ bs) = b + 256 * from_le_bytes bs

unfoldable pub to_le_bytes : ℕ → Bytes
to_le_bytes n = n % 256 ∷ n / 2 ^ 8 % 256 ∷ n / 2 ^ 16 % 256 ∷ n / 2 ^ 24 % 256 ∷ []

-- The associated data of every seal: the format version.
unfoldable pub aad : Bytes
unfolding to_le_bytes
aad = codes "git-storage/v" ++ to_le_bytes format_version

pub record Keys : Type 0 where
  pub master : Bytes
  pub manifest_key : Bytes
  pub gear_seed : ℕ

pub record SealedChunk : Type 0 where
  pub chunk_id : Text
  pub plaintext_hash_hex : Text
  pub ciphertext : Bytes

module _ (P : Primitives) where
  unfoldable pub derive : Bytes → Text → Bytes
  derive key context = P.derive_key context key

  unfoldable pub keyed_prf : Bytes → Bytes → Bytes
  keyed_prf key input = P.keyed_hash key input

  -- `Keys::new`
  unfoldable pub new : Bytes → Keys
  unfolding derive from_le_bytes
  new master = record {
    master = master;
    manifest_key = derive master ctx_manifest;
    gear_seed = from_le_bytes (take 8 (derive master ctx_gear));
  }

  unfoldable pub name_tag : Keys → Text → Text
  unfolding derive
  name_tag keys name = P.to_hex (P.keyed_hash (derive keys.master ctx_name) name)

  unfoldable pub chunk_key : Keys → Bytes → Bytes
  unfolding derive keyed_prf
  chunk_key keys plaintext_hash = keyed_prf (derive keys.master ctx_chunk) plaintext_hash

  unfoldable pub chunk_nonce : Keys → Bytes → Bytes
  unfolding derive keyed_prf
  chunk_nonce keys plaintext_hash =
      take 24 (keyed_prf (derive keys.master ctx_nonce) plaintext_hash)

  unfoldable pub seal_chunk : Keys → Bytes → ℤ → Result SealedChunk
  seal_chunk keys plaintext zstd_level = do
    let plaintext_hash = P.hash plaintext
    compressed ← ok_or (P.compress plaintext zstd_level) zstd_failed
    let key = chunk_key keys plaintext_hash
    let nonce = chunk_nonce keys plaintext_hash
    ciphertext ← ok_or (P.encrypt key nonce aad compressed) aead_failed
    ok (record {
      chunk_id = P.to_hex (P.hash ciphertext);
      plaintext_hash_hex = P.to_hex plaintext_hash;
      ciphertext = ciphertext;
    })

  unfoldable pub parse_hash : Text → Result Bytes
  parse_hash hex = ok_or (P.from_hex hex) bad_hash

  unfoldable pub open_chunk : Keys → Bytes → Text → Result Bytes
  unfolding parse_hash
  open_chunk keys ciphertext plaintext_hash_hex = do
    plaintext_hash ← parse_hash plaintext_hash_hex
    let key = chunk_key keys plaintext_hash
    let nonce = chunk_nonce keys plaintext_hash
    compressed ← ok_or (P.decrypt key nonce aad ciphertext) aead_failed
    plaintext ← ok_or (P.decompress compressed abs_max_chunk) zstd_failed
    ensure (eqb (P.hash plaintext) plaintext_hash) hash_mismatch >>= λ _. ok plaintext

  unfoldable pub seal_manifest : Keys → Bytes → Bytes → Result Bytes
  seal_manifest keys nonce plaintext = do
    ciphertext ← ok_or (P.encrypt keys.manifest_key nonce aad plaintext) aead_failed
    ok (nonce ++ ciphertext)

  unfoldable pub open_manifest : Keys → Bytes → Result Bytes
  open_manifest keys sealed =
      if ltb (length sealed) 24
      then err too_short
      else ok_or (P.decrypt keys.manifest_key (take 24 sealed) aad (drop 24 sealed)) aead_failed
