-- ===== src/Engine/Get.antt =====
-- `get` (src/engine.rs): every chunk and the whole file are verified on the way out.
pub mod Verified
use git_storage.Prelude.{
  ℕ, ◌+◌, not, Option, none, some, List, [], ◌∷◌, ◌++◌, length, ◌==◌, if◌then◌else◌,
}
use git_storage.Prelude.Text.{Bytes, Text, codes, eqb}
use git_storage.Prelude.Result.{
  ok_or, no_such_file, unknown_volume, hash_mismatch, length_mismatch, file_hash_mismatch,
}
use git_storage.Backend.{Backend}
use git_storage.Map.{get}
use git_storage.Map.Order.{text_ord, pair_ord}
use git_storage.Manifest.{ChunkRef}
use git_storage.Crypto.Primitives.{Primitives}
use git_storage.Crypto.Keys.{open_chunk}
use git_storage.Engine.Volumes.{Slot}
use git_storage.Engine.Serde.{Serde}
use git_storage.Engine.Config.{Engine}
use git_storage.Engine.Load.{load_full_state}
use git_storage.Engine.Put.{fanout_path}
use git_storage.Engine.Monad.{M, pure, fail, lift, on_volume, slots, ◌>>=◌}

-- `self.volumes.iter().position(|v| v.id == id)`
unfoldable pub position : Text → ℕ → List Slot → Option ℕ
position id i [] = none
position id i (v ∷ vs) = let rest = position id (i + 1) vs in if eqb v.id id then some i else rest

unfoldable pub segment_ref : Text → Text
segment_ref seg = codes "refs/segments/" ++ seg

-- The writer of `get`, with the hasher that runs beside it.
pub record Output (P : Primitives) : Type 0 where
  pub file_hasher : P.Hasher
  pub written : Bytes

module _ (P : Primitives) (S : Serde) {B : Backend} (engine : Engine) where
  -- The ciphertext of a chunk where the manifest says it is.
  unfoldable pub fetch_chunk : ChunkRef → M B Bytes
  fetch_chunk c = do
    vs ← slots
    vi ← lift (ok_or (position c.vol 0 vs) unknown_volume)
    path ← lift (fanout_path c.id)
    on_volume vi (B.read_blob_at (segment_ref c.seg) path)

  -- One chunk of `get`: its content address, its seal and its plaintext hash, and its length.
  unfoldable pub read_chunk : ChunkRef → M B Bytes
  unfolding fetch_chunk
  read_chunk c = do
    ciphertext ← fetch_chunk c
    if not (eqb (P.to_hex (P.hash ciphertext)) c.id) then fail hash_mismatch else do
      plaintext ← lift (open_chunk P engine.keys ciphertext c.plaintext_hash)
      if length plaintext == c.len then pure plaintext else fail length_mismatch

  unfoldable pub read_chunks : List ChunkRef → Output P → M B (Output P)
  unfolding read_chunk
  read_chunks [] out = pure out
  read_chunks (c ∷ cs) out = do
    plaintext ← read_chunk c
    read_chunks cs (record {
      file_hasher = P.update out.file_hasher plaintext;
      written = out.written ++ plaintext;
    })

  -- The size of the file, and the bytes written.
  unfoldable pub get_file : Text → Option Text → M B (ℕ × Bytes)
  unfolding read_chunks
  get_file name at = do
    state ← load_full_state P S engine at
    manifest ← lift (ok_or (get name state.namespace) no_such_file)
    out ← read_chunks manifest.chunks (record { file_hasher = P.hasher_new; written = [] })
    if eqb (P.to_hex (P.finalize out.file_hasher)) manifest.file_hash
        then pure (manifest.size, out.written)
        else fail file_hash_mismatch
