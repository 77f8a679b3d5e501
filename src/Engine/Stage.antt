-- ===== src/Engine/Stage.antt =====
-- The first half of `put` (src/engine.rs): the chunks of the input are sealed, those that the store
-- has keep their placement, and the others are staged for one new segment.
use git_storage.Prelude.{
  ℕ, ◌+◌, ◌%◌, ◌^◌, Bool, true, false, Option, none, some, List, [], ◌∷◌, ◌++◌, map, length,
  if◌then◌else◌,
}
use git_storage.Prelude.Text.{Bytes, Text}
use git_storage.Prelude.Result.{Result, ok, ◌>>=◌}
use git_storage.Map.{Map, get, insert, contains_key, values}
use git_storage.Map.Order.{text_ord}
use git_storage.Manifest.{ChunkRef, Manifest}
use git_storage.Crypto.Primitives.{Primitives}
use git_storage.Crypto.Keys.{SealedChunk, seal_chunk}
use git_storage.Engine.Txn.{Namespace}
use git_storage.Engine.Config.{Engine}

-- A placement: volume, segment, ciphertext length.
pub record Placement : Type 0 where
  pub vol : Text
  pub seg : Text
  pub clen : ℕ

abbrev pub Known : Type 0
Known = Map Text Placement

unfoldable pub know_chunks : List ChunkRef → Known → Known
know_chunks [] known = known
know_chunks (c ∷ cs) known =
    know_chunks cs (insert c.id (record { vol = c.vol; seg = c.seg; clen = c.clen }) known)

unfoldable pub know_manifests : List Manifest → Known → Known
unfolding know_chunks
know_manifests [] known = known
know_manifests (m ∷ ms) known = know_manifests ms (know_chunks m.chunks known)

-- The placements of all chunks of the namespace.
unfoldable pub known_chunks : Namespace → Known
unfolding know_manifests
known_chunks namespace = know_manifests (values namespace) []

-- The variables that the closure of `put` changes. A chunk of `chunk_meta` is marked if it is new.
pub record Staging : Type 0 where
  pub staged : List (Text × Bytes)
  pub staged_ids : Map Text (Unit {0})
  pub chunk_meta : List (ChunkRef × Bool)
  pub new_chunks : ℕ
  pub ciphertext_bytes : ℕ
  pub size : ℕ

abbrev pub no_staging : Staging
no_staging = record {
  staged = [];
  staged_ids = [];
  chunk_meta = [];
  new_chunks = 0;
  ciphertext_bytes = 0;
  size = 0;
}

-- A sealed chunk that the store does not have is buffered and counted once for each put.
unfoldable pub stage_new : SealedChunk → Staging → Staging
stage_new sealed s = if contains_key sealed.chunk_id s.staged_ids then s else record s {
  staged_ids = insert sealed.chunk_id tt s.staged_ids;
  ciphertext_bytes = (s.ciphertext_bytes + length sealed.ciphertext) % 2 ^ 64;
  new_chunks = s.new_chunks + 1;
  staged = s.staged ++ (sealed.chunk_id, sealed.ciphertext) ∷ [];
}

unfoldable pub chunk_ref : SealedChunk → ℕ → Text → Text → ChunkRef
chunk_ref sealed len vol seg = record {
  id = sealed.chunk_id;
  plaintext_hash = sealed.plaintext_hash_hex;
  len = len;
  clen = length sealed.ciphertext;
  vol = vol;
  seg = seg;
}

unfoldable pub place_chunk : Option Placement → Text → SealedChunk → ℕ → Staging → Staging
unfolding stage_new chunk_ref
place_chunk (some p) seg_id sealed len s = record s {
  chunk_meta = s.chunk_meta ++ (chunk_ref sealed len p.vol p.seg, false) ∷ [];
}
place_chunk none seg_id sealed len s =
    let t = stage_new sealed s in
    record t { chunk_meta = t.chunk_meta ++ (chunk_ref sealed len [] seg_id, true) ∷ [] }

-- The closure that `put` hands to `stream_chunks`.
unfoldable pub stage_chunk : Primitives → Engine → Known → Text → Bytes → Staging → Result Staging
unfolding place_chunk
stage_chunk P engine known seg_id chunk s = do
  let s' = record s { size = (s.size + length chunk) % 2 ^ 64 }
  sealed ← seal_chunk P engine.keys chunk engine.config.zstd_level
  ok (place_chunk (get sealed.chunk_id known) seg_id sealed (length chunk) s')

-- The placeholder placements of new chunks, filled with the chosen volume.
unfoldable pub fill_placement : Text → ChunkRef × Bool → ChunkRef × Bool
fill_placement vid (c, is_new) = (if is_new then record c { vol = vid } else c, is_new)

unfoldable pub placed_chunks : Option Text → List (ChunkRef × Bool) → List ChunkRef
unfolding fill_placement
placed_chunks none metas = map (λ m. m.0) metas
placed_chunks (some vid) metas = map (λ m. m.0) (map (fill_placement vid) metas)
