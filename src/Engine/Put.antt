-- ===== src/Engine/Put.antt =====
-- `put` (src/engine.rs): stage, choose a volume, write the segment, and commit to the log by
-- compare-and-swap, rebuilding the transaction on the new tip after each loss.
use git_storage.Prelude.{
  ℕ, zero, suc, ◌+◌, Bool, true, false, ◌&&◌, Option, none, some, List, [], ◌∷◌, ◌++◌, length, take,
  drop, leb, if◌then◌else◌, get_elem?,
}
use git_storage.Prelude.Text.{Bytes, Text, codes}
use git_storage.Prelude.Result.{Result, ok, err, cas_exhausted, panicked}
use git_storage.Backend.{Backend}
use git_storage.Map.{get, insert}
use git_storage.Map.Order.{text_ord, pair_ord}
use git_storage.Manifest.{Manifest, same_manifest}
use git_storage.Crypto.Primitives.{Primitives}
use git_storage.Crypto.Keyfile.{to_hex}
use git_storage.Chunker.Stream.{Reader, stream_chunks}
use git_storage.Engine.Txn.{
  SegRec, Txn, delta, checkpoint, StoreState, insert_seals, seg_index_records,
}
use git_storage.Engine.Volumes.{Slot, select_volume}
use git_storage.Engine.Serde.{Serde}
use git_storage.Engine.Config.{Engine}
use git_storage.Engine.Stage.{Staging, no_staging, known_chunks, stage_chunk, placed_chunks}
use git_storage.Engine.Load.{log_ref, log_tip, load_full_state, build_commit}
use git_storage.Engine.Monad.{
  M, pure, fail, lift, on_index, on_volume, slots, meanwhile, maybe_crash, maybe_pause, fill_bytes,
  ◌>>=◌, ◌>>◌,
}

abbrev pub max_cas_retries : ℕ
max_cas_retries = 32

pub record PutStats : Type 0 where
  pub total_chunks : ℕ
  pub new_chunks : ℕ
  pub ciphertext_bytes : ℕ
  pub size : ℕ
  pub committed : Bool
  pub volume : Option Text

-- Two levels of one byte in hexadecimal; a shorter identity panics.
unfoldable pub fanout_path : Text → Result Text
fanout_path id =
    if leb 4 (length id)
    then ok (take 2 id ++ (b'/' ∷ (take 2 (drop 2 id) ++ (b'/' ∷ id))))
    else err panicked

-- `random_id()`: 128 random bits in hexadecimal.
unfoldable pub random_id : {B : Backend} → M B Text
random_id = do bytes ← fill_bytes 16; pure (to_hex bytes)

-- `state.namespace.get(name) == Some(&manifest)`
unfoldable pub holds : Option Manifest → Manifest → Bool
holds none manifest = false
holds (some m) manifest = same_manifest m manifest

unfoldable pub checkpoint_due : StoreState → ℕ → Bool
checkpoint_due state interval = leb interval (state.since_checkpoint + 1)

-- The transaction of a put on a store state.
unfoldable pub put_txn : StoreState → Text → Manifest → List SegRec → Bool → Txn
put_txn state name manifest seals true =
    checkpoint (insert name manifest state.namespace)
      (seg_index_records (insert_seals seals state.seg_index))
put_txn state name manifest seals false = delta (some manifest) none seals

abbrev pub kind_of : Bool → Text
kind_of true = codes "checkpoint"
kind_of false = codes "txn"

-- Phase 1: the staged blobs, their tree and the segment's ref.
module _ {B : Backend} where
  unfoldable pub write_chunks : ℕ → List (Text × Bytes) → M B (List (Text × Text))
  write_chunks vi [] = pure []
  write_chunks vi ((id, ciphertext) ∷ staged) = do
    oid ← on_volume vi (B.write_blob ciphertext)
    path ← lift (fanout_path id)
    rest ← write_chunks vi staged
    pure ((path, oid) ∷ rest)

  unfoldable pub write_segment : ℕ → Text → Text → List (Text × Text) → M B (Unit {0})
  write_segment vi seg_id message entries = do
    tree ← on_volume vi (B.write_tree entries)
    commit ← on_volume vi (B.commit_tree tree [] message)
    on_volume vi (B.set_ref (codes "refs/segments/" ++ seg_id) commit)

abbrev pub volume_id : List Slot → Option ℕ → Option Text
volume_id vs none = none
volume_id vs (some i) = elim (get_elem? vs i) [ none ↦ none | some v ↦ some v.id ]

-- The seal record of the new segment, if there is one.
unfoldable pub new_seals : Option Text → Text → ℕ → List SegRec
new_seals none seg_id bytes = []
new_seals (some vid) seg_id bytes = record { vol = vid; seg = seg_id; bytes = bytes } ∷ []

unfoldable pub put_stats : Manifest → Staging → Option Text → Bool → PutStats
put_stats manifest s volume committed = record {
  total_chunks = length manifest.chunks;
  new_chunks = s.new_chunks;
  ciphertext_bytes = s.ciphertext_bytes;
  size = s.size;
  committed = committed;
  volume = volume;
}

unfoldable pub manifest_new : Text → Text → ℕ → Staging → Option Text → Manifest
manifest_new name file_hash avg s vid = record {
  name = name;
  size = s.size;
  avg_chunk_size = avg;
  file_hash = file_hash;
  chunks = placed_chunks vid s.chunk_meta;
}

module _ (P : Primitives) (S : Serde) {B : Backend} (engine : Engine) where
  -- `if staged.is_empty() { None } else { Some(self.select_volume(..)?) }`
  unfoldable pub target_volume : Staging → StoreState → M B (Option ℕ)
  target_volume s state = elim s.staged [
    | [] ↦ pure none
    | _ ∷ _ ↦ do
      vs ← slots
      vi ← lift (select_volume vs s.ciphertext_bytes state.seg_index)
      pure (some vi)
  ]

  unfoldable pub land_segment : Option ℕ → Text → Staging → M B (Unit {0})
  unfolding write_chunks write_segment
  land_segment none seg_id s = pure tt
  land_segment (some vi) seg_id s = do
    entries ← write_chunks vi s.staged
    write_segment vi seg_id (codes "segment " ++ seg_id) entries

  -- One round of the commit loop, on the state of the tip that it read.
  unfoldable pub commit_put :
      M B Bool → Text → Manifest → List SegRec → Option Text → StoreState → M B Bool
  commit_put again name manifest seals tip state =
      if holds (get name state.namespace) manifest then pure false else do
        let due = checkpoint_due state engine.config.checkpoint_interval
        commit ← build_commit P S engine (put_txn state name manifest seals due) tip (kind_of due)
        maybe_crash (codes "before-cas")
        meanwhile
        won ← on_index (B.cas_ref log_ref commit tip)
        if won then (do maybe_crash (codes "after-cas"); pure true) else again

  -- Phase 2, the commit point: whether a transaction was committed.
  unfoldable pub put_loop : ℕ → Text → Manifest → List SegRec → M B Bool
  unfolding commit_put
  put_loop zero name manifest seals = fail cas_exhausted
  put_loop (suc attempts) name manifest seals = do
    tip ← log_tip
    state ← load_full_state P S engine tip
    commit_put (put_loop attempts name manifest seals) name manifest seals tip state

  -- After the staging: the identical re-put ends here, and all else goes through both phases.
  unfoldable pub put_staged :
      Text → Text → Manifest → Staging → Option ℕ → Option Text → StoreState → M B PutStats
  unfolding land_segment new_seals put_loop put_stats holds
  put_staged name seg_id manifest s target vid state =
      if leb (length s.staged) 0 && holds (get name state.namespace) manifest
      then pure (record {
        total_chunks = length manifest.chunks;
        new_chunks = 0;
        ciphertext_bytes = 0;
        size = s.size;
        committed = false;
        volume = none;
      })
      else do
        maybe_crash (codes "before-segment")
        land_segment target seg_id s
        maybe_crash (codes "after-segment")
        maybe_pause (codes "after-segment")
        committed ← put_loop max_cas_retries name manifest (new_seals vid seg_id s.ciphertext_bytes)
        pure (put_stats manifest s vid committed)

  unfoldable pub put : Text → Reader → M B PutStats
  unfolding target_volume put_staged
  put name reader = do
    state ← load_full_state P S engine none
    seg_id ← random_id
    (file_hash, s) ← lift (
        stream_chunks P reader engine.config.chunker engine.keys.gear_seed
          (stage_chunk P engine (known_chunks state.namespace) seg_id) no_staging)
    target ← target_volume s state
    vs ← slots
    let vid = volume_id vs target
    let manifest = manifest_new name file_hash engine.config.chunker.avg_size s vid
    put_staged name seg_id manifest s target vid state
