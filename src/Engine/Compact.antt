-- ===== src/Engine/Compact.antt =====
-- `compact` (src/engine.rs): the gates, and for each candidate the rewrite, the commit point, and
-- only after it the reclaiming of the volume.
pub mod Apart
use git_storage.Prelude.{
  ℕ, zero, suc, Bool, true, false, not, ◌&&◌, Option, none, some, List, [], ◌∷◌, ◌++◌, length,
  get_elem?, if◌then◌else◌,
}
use git_storage.Prelude.Text.{Bytes, Text, codes, eqb}
use git_storage.Prelude.Result.{Result, ok, err, ok_or, unknown_volume, hash_mismatch, panicked}
use git_storage.Backend.{Backend}
use git_storage.Map.{insert, contains_key, values}
use git_storage.Map.Order.{text_ord, pair_ord}
use git_storage.Manifest.{ChunkRef, Manifest}
use git_storage.Crypto.Primitives.{Primitives}
use git_storage.Engine.Txn.{SegRec, compact, StoreState}
use git_storage.Engine.Volumes.{Slot, volume_used, select_compact_dest}
use git_storage.Engine.Serde.{Serde}
use git_storage.Engine.Config.{Engine}
use git_storage.Engine.Load.{log_ref, log_tip, load_full_state, build_commit}
use git_storage.Engine.Put.{fanout_path, max_cas_retries, write_segment}
use git_storage.Engine.Get.{position, segment_ref}
use git_storage.Engine.Repoint.{
  IdSet, Live, no_live, live_manifests, compact_segment_id, build_repoint, any_touches,
  has_segments,
}
use git_storage.Engine.Monad.{
  M, pure, fail, lift, try, on_index, on_volume, slots, meanwhile, maybe_crash, ◌>>=◌, ◌>>◌,
}

pub record CompactedVolume : Type 0 where
  pub volume : Text
  pub dest_volume : Text
  pub bytes_before : ℕ
  pub bytes_after : ℕ
  pub chunks_moved : ℕ

module _ {B : Backend} where
  -- The ciphertext of a chunk of the volume that retires, with its content address verified.
  unfoldable pub read_chunk_ciphertext : Primitives → Text → Text → Text → M B Bytes
  read_chunk_ciphertext P vid seg id = do
    vs ← slots
    vi ← lift (ok_or (position vid 0 vs) unknown_volume)
    path ← lift (fanout_path id)
    ciphertext ← on_volume vi (B.read_blob_at (segment_ref seg) path)
    if eqb (P.to_hex (P.hash ciphertext)) id then pure ciphertext else fail hash_mismatch

  -- The chunks of one file, and of all: each identity is rewritten once.
  unfoldable pub rewrite_chunks :
      Primitives
      → Text
      → ℕ
      → List ChunkRef
      → IdSet × List (Text × Text)
      → M B (IdSet × List (Text × Text))
  unfolding read_chunk_ciphertext
  rewrite_chunks P vid dest [] s = pure s
  rewrite_chunks P vid dest (c ∷ cs) (moved, entries) =
      if eqb c.vol vid && not (contains_key c.id moved)
      then (do
        ciphertext ← read_chunk_ciphertext P vid c.seg c.id
        oid ← on_volume dest (B.write_blob ciphertext)
        path ← lift (fanout_path c.id)
        rewrite_chunks P vid dest cs (insert c.id tt moved, entries ++ (path, oid) ∷ []))
      else rewrite_chunks P vid dest cs (moved, entries)

  unfoldable pub rewrite_files :
      Primitives
      → Text
      → ℕ
      → List Manifest
      → IdSet × List (Text × Text)
      → M B (IdSet × List (Text × Text))
  unfolding rewrite_chunks
  rewrite_files P vid dest [] s = pure s
  rewrite_files P vid dest (m ∷ ms) s = do
    s' ← rewrite_chunks P vid dest m.chunks s
    rewrite_files P vid dest ms s'

  -- `is_none` of the segment's ref: a segment that an earlier run left is reused.
  unfoldable pub rewrite_new : Primitives → Text → ℕ → Text → Live → Option Text → M B (Unit {0})
  unfolding rewrite_files
  rewrite_new P vid dest new_seg l (some _) = pure tt
  rewrite_new P vid dest new_seg l none = do
    (_, entries) ← rewrite_files P vid dest l.affected ([], [])
    write_segment dest new_seg (codes "compact segment " ++ new_seg) entries

  unfoldable pub rewrite_live : Primitives → Text → ℕ → Text → Live → IdSet → M B (Unit {0})
  unfolding rewrite_new
  rewrite_live P vid dest new_seg l [] = pure tt
  rewrite_live P vid dest new_seg l (_ ∷ _) = do
    there ← on_volume dest (B.read_ref (segment_ref new_seg))
    rewrite_new P vid dest new_seg l there

  -- Phase 1: the live chunks in a new segment of the destination.
  unfoldable pub rewrite : Primitives → Text → ℕ → Text → Live → M B (Unit {0})
  unfolding rewrite_live
  rewrite P vid dest new_seg l = rewrite_live P vid dest new_seg l l.live_ids

  unfoldable pub delete_refs : ℕ → List (Text × Text) → M B (Unit {0})
  delete_refs vi [] = pure tt
  delete_refs vi ((refname, _) ∷ refs) = do on_volume vi (B.delete_ref refname); delete_refs vi refs

  unfoldable pub reclaim_rest : ℕ → Result (Unit {0}) → M B (Unit {0})
  unfolding delete_refs
  reclaim_rest vi (ok _) = on_volume vi B.recreate
  reclaim_rest vi (err _) = do
    refs ← on_volume vi (B.list_refs (codes "refs/segments/"))
    delete_refs vi refs

  -- Phase 3: the whole repository where the backend can, and else the segment refs.
  unfoldable pub reclaim : ℕ → M B (Unit {0})
  unfolding reclaim_rest
  reclaim vi = do destroyed ← try (on_volume vi B.destroy); reclaim_rest vi destroyed

unfoldable pub compact_seals : Text → Text → Live → List SegRec
compact_seals dest_id new_seg l = elim l.live_ids [
  | [] ↦ []
  | _ ∷ _ ↦ record { vol = dest_id; seg = new_seg; bytes = l.live_bytes } ∷ []
]

-- What a compaction of one volume reports.
unfoldable pub compacted : Text → Text → ℕ → Live → CompactedVolume
compacted vid dest_id bytes_before l = record {
  volume = vid;
  dest_volume = dest_id;
  bytes_before = bytes_before;
  bytes_after = 0;
  chunks_moved = length l.live_ids;
}

module _ (P : Primitives) (S : Serde) {B : Backend} (engine : Engine) where
  -- The commit of the replacements, if every chunk that is still on the volume was rewritten.
  unfoldable pub commit_repoint :
      M B Bool → Text → List SegRec → Option Text → StoreState → Option (List Manifest) → M B Bool
  commit_repoint again retired seals tip state none = pure false
  commit_repoint again retired seals tip state (some repoint) =
      if not (any_touches retired (values state.namespace))
        && not (has_segments retired state.seg_index)
      then pure true
      else do
        commit ←
            build_commit P S engine (compact (retired ∷ []) seals repoint) tip (codes "compact")
        maybe_crash (codes "compact-before-cas")
        meanwhile
        won ← on_index (B.cas_ref log_ref commit tip)
        if won then (do maybe_crash (codes "compact-after-cas"); pure true) else again

  -- One round of the commit loop, on the files of the state of the tip that it read.
  unfoldable pub commit_round :
      M B Bool → Text → Text → Text → IdSet → List SegRec → Option Text → StoreState → M B Bool
  unfolding commit_repoint
  commit_round again retired dest_id new_seg moved seals tip state =
      commit_repoint again retired seals tip state
        (build_repoint retired dest_id new_seg moved (values state.namespace))

  unfoldable pub commit_compaction : ℕ → Text → Text → Text → IdSet → List SegRec → M B Bool
  unfolding commit_round
  commit_compaction zero retired dest_id new_seg moved seals = pure false
  commit_compaction (suc attempts) retired dest_id new_seg moved seals = do
    tip ← log_tip
    state ← load_full_state P S engine tip
    commit_round (commit_compaction attempts retired dest_id new_seg moved seals) retired dest_id
        new_seg moved seals tip state

  -- After the choice of a destination: rewrite, commit, and reclaim only what was committed.
  unfoldable pub compact_to : Text → StoreState → Live → ℕ → Slot → M B (Option CompactedVolume)
  unfolding compact_seals compacted
  compact_to vid base l dest d = do
    let new_seg = compact_segment_id P vid l.live_ids
    rewrite P vid dest new_seg l
    maybe_crash (codes "compact-after-rewrite")
    committed ←
        commit_compaction max_cas_retries vid d.id new_seg l.live_ids (compact_seals d.id new_seg l)
    if not committed then pure none else do
      maybe_crash (codes "compact-before-delete")
      vs ← slots
      src ← lift (ok_or (position vid 0 vs) panicked)
      reclaim src
      pure (some (compacted vid d.id (volume_used vid base.seg_index) l))

  unfoldable pub compact_one : Text → StoreState → M B (Option CompactedVolume)
  unfolding compact_to
  compact_one vid base = do
    let l = live_manifests vid (values base.namespace) no_live
    vs ← slots
    elim (select_compact_dest vs vid l.live_bytes base.seg_index) [
      | none ↦ pure none
      | some dest ↦ do d ← lift (ok_or (get_elem? vs dest) panicked); compact_to vid base l dest d
    ]
