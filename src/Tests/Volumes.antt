-- ===== src/Tests/Volumes.antt =====
-- Reading, sweeping and retiring a volume in memory.
use git_storage.Prelude.{ℕ, ◌≡◌, refl, false, Option, none, some, [], ◌∷◌}
use git_storage.Prelude.Text.{Text, Bytes, codes, eqb, lessb}
use git_storage.Prelude.Int.{pos}
use git_storage.Prelude.Result.{Result, ok}
use git_storage.Map.{get, insert, contains_key, values}
use git_storage.Map.Order.{text_ord, pair_ord}
use git_storage.Manifest.{Manifest, same_chunk, same_chunks, same_manifest}
use git_storage.Engine.Monad.{World}
use git_storage.Engine.Put.{put_loop}
use git_storage.Engine.Repoint.{
  build_repoint, all_moved, touches, repoint_chunks, repoint_chunk, any_touches, has_segments,
}
use git_storage.Engine.Compact.{commit_compaction, commit_round, commit_repoint}
use git_storage.Crypto.Keys.{aad, open_manifest, seal_manifest, to_le_bytes}
use git_storage.Engine.Monad.{
  ◌>>=◌, meanwhile, on_index, pure, lift, fill_bytes, continue, draw, fail, maybe_crash,
}
use git_storage.Engine.Load.{
  log_tip, load_full_state, build_commit, load_from, read_txn, walk_commits, walk_step,
}
use git_storage.Engine.Put.{holds, put_txn, checkpoint_due, commit_put}
use git_storage.Engine.Replay.{apply_tail}
use git_storage.Engine.Txn.{apply_txn, insert_seals, put_opt, remove_opt}
use git_storage.Engine.Get.{get_file, read_chunks, read_chunk, fetch_chunk, position, segment_ref}
use git_storage.Prelude.{get_elem?}
use git_storage.Prelude.Int.{saturating_sub, clamp, ◌-ℤ◌}
use git_storage.Prelude.Str.{strip_prefix}
use git_storage.Map.{remove, retain}
use git_storage.Manifest.{ChunkRef}
use git_storage.Engine.Monad.{now_secs}
use git_storage.Engine.Sweep.{
  sweep_orphans, sweep_volumes, sweep_refs, refer_manifests, refer_chunks, segment_name,
}
use git_storage.Engine.Sweep.Keeps.{Kept, Named}
use git_storage.Engine.Sweep.Orphans.{sweep_orphans-Kept}
use git_storage.Engine.Compact.{
  CompactedVolume, compact_to, rewrite, rewrite_live, rewrite_new, rewrite_files, rewrite_chunks,
  read_chunk_ciphertext, compact_seals, compacted, reclaim, reclaim_rest,
}
use git_storage.Engine.Put.{write_segment}
use git_storage.Engine.Repoint.{Live, compact_segment_id, hash_ids}
use git_storage.Engine.Volumes.{volume_used, sum_used}
use git_storage.Engine.Monad.{try}
use git_storage.Engine.Commit.Reclaim.{Reclaimed, compact_to-Reclaimed}
use git_storage.Engine.Get.Verified.{Pieces, get_file-Pieces}
use git_storage.Engine.Put.{fanout_path}
use git_storage.Engine.Txn.{StoreState}
use git_storage.Engine.Monad.{slots, on_volume, on_volumes}
use git_storage.Crypto.Keys.{open_chunk, parse_hash}
use git_storage.Tests.Memory.{Memory, blob_object, tree_object, commit_object}
use git_storage.Tests.Fixtures.{slot, plain_crates, plain_crates-IsSound}
use git_storage.Tests.Memory.{memory, views, empty}
use git_storage.Tests.Memory.Laws.{memory-IsGit, memory-DeletesOne}
use git_storage.Tests.Worlds.{
  file_a, small_serde, small_serde-IsFaithful, small_engine, start, after_put, after_put-IsPlain,
  moved_ids,
}

-- The volume that holds the chunk, in a segment.
abbrev segment : Memory
segment = record {
  objects =
      blob_object (codes "cccc")
      ∷ tree_object ((codes "cc/cc/cccc", 0 ∷ []) ∷ [])
      ∷ commit_object (1 ∷ []) ((2 ∷ []) ∷ [])
      ∷ [];
  refs = (codes "refs/segments/s", 2 ∷ []) ∷ [];
}

abbrev stored : World memory
stored = record start {
  disks = record {
    index = after_put.1.disks.index;
    volumes = record { slot = slot (codes "v0") 100 false; backend = segment } ∷ [];
  };
  rivals = [];
}

abbrev after_get : Result (ℕ × Bytes) × World memory
after_get = get_file plain_crates small_serde small_engine (codes "a") none stored

get_runs : after_get.0 ≡ ok (3, codes "cccc")
unfolding put_loop ◌>>=◌ log_tip meanwhile on_index load_full_state get pure holds build_commit lift
    put_txn checkpoint_due same_manifest eqb same_chunks same_chunk fill_bytes aad open_manifest
    seal_manifest to_le_bytes load_from read_txn walk_commits walk_step continue draw fail
    maybe_crash commit_put apply_tail apply_txn insert insert_seals put_opt remove_opt lessb
    get_file read_chunks read_chunk fetch_chunk position segment_ref slots on_volume on_volumes
    fanout_path open_chunk parse_hash
get_runs = refl

get_file-Pieces_example :
    (state : StoreState) × (m : Manifest) × (u : World memory) × (load_full_state plain_crates
        small_serde small_engine none stored
      ≡ (ok state, u))
    × (get (codes "a") state.namespace ≡ some m)
    × (3 ≡ m.size)
    × (codes "cccc" ≡ m.file_hash)
    × Pieces plain_crates m.chunks (codes "cccc")
get_file-Pieces_example =
    get_file-Pieces plain_crates small_serde small_engine plain_crates-IsSound (codes "a") none
      stored after_get.1 3 (codes "cccc") (λ i. (get_runs i, after_get.1))

-- The same volume with a segment that no file names.
abbrev littered : World memory
littered = record stored {
  disks = record {
    index = stored.disks.index;
    volumes =
        record {
          slot = slot (codes "v0") 100 false;
          backend = record segment { refs = (codes "refs/segments/x", 2 ∷ []) ∷ segment.refs };
        }
        ∷ [];
  };
}

abbrev after_sweep : Result ℕ × World memory
after_sweep = sweep_orphans plain_crates small_serde small_engine (pos 0) littered

sweep_runs : after_sweep.0 ≡ ok 1
unfolding put_loop ◌>>=◌ log_tip meanwhile on_index load_full_state get pure holds build_commit lift
    put_txn checkpoint_due same_manifest eqb same_chunks same_chunk fill_bytes aad open_manifest
    seal_manifest to_le_bytes load_from read_txn walk_commits walk_step continue draw fail
    maybe_crash commit_put apply_tail apply_txn insert insert_seals put_opt remove_opt lessb
    sweep_orphans sweep_volumes sweep_refs refer_manifests refer_chunks segment_name strip_prefix
    now_secs slots on_volume on_volumes values contains_key saturating_sub clamp ◌-ℤ◌ remove retain
sweep_runs = refl

sweep_orphans-Kept_example :
    (state : StoreState) × (u : World memory) × (load_full_state plain_crates small_serde
        small_engine none littered
      ≡ (ok state, u))
    × Kept views
        (refer_manifests (values state.namespace) [])
        u.disks.volumes
        after_sweep.1.disks.volumes
    × ((name : Text) (m : Manifest) (j : ℕ) (c : ChunkRef)
        → get name state.namespace ≡ some m
        → get_elem? m.chunks j ≡ some c
        → Named views (refer_manifests (values state.namespace) []) c.vol (segment_ref c.seg))
sweep_orphans-Kept_example =
    sweep_orphans-Kept plain_crates small_serde views small_engine memory-DeletesOne (pos 0)
      littered after_sweep.1 1 (λ i. (sweep_runs i, after_sweep.1))

abbrev two_volumes : World memory
two_volumes = record stored {
  disks = record {
    index = stored.disks.index;
    volumes =
        record { slot = slot (codes "v0") 100 false; backend = segment }
        ∷ record { slot = slot (codes "v1") 200 false; backend = empty }
        ∷ [];
  };
}

abbrev live : Live
live = record { live_ids = moved_ids; live_bytes = 5; affected = file_a ∷ [] }

abbrev base : StoreState
base = record {
  namespace = (codes "a", file_a) ∷ [];
  seg_index = ((codes "v0", codes "s"), 5) ∷ [];
  since_checkpoint = 1;
}

abbrev after_retire : Result (Option CompactedVolume) × World memory
after_retire =
    compact_to plain_crates small_serde small_engine (codes "v0") base live 1
      (slot (codes "v1") 200 false) two_volumes

abbrev report : CompactedVolume
report = record {
  volume = codes "v0";
  dest_volume = codes "v1";
  bytes_before = 5;
  bytes_after = 0;
  chunks_moved = 1;
}

retire_runs : after_retire.0 ≡ ok (some report)
unfolding put_loop ◌>>=◌ log_tip meanwhile on_index load_full_state get pure holds build_commit lift
    put_txn checkpoint_due same_manifest eqb same_chunks same_chunk fill_bytes aad open_manifest
    seal_manifest to_le_bytes load_from read_txn walk_commits walk_step continue draw fail
    maybe_crash commit_put apply_tail apply_txn commit_compaction commit_round commit_repoint
    contains_key insert insert_seals put_opt remove_opt lessb build_repoint all_moved touches
    repoint_chunks repoint_chunk any_touches has_segments values rewrite rewrite_live rewrite_new
    rewrite_files rewrite_chunks read_chunk_ciphertext write_segment on_volume on_volumes slots
    position fanout_path segment_ref compact_segment_id hash_ids compact_seals compacted volume_used
    sum_used reclaim reclaim_rest try compact_to
retire_runs = refl

compact_to-Reclaimed_example :
    Reclaimed plain_crates small_serde views small_engine
      (codes "v0")
      base
      live
      1
      (slot (codes "v1") 200 false)
      two_volumes
      (some report)
      after_retire.1
compact_to-Reclaimed_example =
    compact_to-Reclaimed plain_crates small_serde views small_engine plain_crates-IsSound
      small_serde-IsFaithful memory-IsGit (codes "v0") base live 1 (slot (codes "v1") 200 false)
      two_volumes after_retire.1 (some report) (after_put-IsPlain, tt)
      (λ i. (retire_runs i, after_retire.1))
