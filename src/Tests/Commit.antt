-- ===== src/Tests/Commit.antt =====
-- The commit loops on a log in memory.
use git_storage.Prelude.{◌≡◌, refl, Bool, true, [], ◌∷◌}
use git_storage.Prelude.Text.{codes, eqb, lessb}
use git_storage.Prelude.Result.{Result, ok}
use git_storage.Map.{get, insert, contains_key}
use git_storage.Map.Order.{text_ord, pair_ord}
use git_storage.Manifest.{same_chunk, same_chunks, same_manifest}
use git_storage.Engine.Monad.{World}
use git_storage.Engine.Put.{put_loop}
use git_storage.Engine.Remove.{remove_loop, commit_remove, remove_txn}
use git_storage.Engine.Compact.{commit_compaction}
use git_storage.Crypto.Keys.{aad, open_manifest, seal_manifest, to_le_bytes}
use git_storage.Engine.Monad.{
  ◌>>=◌, meanwhile, on_index, pure, lift, fill_bytes, continue, draw, fail, maybe_crash,
}
use git_storage.Engine.Load.{
  log_tip, load_full_state, build_commit, load_from, read_txn, walk_commits, walk_step,
}
use git_storage.Engine.Put.{holds, put_txn, checkpoint_due, commit_put}
use git_storage.Engine.Replay.{apply_tail}
use git_storage.Engine.Txn.{apply_txn, insert_seals, put_opt, remove_opt}
use git_storage.Engine.Commit.Done.{PutDone, RemoveDone}
use git_storage.Engine.Commit.Outcome.{put_loop-PutDone, remove_loop-RemoveDone}
use git_storage.Tests.Fixtures.{plain_crates, plain_crates-IsSound}
use git_storage.Tests.Memory.{memory, views}
use git_storage.Tests.Memory.Laws.{memory-IsGit}
use git_storage.Tests.Worlds.{
  seg_t, file_a, seal_a, seal_t, small_serde, small_serde-IsFaithful, small_engine, start,
  start-Steady, after_put, after_put-IsPlain, put_runs, moved_ids,
}

put_loop-PutDone_example :
    PutDone plain_crates small_serde views small_engine file_a (seal_a ∷ []) start true after_put.1
put_loop-PutDone_example =
    put_loop-PutDone plain_crates small_serde views small_engine plain_crates-IsSound
      small_serde-IsFaithful memory-IsGit 1 file_a (seal_a ∷ []) start after_put.1 true start-Steady
      (λ i. (put_runs i, after_put.1))

abbrev later : World memory
later = record start { disks = after_put.1.disks; rivals = [] }

abbrev after_remove : Result (Unit {0}) × World memory
after_remove = remove_loop plain_crates small_serde small_engine 1 (codes "a") later

remove_runs : after_remove.0 ≡ ok tt
unfolding put_loop ◌>>=◌ log_tip meanwhile on_index load_full_state get pure holds build_commit lift
    put_txn checkpoint_due same_manifest eqb same_chunks same_chunk fill_bytes aad open_manifest
    seal_manifest to_le_bytes load_from read_txn walk_commits walk_step continue draw fail
    maybe_crash commit_put apply_tail apply_txn remove_loop commit_remove remove_txn contains_key
    insert insert_seals put_opt remove_opt lessb
remove_runs = refl

remove_loop-RemoveDone_example :
    RemoveDone plain_crates small_serde views small_engine (codes "a") later after_remove.1
remove_loop-RemoveDone_example =
    remove_loop-RemoveDone plain_crates small_serde views small_engine plain_crates-IsSound
      small_serde-IsFaithful memory-IsGit 1 (codes "a") later after_remove.1 tt
      (after_put-IsPlain, tt) (λ i. (remove_runs i, after_remove.1))

abbrev after_compact : Result Bool × World memory
after_compact =
    commit_compaction plain_crates small_serde small_engine 1 (codes "v0") (codes "v1") seg_t
      moved_ids (seal_t ∷ []) later
