-- ===== src/Engine/Load.antt =====
-- The log: its tip, its transactions, `load_full_state`, and the commit that a writer builds on a
-- tip (src/engine.rs).
use git_storage.Prelude.{refl, Option, none, some, List, [], ◌∷◌, length}
use git_storage.Prelude.Text.{Text, codes, eqb}
use git_storage.Prelude.Result.{ok_or, bad_payload}
use git_storage.Backend.{Backend}
use git_storage.Backend.Laws.{parents, IsName, IsBranch}
use git_storage.Crypto.Primitives.{Primitives}
use git_storage.Crypto.Keys.{open_manifest, seal_manifest}
use git_storage.Engine.Txn.{Txn, checkpoint, StoreState, empty_state, insert_seals}
use git_storage.Engine.Replay.{Walk, apply_tail}
use git_storage.Engine.Serde.{Serde}
use git_storage.Engine.Config.{Engine}
use git_storage.Engine.Monad.{M, pure, lift, on_index, meanwhile, fill_bytes, ◌>>=◌, ◌>>◌}

abbrev pub log_ref : Text
log_ref = codes "refs/heads/log"

pub log_ref-IsBranch : IsBranch log_ref
unfolding eqb
log_ref-IsBranch = refl

-- The name of the only file of a commit's tree.
pub txn-IsName : IsName (codes "txn")
txn-IsName = refl

-- Other processes may have gone on before the ref is read.
unfoldable pub log_tip : {B : Backend} → M B (Option Text)
log_tip {B} = do meanwhile; on_index (B.read_ref log_ref)

module _ (P : Primitives) (S : Serde) {B : Backend} (engine : Engine) where
  unfoldable pub read_txn : Text → M B Txn
  read_txn commit = do
    sealed ← on_index (B.read_blob_at commit (codes "txn"))
    plaintext ← lift (open_manifest P engine.keys sealed)
    lift (ok_or (S.from_slice plaintext) bad_payload)

  -- One commit of the walk: a checkpoint ends it, anything else joins the tail.
  unfoldable pub walk_step : Txn → M B Walk → M B Walk
  walk_step (checkpoint namespace seals) older =
      pure (record { tail = []; base = namespace; seg_index = insert_seals seals [] })
  walk_step txn older = do w ← older; pure (record w { tail = txn ∷ w.tail })

  unfoldable pub walk_commits : List Text → M B Walk
  unfolding walk_step
  walk_commits [] = pure (record { tail = []; base = []; seg_index = [] })
  walk_commits (commit ∷ commits) = do txn ← read_txn commit; walk_step txn (walk_commits commits)

  unfoldable pub load_from : Option Text → M B StoreState
  load_from none = pure empty_state
  load_from (some tip) = do
    commits ← on_index (B.rev_list tip)
    w ← walk_commits commits
    let (namespace, index) = apply_tail w.tail (w.base, w.seg_index)
    pure (record { namespace = namespace; seg_index = index; since_checkpoint = length w.tail })

  -- `load_full_state(at)`: at a pinned commit, or at the current tip.
  unfoldable pub load_full_state : Option Text → M B StoreState
  unfolding load_from
  load_full_state none = do tip ← log_tip; load_from tip
  load_full_state (some oid) = load_from (some oid)

  -- The sealed transaction as a commit on top of a tip.
  unfoldable pub build_commit : Txn → Option Text → Text → M B Text
  build_commit txn tip kind = do
    bytes ← lift (ok_or (S.to_vec txn) bad_payload)
    nonce ← fill_bytes 24
    payload ← lift (seal_manifest P engine.keys nonce bytes)
    blob ← on_index (B.write_blob payload)
    tree ← on_index (B.write_tree ((codes "txn", blob) ∷ []))
    on_index (B.commit_tree tree (parents tip) kind)
