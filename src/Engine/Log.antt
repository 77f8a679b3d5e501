-- ===== src/Engine/Log.antt =====
-- The queries that walk the whole log (src/engine.rs).
use git_storage.Prelude.{ℕ, ◌+◌, Option, none, some, List, [], ◌∷◌}
use git_storage.Prelude.Text.{Text}
use git_storage.Prelude.Int.{ℤ}
use git_storage.Backend.{Backend}
use git_storage.Map.Order.{text_ord, pair_ord}
use git_storage.Crypto.Primitives.{Primitives}
use git_storage.Engine.Txn.{Txn, checkpoint, compact, Namespace}
use git_storage.Engine.Serde.{Serde}
use git_storage.Engine.Config.{Engine}
use git_storage.Engine.Load.{log_tip, load_full_state, read_txn}
use git_storage.Engine.Monad.{M, pure, on_index, ◌>>=◌}

abbrev pub count_kinds : List Txn → ℕ × ℕ
count_kinds [] = (0, 0)
count_kinds (checkpoint _ _ ∷ txns) = let (c, d) = count_kinds txns in (c + 1, d)
count_kinds (_ ∷ txns) = let (c, d) = count_kinds txns in (c, d + 1)

abbrev pub count_compactions : List Txn → ℕ
count_compactions [] = 0
count_compactions (compact _ _ _ ∷ txns) = count_compactions txns + 1
count_compactions (_ ∷ txns) = count_compactions txns

module _ (P : Primitives) (S : Serde) {B : Backend} (engine : Engine) where
  unfoldable pub namespace_at : Option Text → M B Namespace
  namespace_at at = do state ← load_full_state P S engine at; pure state.namespace

  -- Every commit of a walk, decrypted, newest first.
  unfoldable pub read_txns : List Text → M B (List Txn)
  read_txns [] = pure []
  read_txns (commit ∷ commits) = do
    txn ← read_txn P S engine commit
    rest ← read_txns commits
    pure (txn ∷ rest)

  unfoldable pub all_txns : M B (List Txn)
  unfolding read_txns
  all_txns = do
    tip ← log_tip
    elim tip [ none ↦ pure [] | some t ↦ do commits ← on_index (B.rev_list t); read_txns commits ]

  -- (checkpoints, other transactions)
  unfoldable pub txn_kind_counts : M B (ℕ × ℕ)
  unfolding all_txns
  txn_kind_counts = do txns ← all_txns; pure (count_kinds txns)

  unfoldable pub compaction_count : M B ℕ
  unfolding all_txns
  compaction_count = do txns ← all_txns; pure (count_compactions txns)

  -- The time of the newest compaction among some commits.
  unfoldable pub compaction_step : Text → Txn → M B (Option ℤ) → M B (Option ℤ)
  compaction_step commit (compact _ _ _) older = do
    time ← on_index (B.commit_time commit)
    pure (some time)
  compaction_step commit txn older = older

  unfoldable pub newest_compaction : List Text → M B (Option ℤ)
  unfolding compaction_step
  newest_compaction [] = pure none
  newest_compaction (commit ∷ commits) = do
    txn ← read_txn P S engine commit
    compaction_step commit txn (newest_compaction commits)

  unfoldable pub last_compaction_time : M B (Option ℤ)
  unfolding newest_compaction
  last_compaction_time = do
    tip ← log_tip
    elim tip [
      | none ↦ pure none
      | some t ↦ do commits ← on_index (B.rev_list t); newest_compaction commits
    ]
