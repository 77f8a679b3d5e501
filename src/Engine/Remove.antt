-- ===== src/Engine/Remove.antt =====
-- `remove` (src/engine.rs): a file leaves the namespace by one transaction; its bytes stay.
use git_storage.Prelude.{
  ℕ, zero, suc, Bool, true, false, not, Option, none, some, [], if◌then◌else◌,
}
use git_storage.Prelude.Text.{Text, codes}
use git_storage.Prelude.Result.{no_such_file, cas_exhausted}
use git_storage.Backend.{Backend}
use git_storage.Map.{remove, contains_key}
use git_storage.Map.Order.{text_ord, pair_ord}
use git_storage.Crypto.Primitives.{Primitives}
use git_storage.Engine.Txn.{Txn, delta, checkpoint, StoreState, seg_index_records}
use git_storage.Engine.Serde.{Serde}
use git_storage.Engine.Config.{Engine}
use git_storage.Engine.Load.{log_ref, log_tip, load_full_state, build_commit}
use git_storage.Engine.Put.{checkpoint_due, kind_of, max_cas_retries}
use git_storage.Engine.Monad.{M, pure, fail, on_index, meanwhile, maybe_crash, ◌>>=◌, ◌>>◌}

-- The transaction of a removal on a store state.
unfoldable pub remove_txn : StoreState → Text → Bool → Txn
remove_txn state name true =
    checkpoint (remove name state.namespace) (seg_index_records state.seg_index)
remove_txn state name false = delta none (some name) []

module _ (P : Primitives) (S : Serde) {B : Backend} (engine : Engine) where
  unfoldable pub commit_remove : M B (Unit {0}) → Text → Option Text → StoreState → M B (Unit {0})
  unfolding remove_txn
  commit_remove again name tip state =
      if not (contains_key name state.namespace) then pure tt else do
        let due = checkpoint_due state engine.config.checkpoint_interval
        commit ← build_commit P S engine (remove_txn state name due) tip (kind_of due)
        maybe_crash (codes "before-cas")
        meanwhile
        won ← on_index (B.cas_ref log_ref commit tip)
        if won then maybe_crash (codes "after-cas") else again

  unfoldable pub remove_loop : ℕ → Text → M B (Unit {0})
  unfolding commit_remove
  remove_loop zero name = fail cas_exhausted
  remove_loop (suc attempts) name = do
    tip ← log_tip
    state ← load_full_state P S engine tip
    commit_remove (remove_loop attempts name) name tip state

  unfoldable pub remove_file : Text → M B (Unit {0})
  unfolding remove_loop
  remove_file name = do
    state ← load_full_state P S engine none
    if contains_key name state.namespace
        then remove_loop max_cas_retries name
        else fail no_such_file
