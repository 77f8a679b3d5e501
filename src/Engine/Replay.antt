-- ===== src/Engine/Replay.antt =====
-- `load_full_state` of src/engine.rs on the decrypted transactions of a history, newest first:
-- back to the newest checkpoint, then the tail forward. Against it stands the plain reading of a
-- log, which applies every transaction from the first on.
pub mod Sorted
pub mod Transparent
pub mod Keyed
use git_storage.Prelude.{ℕ, List, [], ◌∷◌, length}
use git_storage.Engine.Txn.{
  Namespace, SegIndex, Txn, delta, checkpoint, compact, StoreState, insert_seals, apply_txn,
}

pub record Walk : Type 0 where
  pub tail : List Txn
  pub base : Namespace
  pub seg_index : SegIndex

-- The first loop: it collects the tail, newest first, and stops at a checkpoint.
unfoldable pub walk : List Txn → Walk
unfolding insert_seals
walk [] = record { tail = []; base = []; seg_index = [] }
walk (checkpoint namespace seals ∷ older) = record {
  tail = [];
  base = namespace;
  seg_index = insert_seals seals [];
}
walk (delta p r s ∷ older) =
    let w = walk older in
    record { tail = delta p r s ∷ w.tail; base = w.base; seg_index = w.seg_index }
walk (compact r s p ∷ older) =
    let w = walk older in
    record { tail = compact r s p ∷ w.tail; base = w.base; seg_index = w.seg_index }

-- The second loop, `for txn in tail.into_iter().rev()`, on a tail that is newest first.
unfoldable pub apply_tail : List Txn → Namespace × SegIndex → Namespace × SegIndex
apply_tail [] s = s
apply_tail (txn ∷ tail) s = apply_txn txn (apply_tail tail s)

unfoldable pub load_history : List Txn → StoreState
unfolding walk apply_tail
load_history history =
    let w = walk history in
    let (namespace, index) = apply_tail w.tail (w.base, w.seg_index) in
    record { namespace = namespace; seg_index = index; since_checkpoint = length w.tail }
