-- ===== src/Engine/Commit/Append.antt =====
-- What a new commit makes of the state that its tip stands for.
use git_storage.Prelude.{◌≡◌, ◌⊎◌, List, [], ◌∷◌}
use git_storage.Map.Order.{pair_ord}
use git_storage.Map.Sorted.{IsSorted}
use git_storage.Engine.Txn.{
  Namespace, SegIndex, Txn, delta, checkpoint, compact, StoreState, apply_txn,
}
use git_storage.Engine.Replay.{walk, apply_tail, load_history}
use git_storage.Engine.Replay.Sorted.{
  insert_seals-IsSorted, drop_volumes-IsSorted, index_of_records,
}
use git_storage.Engine.Replay.Transparent.{IsChange, folded, walked, walked_plain}

-- What a state says, but for the distance to its checkpoint.
abbrev pub both : StoreState → Namespace × SegIndex
both state = (state.namespace, state.seg_index)

pub load_history-change :
    (t : Txn) (ts : List Txn)
    → IsChange t
    → both (load_history (t ∷ ts)) ≡ apply_txn t (both (load_history ts))
unfolding load_history
load_history-change t ts c = walked_plain t ts c

pub load_history-folded :
    (s : Namespace × SegIndex) → IsSorted s.1 → both (load_history (folded s ∷ [])) ≡ s
unfolding load_history walk apply_tail
load_history-folded s h = λ i. (s.0, index_of_records s.1 h i)

pub apply_txn-IsSorted :
    (t : Txn) (s : Namespace × SegIndex) → IsSorted s.1 → IsSorted (apply_txn t s).1
unfolding apply_txn
apply_txn-IsSorted (delta put removed seals) s h = insert_seals-IsSorted seals s.1 h
apply_txn-IsSorted (compact retired seals repoint) s h =
    drop_volumes-IsSorted retired _ (insert_seals-IsSorted seals s.1 h)
apply_txn-IsSorted (checkpoint _ _) s h = h

walked-IsSorted : (ts : List Txn) → IsSorted (walked ts).1
walked-IsSorted [] = unfold walk apply_tail in tt
walked-IsSorted (checkpoint n seals ∷ ts) =
    unfold walk apply_tail in insert_seals-IsSorted seals [] tt
walked-IsSorted (delta p r s ∷ ts) =
    rw (walked_plain (delta p r s) ts tt) (apply_txn-IsSorted (delta p r s) _ (walked-IsSorted ts))
walked-IsSorted (compact r s p ∷ ts) =
    rw (walked_plain (compact r s p) ts tt)
      (apply_txn-IsSorted (compact r s p) _ (walked-IsSorted ts))

pub load_history-IsSorted : (ts : List Txn) → IsSorted (load_history ts).seg_index
unfolding load_history
load_history-IsSorted ts = walked-IsSorted ts

-- A writer logs a change as it is, or folds it with the state before it into a checkpoint.
abbrev pub Logs : Txn → Txn → StoreState → Type 0
Logs txn change old = (txn ≡ change) ⊎ (txn ≡ folded (apply_txn change (both old)))
