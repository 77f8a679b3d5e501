-- ===== src/Engine/Replay/Transparent.antt =====
-- A checkpoint changes what a reader has to walk, and nothing that it reads.
use git_storage.Prelude.{◌≡◌, refl, ap, ◌∙◌, List, [], ◌∷◌}
use git_storage.Engine.Txn.{
  Namespace, SegIndex, Txn, delta, checkpoint, compact, apply_txn, seg_index_records,
}
use git_storage.Engine.Replay.{walk, apply_tail, load_history}
use git_storage.Engine.Replay.Sorted.{BothSorted, apply_tail-BothSorted, index_of_records}

-- The plain reading of a list of changes, newest first: each applied on what came before it.
abbrev pub meaning : List Txn → Namespace × SegIndex
meaning changes = apply_tail changes ([], [])

abbrev pub IsChange : Txn → Type 0
IsChange (checkpoint _ _) = ⊥
IsChange _ = Unit

-- The checkpoint that a writer emits in place of a change on a store state.
abbrev pub folded : Namespace × SegIndex → Txn
folded (namespace, index) = checkpoint namespace (seg_index_records index)

-- A history, and the changes that its writers made: some are logged as they are, and any may have
-- been folded into a checkpoint of all that was there, the change included.
pub data Logged : List Txn → List Txn → Type 0 where
  start : Logged [] []
  plain :
      {history changes : List Txn} (t : Txn)
      → IsChange t
      → Logged history changes
      → Logged (t ∷ history) (t ∷ changes)
  fold :
      {history changes : List Txn} (t : Txn)
      → IsChange t
      → Logged history changes
      → Logged (folded (apply_txn t (meaning changes)) ∷ history) (t ∷ changes)

abbrev pub walked : List Txn → Namespace × SegIndex
walked history = let w = walk history in apply_tail w.tail (w.base, w.seg_index)

pub walked_plain :
    (t : Txn) (history : List Txn)
    → IsChange t
    → walked (t ∷ history) ≡ apply_txn t (walked history)
unfolding walk apply_tail
walked_plain (delta _ _ _) history c = refl
walked_plain (compact _ _ _) history c = refl
walked_plain (checkpoint _ _) history c = absurd c

walked_fold :
    (s : Namespace × SegIndex) (history : List Txn) → BothSorted s → walked (folded s ∷ history) ≡ s
unfolding walk apply_tail
walked_fold (namespace, index) history h = λ i. (namespace, index_of_records index h.1 i)

walked-meaning :
    {history changes : List Txn} → Logged history changes → walked history ≡ meaning changes
unfolding apply_tail
walked-meaning start = unfold walk in refl
walked-meaning (plain {history} {changes} t c l) =
    walked_plain t history c ∙ ap (apply_txn t) (walked-meaning l)
walked-meaning (fold {history} {changes} t c l) =
    walked_fold _ history (apply_tail-BothSorted (t ∷ changes) ([], []) (tt, tt))

-- A reader of a log that the writers kept ends with the state that the plain reading of all
-- changes gives, wherever the checkpoints were put.
pub load_history-meaning :
    (history changes : List Txn)
    → Logged history changes
    → ((load_history history).namespace ≡ (meaning changes).0)
      × ((load_history history).seg_index ≡ (meaning changes).1)
unfolding load_history
load_history-meaning history changes l =
    (ap (λ s. s.0) (walked-meaning l), ap (λ s. s.1) (walked-meaning l))
