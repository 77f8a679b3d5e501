-- ===== src/Engine/Replay/Keyed.antt =====
-- The namespace that a log stands for has every file under its own name, in the order of the names.
use git_storage.Prelude.{◌≡◌, refl, Bool, Option, none, some, List, [], ◌∷◌, Bool-cases, inl, inr}
use git_storage.Prelude.Text.{Text, eqb, lessb}
use git_storage.Map.{insert, remove, retain}
use git_storage.Map.Order.{text_ord, pair_ord}
use git_storage.Map.Sorted.{IsSorted}
use git_storage.Manifest.{Manifest}
use git_storage.Engine.Txn.{
  Namespace, SegIndex, Txn, delta, checkpoint, compact, insert_manifests, put_opt, remove_opt,
  apply_txn,
}
use git_storage.Engine.Replay.{apply_tail, load_history}
use git_storage.Engine.Replay.Sorted.{apply_tail-BothSorted}
use git_storage.Engine.Replay.Transparent.{Logged, load_history-meaning}

-- Every file is under its own name.
abbrev pub IsKeyed : Namespace → Type 0
IsKeyed [] = Unit
IsKeyed ((k, m) ∷ ns) = (m.name ≡ k) × IsKeyed ns

insert-IsKeyed : (m : Manifest) (ns : Namespace) → IsKeyed ns → IsKeyed (insert m.name m ns)
unfolding insert
insert-IsKeyed m [] k = (refl, tt)
insert-IsKeyed m ((j, w) ∷ ns) k = elim (Bool-cases (lessb m.name j)) [
  | inl e ↦ rw e (refl, k)
  | inr e ↦ elim (Bool-cases (eqb j m.name)) [
    | inl p ↦ rw (e, p) (refl, k.1)
    | inr p ↦ rw (e, p) (k.0, insert-IsKeyed m ns k.1)
  ]
]

retain-IsKeyed : (keep : Text → Bool) (ns : Namespace) → IsKeyed ns → IsKeyed (retain keep ns)
unfolding retain
retain-IsKeyed keep [] k = tt
retain-IsKeyed keep ((j, w) ∷ ns) k = elim (Bool-cases (keep j)) [
  | inl e ↦ rw e (k.0, retain-IsKeyed keep ns k.1)
  | inr e ↦ rw e (retain-IsKeyed keep ns k.1)
]

insert_manifests-IsKeyed :
    (ms : List Manifest) (ns : Namespace) → IsKeyed ns → IsKeyed (insert_manifests ms ns)
unfolding insert_manifests
insert_manifests-IsKeyed [] ns k = k
insert_manifests-IsKeyed (m ∷ ms) ns k = insert_manifests-IsKeyed ms _ (insert-IsKeyed m ns k)

put_opt-IsKeyed : (put : Option Manifest) (ns : Namespace) → IsKeyed ns → IsKeyed (put_opt put ns)
unfolding put_opt
put_opt-IsKeyed none ns k = k
put_opt-IsKeyed (some m) ns k = insert-IsKeyed m ns k

remove_opt-IsKeyed :
    (name : Option Text) (ns : Namespace) → IsKeyed ns → IsKeyed (remove_opt name ns)
unfolding remove_opt remove
remove_opt-IsKeyed none ns k = k
remove_opt-IsKeyed (some n) ns k = retain-IsKeyed _ ns k

apply_tail-IsKeyed :
    (ts : List Txn) (s : Namespace × SegIndex) → IsKeyed s.0 → IsKeyed (apply_tail ts s).0
unfolding apply_tail apply_txn
apply_tail-IsKeyed [] s k = k
apply_tail-IsKeyed (delta put removed seals ∷ ts) s k =
    remove_opt-IsKeyed removed _ (put_opt-IsKeyed put _ (apply_tail-IsKeyed ts s k))
apply_tail-IsKeyed (compact retired seals repoint ∷ ts) s k =
    insert_manifests-IsKeyed repoint _ (apply_tail-IsKeyed ts s k)
apply_tail-IsKeyed (checkpoint _ _ ∷ ts) s k = apply_tail-IsKeyed ts s k

-- A log that its writers kept loads to maps in the order of their keys, with every file under its
-- own name.
pub load_history-IsKeyed :
    (history changes : List Txn)
    → Logged history changes
    → let state = load_history history in
      IsSorted state.namespace × IsKeyed state.namespace × IsSorted state.seg_index
load_history-IsKeyed history changes l =
    let (same_names, same_index) = load_history-meaning history changes l in
    let (names, index) = apply_tail-BothSorted changes ([], []) (tt, tt) in
    let keyed = apply_tail-IsKeyed changes ([], []) tt in
    (rw same_names names, rw same_names keyed, rw same_index index)
