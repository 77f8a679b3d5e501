-- ===== src/Engine/Replay/Sorted.antt =====
-- The maps that transactions build stay in the order of their keys.
use git_storage.Prelude.{◌≡◌, refl, ◌∙◌, Option, none, some, List, [], ◌∷◌}
use git_storage.Prelude.Text.{Text}
use git_storage.Map.{remove}
use git_storage.Map.Order.{text_ord, pair_ord}
use git_storage.Map.Sorted.{IsSorted, insert-IsSorted, retain-IsSorted, insert_all, insert_all-nil}
use git_storage.Manifest.{Manifest}
use git_storage.Engine.Txn.{
  Namespace, SegIndex, SegRec, Txn, delta, checkpoint, compact, insert_seals, insert_manifests,
  drop_volumes, put_opt, remove_opt, apply_txn, seg_index_records,
}
use git_storage.Engine.Replay.{apply_tail}

pub insert_seals-IsSorted :
    (seals : List SegRec) (index : SegIndex) → IsSorted index → IsSorted (insert_seals seals index)
unfolding insert_seals
insert_seals-IsSorted [] index s = s
insert_seals-IsSorted (r ∷ seals) index s =
    insert_seals-IsSorted seals _ (insert-IsSorted (r.vol, r.seg) r.bytes index s)

pub insert_manifests-IsSorted :
    (ms : List Manifest) (base : Namespace) → IsSorted base → IsSorted (insert_manifests ms base)
unfolding insert_manifests
insert_manifests-IsSorted [] base s = s
insert_manifests-IsSorted (m ∷ ms) base s =
    insert_manifests-IsSorted ms _ (insert-IsSorted m.name m base s)

pub drop_volumes-IsSorted :
    (retired : List Text) (index : SegIndex)
    → IsSorted index
    → IsSorted (drop_volumes retired index)
unfolding drop_volumes
drop_volumes-IsSorted [] index s = s
drop_volumes-IsSorted (v ∷ retired) index s =
    drop_volumes-IsSorted retired _ (retain-IsSorted _ index s)

put_opt-IsSorted :
    (put : Option Manifest) (base : Namespace) → IsSorted base → IsSorted (put_opt put base)
unfolding put_opt
put_opt-IsSorted none base s = s
put_opt-IsSorted (some m) base s = insert-IsSorted m.name m base s

remove_opt-IsSorted :
    (name : Option Text) (base : Namespace) → IsSorted base → IsSorted (remove_opt name base)
unfolding remove_opt remove
remove_opt-IsSorted none base s = s
remove_opt-IsSorted (some n) base s = retain-IsSorted _ base s

abbrev pub BothSorted : Namespace × SegIndex → Type 0
BothSorted s = IsSorted s.0 × IsSorted s.1

pub apply_txn-BothSorted :
    (t : Txn) (s : Namespace × SegIndex) → BothSorted s → BothSorted (apply_txn t s)
unfolding apply_txn
apply_txn-BothSorted (delta put removed seals) (base, index) (b, i) = (
  remove_opt-IsSorted removed _ (put_opt-IsSorted put base b),
  insert_seals-IsSorted seals index i,
)
apply_txn-BothSorted (compact retired seals repoint) (base, index) (b, i) = (
  insert_manifests-IsSorted repoint base b,
  drop_volumes-IsSorted retired _ (insert_seals-IsSorted seals index i),
)
apply_txn-BothSorted (checkpoint _ _) s h = h

pub apply_tail-BothSorted :
    (ts : List Txn) (s : Namespace × SegIndex) → BothSorted s → BothSorted (apply_tail ts s)
unfolding apply_tail
apply_tail-BothSorted [] s h = h
apply_tail-BothSorted (t ∷ ts) s h = apply_txn-BothSorted t _ (apply_tail-BothSorted ts s h)

insert_seals-records :
    (m acc : SegIndex) → insert_seals (seg_index_records m) acc ≡ insert_all m acc
unfolding insert_seals seg_index_records insert_all
insert_seals-records [] acc = refl
insert_seals-records (((vol, seg), bytes) ∷ m) acc = insert_seals-records m _

-- A checkpoint's records rebuild the index that they were taken from.
pub index_of_records : (m : SegIndex) → IsSorted m → insert_seals (seg_index_records m) [] ≡ m
index_of_records m s = insert_seals-records m [] ∙ insert_all-nil m s
