-- ===== src/Engine/Txn.antt =====
-- The transactions of the log, the store state that they build, and `apply_txn` (src/engine.rs).
use git_storage.Prelude.{ℕ, true, false, Option, none, some, List, [], ◌∷◌, if◌then◌else◌}
use git_storage.Prelude.Text.{Text, eqb}
use git_storage.Map.{Map, insert, remove, retain}
use git_storage.Map.Order.{text_ord, pair_ord}
use git_storage.Manifest.{Manifest}

abbrev pub Namespace : Type 0
Namespace = Map Text Manifest

-- Bytes of each sealed segment, by (volume, segment).
abbrev pub SegIndex : Type 0
SegIndex = Map (Text × Text) ℕ

-- A seal record: where a sealed segment landed, and its ciphertext bytes.
pub record SegRec : Type 0 where
  pub vol : Text
  pub seg : Text
  pub bytes : ℕ

pub data Txn : Type 0 where
  delta : Option Manifest → Option Text → List SegRec → Txn
  checkpoint : Namespace → List SegRec → Txn
  compact : List Text → List SegRec → List Manifest → Txn

pub record StoreState : Type 0 where
  pub namespace : Namespace
  pub seg_index : SegIndex
  pub since_checkpoint : ℕ

-- `StoreState::default()`
abbrev pub empty_state : StoreState
empty_state = record { namespace = []; seg_index = []; since_checkpoint = 0 }

-- `for s in seals { seg_index.insert((s.vol, s.seg), s.bytes); }`
unfoldable pub insert_seals : List SegRec → SegIndex → SegIndex
insert_seals [] index = index
insert_seals (s ∷ seals) index = insert_seals seals (insert (s.vol, s.seg) s.bytes index)

-- `for m in repoint { base.insert(m.name.clone(), m); }`
unfoldable pub insert_manifests : List Manifest → Namespace → Namespace
insert_manifests [] base = base
insert_manifests (m ∷ ms) base = insert_manifests ms (insert m.name m base)

-- `for vid in &retired { seg_index.retain(|(v, _), _| v != vid); }`
unfoldable pub drop_volumes : List Text → SegIndex → SegIndex
drop_volumes [] index = index
drop_volumes (vid ∷ retired) index =
    drop_volumes retired (retain (λ key. if eqb key.0 vid then false else true) index)

unfoldable pub put_opt : Option Manifest → Namespace → Namespace
put_opt none base = base
put_opt (some m) base = insert m.name m base

unfoldable pub remove_opt : Option Text → Namespace → Namespace
remove_opt none base = base
remove_opt (some name) base = remove name base

-- A checkpoint in the tail would have ended the walk: it changes nothing here.
unfoldable pub apply_txn : Txn → Namespace × SegIndex → Namespace × SegIndex
unfolding put_opt remove_opt
apply_txn (delta put removed seals) (base, index) =
    (remove_opt removed (put_opt put base), insert_seals seals index)
apply_txn (compact retired seals repoint) (base, index) =
    (insert_manifests repoint base, drop_volumes retired (insert_seals seals index))
apply_txn (checkpoint _ _) s = s

unfoldable pub seg_index_records : SegIndex → List SegRec
seg_index_records [] = []
seg_index_records (((vol, seg), bytes) ∷ m) =
    record { vol = vol; seg = seg; bytes = bytes } ∷ seg_index_records m
