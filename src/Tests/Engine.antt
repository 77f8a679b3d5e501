-- ===== src/Tests/Engine.antt =====
-- The engine's theorems at concrete inputs.
use git_storage.Prelude.{◌≡◌, none, some, List, [], ◌∷◌}
use git_storage.Prelude.Text.{codes}
use git_storage.Manifest.{Manifest}
use git_storage.Engine.Txn.{Txn, delta, apply_txn}
use git_storage.Engine.Replay.{load_history}
use git_storage.Engine.Replay.Transparent.{
  meaning, folded, start, plain, fold, load_history-meaning,
}
use git_storage.Engine.Volumes.{select_volume, select_compact_dest}
use git_storage.Engine.Volumes.Choice.{
  Selected, Destined, select_volume-Selected, select_compact_dest-Destined,
}
use git_storage.Prelude.{◌≢◌, refl, true, false, ap}
use git_storage.Prelude.Text.{Text, eqb, eqb_refl}
use git_storage.Map.{get, values, contains_key}
use git_storage.Map.Order.{text_ord, pair_ord}
use git_storage.Map.Sorted.{IsSorted}
use git_storage.Engine.Txn.{Namespace, compact}
use git_storage.Engine.Volumes.{volume_used}
use git_storage.Engine.Replay.Keyed.{IsKeyed, load_history-IsKeyed}
use git_storage.Engine.Repoint.{
  IdSet, build_repoint, all_moved, touches, repoint_chunks, repoint_chunk, has_segments,
}
use git_storage.Engine.Repoint.Effect.{repointed, SameFile, repoint-apply_txn}
use git_storage.Tests.Fixtures.{three_slots, seg_index, chunk_on, file_of}

abbrev small_file : Manifest
small_file = file_of (codes "a") (chunk_on (codes "v0") (codes "c") ∷ [])

select_volume-Selected_example :
    Selected three_slots 50 seg_index (select_volume three_slots 50 seg_index)
select_volume-Selected_example = select_volume-Selected three_slots 50 seg_index

select_compact_dest-Destined_example :
    Destined three_slots
      (codes "v0")
      20
      seg_index
      (select_compact_dest three_slots (codes "v0") 20 seg_index)
select_compact_dest-Destined_example =
    select_compact_dest-Destined three_slots (codes "v0") 20 seg_index

abbrev put_a : Txn
put_a = delta (some small_file) none []

abbrev remove_a : Txn
remove_a = delta none (some (codes "a")) []

abbrev changes : List Txn
changes = remove_a ∷ put_a ∷ []

abbrev history : List Txn
history = remove_a ∷ folded (apply_txn put_a (meaning [])) ∷ []

load_history-meaning_example :
    ((load_history history).namespace ≡ (meaning changes).0)
    × ((load_history history).seg_index ≡ (meaning changes).1)
load_history-meaning_example =
    load_history-meaning history changes (plain remove_a tt (fold put_a tt start))

load_history-IsKeyed_example :
    let state = load_history history in
    IsSorted state.namespace × IsKeyed state.namespace × IsSorted state.seg_index
load_history-IsKeyed_example =
    load_history-IsKeyed history changes (plain remove_a tt (fold put_a tt start))

abbrev one_file : Namespace
one_file = (codes "a", small_file) ∷ []

abbrev moved_ids : IdSet
moved_ids = (codes "c", tt) ∷ []

abbrev moved_file : Manifest
moved_file = repointed (codes "v0") (codes "v1") (codes "t") small_file

repoints :
    build_repoint (codes "v0") (codes "v1") (codes "t") moved_ids (values one_file)
    ≡ some (moved_file ∷ [])
unfolding build_repoint values all_moved touches repoint_chunks repoint_chunk contains_key get eqb
repoints = refl

apart : eqb (codes "v1") (codes "v0") ≡ false
unfolding eqb
apart = refl

other_volume : codes "v1" ≢ codes "v0"
other_volume e = cc (apart, ap (λ v. eqb v (codes "v0")) e, eqb_refl (codes "v0"))

repoint-apply_txn_example :
    let after = apply_txn (compact (codes "v0" ∷ []) [] (moved_file ∷ [])) (one_file, seg_index) in
    ((n : Text) → SameFile (codes "v0") (codes "v1") (codes "t") (get n one_file) (get n after.0))
    × ((n : Text) (m : Manifest) → get n after.0 ≡ some m → touches (codes "v0") m.chunks ≡ false)
    × ((n : Text) (m : Manifest)
        → get n one_file ≡ some m
        → all_moved (codes "v0") moved_ids m.chunks ≡ true)
    × (has_segments (codes "v0") after.1 ≡ false)
    × (volume_used (codes "v0") after.1 ≡ 0)
repoint-apply_txn_example =
    repoint-apply_txn (codes "v0") (codes "v1") (codes "t") moved_ids one_file seg_index []
      (moved_file ∷ []) other_volume (tt, tt) (refl, tt) repoints
