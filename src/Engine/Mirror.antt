-- ===== src/Engine/Mirror.antt =====
-- `mirror` (src/engine.rs): volumes before the index, so that a mirrored log names no segment that
-- the mirror lacks.
use git_storage.Prelude.{ℕ, ◌+◌, List, [], ◌∷◌, if◌then◌else◌}
use git_storage.Prelude.Text.{Text}
use git_storage.Prelude.Result.{Result, ok, err, ok_or, no_mirror_target, panicked}
use git_storage.Backend.{Backend}
use git_storage.Map.{Map, get, contains_key}
use git_storage.Map.Order.{text_ord, pair_ord}
use git_storage.Engine.Volumes.{Slot}
use git_storage.Engine.Monad.{M, pure, lift, on_index, on_volume, slots, ◌>>=◌, ◌>>◌}

-- A target for every volume, or nothing is mirrored.
unfoldable pub check_targets : Map Text Text → List Slot → Result (Unit {0})
check_targets targets [] = ok tt
check_targets targets (v ∷ vs) =
    if contains_key v.id targets then check_targets targets vs else err no_mirror_target

module _ {B : Backend} where
  -- `i` is the place of the first of the volumes; `volume_targets[&v.id]` panics on a missing key.
  unfoldable pub mirror_volumes : Map Text Text → ℕ → List Slot → M B (Unit {0})
  mirror_volumes targets i [] = pure tt
  mirror_volumes targets i (v ∷ vs) = do
    target ← lift (ok_or (get v.id targets) panicked)
    on_volume i (B.mirror_to target)
    mirror_volumes targets (i + 1) vs

  unfoldable pub mirror : Text → Map Text Text → M B (Unit {0})
  unfolding check_targets mirror_volumes
  mirror index_target targets = do
    vs ← slots
    lift (check_targets targets vs)
    mirror_volumes targets 0 vs
    on_index (B.mirror_to index_target)
