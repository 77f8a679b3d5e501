-- ===== src/Engine/Volumes.antt =====
-- The volumes and their budget (src/engine.rs): how full each is by the log, where a new segment
-- goes, and where a compaction moves what is live.
pub mod Select
pub mod Choice
use git_storage.Prelude.{
  ℕ, zero, suc, ◌+◌, ◌-◌, ◌*◌, ◌%◌, ◌^◌, Bool, true, false, ◌&&◌, ◌||◌, not, Option, none, some,
  List, [], ◌∷◌, length, ltb, leb, ◌==◌, if◌then◌else◌, get_elem?,
}
use git_storage.Prelude.Text.{Text, codes, eqb}
use git_storage.Prelude.Result.{Result, ok, err, budget_exhausted}
use git_storage.Engine.Txn.{SegIndex}

abbrev pub u64_max : ℕ
u64_max = 2 ^ 64 - 1

-- 4 GiB
abbrev pub default_volume_full_threshold : ℕ
default_volume_full_threshold = 4 * 1024 * 1024 * 1024

abbrev pub spare_slot_min_volumes : ℕ
spare_slot_min_volumes = 3

-- `url` absent stands for a local bare repository.
pub record VolumeConfig : Type 0 where
  pub id : Text
  pub url : Option Text
  pub push_interval_ms : ℕ
  pub volume_full_threshold : ℕ

-- The volume of a store whose config declares none.
abbrev pub back_compat_volume : VolumeConfig
back_compat_volume = record {
  id = codes "v0";
  url = none;
  push_interval_ms = 0;
  volume_full_threshold = default_volume_full_threshold;
}

-- A live volume, but for its backend.
pub record Slot : Type 0 where
  pub id : Text
  pub threshold : ℕ
  pub spare : Bool

-- `Some(i) == spare_idx`
abbrev pub is_spare : Option ℕ → ℕ → Bool
is_spare none i = false
is_spare (some j) i = i == j

-- The loop of `open_volumes`; `i` is the counter of `enumerate`.
unfoldable pub open_from : Option ℕ → ℕ → List VolumeConfig → List Slot
open_from spare_idx i [] = []
open_from spare_idx i (vc ∷ declared) =
    record { id = vc.id; threshold = vc.volume_full_threshold; spare = is_spare spare_idx i }
    ∷ open_from spare_idx (i + 1) declared

-- `config.volumes.clone().unwrap_or_else(..)`
abbrev pub declared_volumes : Option (List VolumeConfig) → List VolumeConfig
declared_volumes none = back_compat_volume ∷ []
declared_volumes (some vs) = vs

unfoldable pub open_volumes : Option (List VolumeConfig) → List Slot
unfolding open_from
open_volumes volumes =
    let declared = declared_volumes volumes in
    let n = length declared in
    open_from (if leb spare_slot_min_volumes n then some (n - 1) else none) 0 declared

-- `.sum()` on `u64`
unfoldable pub sum_used : ℕ → Text → SegIndex → ℕ
sum_used acc vol [] = acc
sum_used acc vol (((v, _), bytes) ∷ index) =
    sum_used (if eqb v vol then (acc + bytes) % 2 ^ 64 else acc) vol index

unfoldable pub volume_used : Text → SegIndex → ℕ
unfolding sum_used
volume_used vol index = sum_used 0 vol index

unfoldable pub saturating_add : ℕ → ℕ → ℕ
saturating_add a b = if leb (a + b) u64_max then a + b else u64_max

-- `best` of the two searches: the index and the headroom. A later volume must beat it.
unfoldable pub better : Option (ℕ × ℕ) → ℕ → ℕ → Option (ℕ × ℕ)
better none i headroom = some (i, headroom)
better (some (j, best)) i headroom =
    if leb headroom best then some (j, best) else some (i, headroom)

-- One volume of the search: skipped where `excluded`, or where it would pass its threshold.
unfoldable pub consider : ℕ → SegIndex → Option (ℕ × ℕ) → ℕ → Bool → Slot → Option (ℕ × ℕ)
unfolding better saturating_add
consider projected index best i excluded v =
    let used = volume_used v.id index in
    if excluded
    then best
    else if ltb v.threshold (saturating_add used projected)
    then best
    else better best i (v.threshold - used)

-- The loop of `select_volume`, from the volume `i` on.
unfoldable pub select_from : ℕ → SegIndex → Option (ℕ × ℕ) → ℕ → List Slot → Option (ℕ × ℕ)
unfolding consider
select_from projected index best i [] = best
select_from projected index best i (v ∷ volumes) =
    select_from projected index (consider projected index best i v.spare v) (i + 1) volumes

-- `match best { Some((i, _)) => Ok(i), None => bail!(..) }`
unfoldable pub chosen : Option (ℕ × ℕ) → Result ℕ
chosen none = err budget_exhausted
chosen (some (i, _)) = ok i

unfoldable pub select_volume : List Slot → ℕ → SegIndex → Result ℕ
unfolding chosen
select_volume volumes projected index = chosen (select_from projected index none 0 volumes)

-- `.position(|v| v.spare && v.id != retiring)`
unfoldable pub spare_position : Text → ℕ → List Slot → Option (ℕ × Slot)
spare_position retiring i [] = none
spare_position retiring i (v ∷ volumes) =
    let rest = spare_position retiring (i + 1) volumes in
    if v.spare && not (eqb v.id retiring) then some (i, v) else rest

-- The loop of `select_compact_dest`.
unfoldable pub dest_from : Text → ℕ → SegIndex → Option (ℕ × ℕ) → ℕ → List Slot → Option (ℕ × ℕ)
unfolding consider
dest_from retiring live index best i [] = best
dest_from retiring live index best i (v ∷ volumes) =
    dest_from retiring live index (consider live index best i (eqb v.id retiring || v.spare) v)
      (i + 1) volumes

-- `best.map(|(i, _)| i)`
unfoldable pub index_of : Option (ℕ × ℕ) → Option ℕ
index_of none = none
index_of (some (i, _)) = some i

-- The spare, where there is one with room, and else what the search found.
unfoldable pub spare_first : Option (ℕ × Slot) → ℕ → SegIndex → Option ℕ → Option ℕ
spare_first none live index other = other
spare_first (some (i, v)) live index other =
    if leb (saturating_add (volume_used v.id index) live) v.threshold then some i else other

unfoldable pub select_compact_dest : List Slot → Text → ℕ → SegIndex → Option ℕ
unfolding spare_position spare_first index_of
select_compact_dest volumes retiring live index =
    spare_first (spare_position retiring 0 volumes) live index
      (index_of (dest_from retiring live index none 0 volumes))
