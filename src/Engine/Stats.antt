-- ===== src/Engine/Stats.antt =====
-- `volume_stats` (src/engine.rs): live and dead bytes of each volume, from the log alone.
use git_storage.Prelude.{
  ℕ, ◌+◌, ◌-◌, ◌%◌, ◌^◌, Bool, Option, none, some, List, [], ◌∷◌, ◌==◌, if◌then◌else◌,
}
use git_storage.Prelude.Text.{Text}
use git_storage.Map.{Map, get, insert, contains_key, values}
use git_storage.Map.Order.{text_ord}
use git_storage.Manifest.{ChunkRef, Manifest}
use git_storage.Engine.Txn.{StoreState}
use git_storage.Engine.Volumes.{Slot, volume_used}

-- `f64`, as a parameter: what the gates compare.
pub record Floats : Type 1 where
  pub F64 : Type 0
  pub zero_f64 : F64
  pub of_u64 : ℕ → F64
  pub div_f64 : F64 → F64 → F64
  pub gt_f64 : F64 → F64 → Bool
  pub ge_f64 : F64 → F64 → Bool
  pub parse_f64 : Text → Option F64
  -- `0.50` and `0.80`
  pub half : F64
  pub four_fifths : F64

pub record VolumeStats : Type 0 where
  pub id : Text
  pub total : ℕ
  pub live : ℕ
  pub dead : ℕ
  pub threshold : ℕ
  pub spare : Bool

-- The chunks seen, and the live bytes by volume.
pub record Tally : Type 0 where
  pub live_chunks : Map Text (Unit {0})
  pub live_by_vol : Map Text ℕ

abbrev pub or_zero : Option ℕ → ℕ
or_zero none = 0
or_zero (some n) = n

-- `*live_by_vol.entry(vol).or_default() += clen`, for a chunk that was not seen before.
unfoldable pub tally_chunk : ChunkRef → Tally → Tally
tally_chunk c t = if contains_key c.id t.live_chunks then t else record t {
  live_chunks = insert c.id tt t.live_chunks;
  live_by_vol = insert c.vol ((or_zero (get c.vol t.live_by_vol) + c.clen) % 2 ^ 64) t.live_by_vol;
}

unfoldable pub tally_chunks : List ChunkRef → Tally → Tally
unfolding tally_chunk
tally_chunks [] t = t
tally_chunks (c ∷ cs) t = tally_chunks cs (tally_chunk c t)

unfoldable pub tally_manifests : List Manifest → Tally → Tally
unfolding tally_chunks
tally_manifests [] t = t
tally_manifests (m ∷ ms) t = tally_manifests ms (tally_chunks m.chunks t)

-- `total.saturating_sub(live)` is the truncated subtraction.
unfoldable pub stats_of : StoreState → Tally → Slot → VolumeStats
stats_of state t v =
    let total = volume_used v.id state.seg_index in
    let live = or_zero (get v.id t.live_by_vol) in
    record {
      id = v.id;
      total = total;
      live = live;
      dead = total - live;
      threshold = v.threshold;
      spare = v.spare;
    }

unfoldable pub stats_list : StoreState → Tally → List Slot → List VolumeStats
unfolding stats_of
stats_list state t [] = []
stats_list state t (v ∷ vs) = stats_of state t v ∷ stats_list state t vs

unfoldable pub volume_stats : List Slot → StoreState → List VolumeStats
unfolding tally_manifests stats_list
volume_stats volumes state =
    stats_list state
      (tally_manifests (values state.namespace) (record { live_chunks = []; live_by_vol = [] }))
      volumes

module _ (F : Floats) where
  unfoldable pub dead_ratio : VolumeStats → F.F64
  dead_ratio s = if s.total == 0 then F.zero_f64 else F.div_f64 (F.of_u64 s.dead) (F.of_u64 s.total)

  unfoldable pub utilization : VolumeStats → F.F64
  utilization s =
      if s.threshold == 0 then F.zero_f64 else F.div_f64 (F.of_u64 s.total) (F.of_u64 s.threshold)
