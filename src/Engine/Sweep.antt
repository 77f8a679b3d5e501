-- ===== src/Engine/Sweep.antt =====
-- The orphan sweep, the gates and `compact` itself (src/engine.rs).
pub mod Keeps
pub mod Orphans
use git_storage.Prelude.{
  ℕ, ◌+◌, ◌*◌, Bool, true, false, not, ◌&&◌, ◌||◌, Option, none, some, List, [], ◌∷◌, ltb,
  if◌then◌else◌,
}
use git_storage.Prelude.Text.{Text, codes}
use git_storage.Prelude.Str.{strip_prefix, parse_i64}
use git_storage.Prelude.Int.{ℤ, pos, ltb_ℤ, saturating_sub}
use git_storage.Backend.{Backend}
use git_storage.Map.{Map, insert, contains_key, values}
use git_storage.Map.Order.{text_ord, pair_ord}
use git_storage.Manifest.{ChunkRef, Manifest}
use git_storage.Crypto.Primitives.{Primitives}
use git_storage.Engine.Txn.{StoreState}
use git_storage.Engine.Volumes.{Slot}
use git_storage.Engine.Serde.{Serde}
use git_storage.Engine.Config.{Engine}
use git_storage.Engine.Load.{load_full_state}
use git_storage.Engine.Log.{last_compaction_time}
use git_storage.Engine.Stats.{Floats, VolumeStats, volume_stats, dead_ratio, utilization}
use git_storage.Engine.Compact.{CompactedVolume, compact_one}
use git_storage.Engine.Monad.{M, pure, on_volume, slots, now_secs, env_vars, ◌>>=◌, ◌>>◌}

abbrev pub Referenced : Type 0
Referenced = Map (Text × Text) (Unit {0})

unfoldable pub refer_chunks : List ChunkRef → Referenced → Referenced
refer_chunks [] r = r
refer_chunks (c ∷ cs) r = refer_chunks cs (insert (c.vol, c.seg) tt r)

-- The (volume, segment) pairs that the namespace names.
unfoldable pub refer_manifests : List Manifest → Referenced → Referenced
unfolding refer_chunks
refer_manifests [] r = r
refer_manifests (m ∷ ms) r = refer_manifests ms (refer_chunks m.chunks r)

-- `strip_prefix("refs/segments/").unwrap_or(&refname)`
unfoldable pub segment_name : Text → Text
segment_name refname = elim (strip_prefix refname (codes "refs/segments/")) [
  | none ↦ refname
  | some seg ↦ seg
]

module _ {B : Backend} where
  -- The refs of one volume: how many were deleted.
  unfoldable pub sweep_refs : Referenced → ℤ → ℤ → ℕ → Text → List (Text × Text) → M B ℕ
  sweep_refs referenced now window vi id [] = pure 0
  sweep_refs referenced now window vi id ((refname, _) ∷ refs) =
      if contains_key (id, segment_name refname) referenced
      then sweep_refs referenced now window vi id refs
      else do
        time ← on_volume vi (B.commit_time refname)
        if ltb_ℤ (saturating_sub now time) window
            then sweep_refs referenced now window vi id refs
            else do
              on_volume vi (B.delete_ref refname)
              swept ← sweep_refs referenced now window vi id refs
              pure (swept + 1)

  unfoldable pub sweep_volumes : Referenced → ℤ → ℤ → ℕ → List Slot → M B ℕ
  unfolding sweep_refs
  sweep_volumes referenced now window i [] = pure 0
  sweep_volumes referenced now window i (v ∷ vs) = do
    refs ← on_volume i (B.list_refs (codes "refs/segments/"))
    here ← sweep_refs referenced now window i v.id refs
    later ← sweep_volumes referenced now window (i + 1) vs
    pure (here + later)

module _ (F : Floats) where
  pub record CompactionGates : Type 0 where
    pub dead_ratio_gate : F.F64
    pub pressure_util : F.F64
    pub min_interval_secs : ℤ
    pub orphan_window_secs : ℤ

  abbrev pub default_gates : CompactionGates
  default_gates = record {
    dead_ratio_gate = F.half;
    pressure_util = F.four_fifths;
    min_interval_secs = pos (24 * 3600);
    orphan_window_secs = pos 3600;
  }

  -- A variable that is set and can be parsed overrides the default.
  abbrev pub overlay {ℓ} : {A : Type ℓ} → (Text → Option A) → Option Text → A → A
  overlay parse none default = default
  overlay parse (some v) default = elim (parse v) [ none ↦ default | some a ↦ a ]

  unfoldable pub gates_from_env : (Text → Option Text) → CompactionGates
  gates_from_env env = record {
    dead_ratio_gate =
        overlay F.parse_f64 (env (codes "GITSTORAGE_DEAD_RATIO_GATE"))
          default_gates.dead_ratio_gate;
    pressure_util =
        overlay F.parse_f64 (env (codes "GITSTORAGE_PRESSURE_UTIL_GATE"))
          default_gates.pressure_util;
    min_interval_secs =
        overlay parse_i64 (env (codes "GITSTORAGE_MIN_COMPACT_INTERVAL_SECS"))
          default_gates.min_interval_secs;
    orphan_window_secs =
        overlay parse_i64 (env (codes "GITSTORAGE_ORPHAN_WINDOW_SECS"))
          default_gates.orphan_window_secs;
  }

  -- `stats.iter().any(|s| !s.spare && s.utilization() >= gates.pressure_util)`
  unfoldable pub under_pressure : CompactionGates → List VolumeStats → Bool
  under_pressure gates [] = false
  under_pressure gates (s ∷ stats) =
      (not s.spare && F.ge_f64 (utilization F s) gates.pressure_util) || under_pressure gates stats

  unfoldable pub interval_ok : CompactionGates → ℤ → Option ℤ → Bool
  interval_ok gates now none = true
  interval_ok gates now (some t) = not (ltb_ℤ (saturating_sub now t) gates.min_interval_secs)

  unfoldable pub is_candidate : CompactionGates → VolumeStats → Bool
  is_candidate gates s =
      not s.spare && (ltb 0 s.total && F.gt_f64 (dead_ratio F s) gates.dead_ratio_gate)

  unfoldable pub candidates : CompactionGates → List VolumeStats → List VolumeStats
  unfolding is_candidate
  candidates gates [] = []
  candidates gates (s ∷ stats) =
      let rest = candidates gates stats in if is_candidate gates s then s ∷ rest else rest

pub record CompactReport : Type 0 where
  pub compacted : List CompactedVolume
  pub orphans_swept : ℕ

abbrev pub reported : Option CompactedVolume → List CompactedVolume → List CompactedVolume
reported none done = done
reported (some c) done = c ∷ done

module _ (P : Primitives) (S : Serde) {B : Backend} (engine : Engine) where
  unfoldable pub sweep_orphans : ℤ → M B ℕ
  unfolding refer_manifests sweep_volumes
  sweep_orphans window_secs = do
    state ← load_full_state P S engine none
    now ← now_secs
    vs ← slots
    sweep_volumes (refer_manifests (values state.namespace) []) now window_secs 0 vs

  unfoldable pub compact_each : StoreState → List VolumeStats → M B (List CompactedVolume)
  compact_each state [] = pure []
  compact_each state (s ∷ stats) = do
    one ← compact_one P S engine s.id state
    rest ← compact_each state stats
    pure (reported one rest)

  unfoldable pub compact_store : (F : Floats) → Bool → M B CompactReport
  unfolding compact_each sweep_orphans
  compact_store F force = do
    env ← env_vars
    let gates = gates_from_env F env
    state ← load_full_state P S engine none
    vs ← slots
    let stats = volume_stats vs state
    last ← last_compaction_time P S engine
    now ← now_secs
    let open_gates = force || (under_pressure F gates stats && interval_ok F gates now last)
    compacted ← (if open_gates then compact_each state (candidates F gates stats) else pure [])
    swept ← sweep_orphans gates.orphan_window_secs
    pure (record { compacted = compacted; orphans_swept = swept })
