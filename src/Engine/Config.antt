-- ===== src/Engine/Config.antt =====
-- `StoreConfig`, its creation and loading, and the engine (src/engine.rs). The file system is the
-- config file of the store, if there is one; `serde_json` on it is not modelled, and its failures
-- come with the file.
use git_storage.Prelude.{ℕ, Bool, true, false, Option, none, some, List, ◌==◌, if◌then◌else◌}
use git_storage.Prelude.Text.{Text}
use git_storage.Prelude.Int.{ℤ, pos}
use git_storage.Prelude.Result.{
  Result, ok, err, ◌>>=◌, pinned_chunk_size, already_initialized, io_failed,
}
use git_storage.Chunker.Params.{ChunkerParams, from_avg, default_avg_size}
use git_storage.Crypto.Keys.{Keys, format_version}
use git_storage.Engine.Volumes.{VolumeConfig}

pub record StoreConfig : Type 0 where
  pub version : ℕ
  pub chunker : ChunkerParams
  pub zstd_level : ℤ
  pub checkpoint_interval : ℕ
  pub volumes : Option (List VolumeConfig)
  pub index_url : Option Text

-- An engine, but for its backends, which are in the world.
pub record Engine : Type 0 where
  pub keys : Keys
  pub config : StoreConfig

abbrev pub or_default : Option ℕ → ℕ
or_default none = default_avg_size
or_default (some avg) = avg

unfoldable pub config_new : ChunkerParams → Option (List VolumeConfig) → Option Text → StoreConfig
config_new chunker volumes index_url = record {
  version = format_version;
  chunker = chunker;
  zstd_level = pos 3;
  checkpoint_interval = 128;
  volumes = volumes;
  index_url = index_url;
}

-- A write of the config file: the config, and the file afterwards.
abbrev pub written :
    Bool
    → Option (Result StoreConfig)
    → Result StoreConfig
    → Result StoreConfig × Option (Result StoreConfig)
written can_write file (err e) = (err e, file)
written true file (ok config) = (ok config, some (ok config))
written false file (ok config) = (err io_failed, file)

unfoldable pub pinned : Option ℕ → StoreConfig → Result StoreConfig
pinned none config = ok config
pinned (some avg) config =
    if avg == config.chunker.avg_size then ok config else err pinned_chunk_size

unfoldable pub load_or_init_config :
    Option (Result StoreConfig) → Option ℕ → Bool → Result StoreConfig × Option (Result StoreConfig)
unfolding pinned config_new
load_or_init_config (some read) requested_avg can_write = (read >>= pinned requested_avg, some read)
load_or_init_config none requested_avg can_write =
    written can_write none
      (do params ← from_avg (or_default requested_avg); ok (config_new params none none))

unfoldable pub init_config_with_volumes :
    Option (Result StoreConfig)
    → Option ℕ
    → List VolumeConfig
    → Option Text
    → Bool
    → Result StoreConfig × Option (Result StoreConfig)
unfolding config_new
init_config_with_volumes (some read) avg volumes index_url can_write =
    (err already_initialized, some read)
init_config_with_volumes none avg volumes index_url can_write =
    written can_write none
      (do params ← from_avg (or_default avg); ok (config_new params (some volumes) index_url))

unfoldable pub set_checkpoint_interval : ℕ → Engine → Engine
set_checkpoint_interval interval engine = record engine {
  config = record (engine.config) { checkpoint_interval = if interval == 0 then 1 else interval };
}
