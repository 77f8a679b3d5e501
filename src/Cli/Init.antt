-- ===== src/Cli/Init.antt =====
-- `provision_volume`, `init` and the targets of `mirror` (src/main.rs).
pub mod Written
use git_storage.Prelude.{
  Bool, true, false, Option, none, some, List, [], ◌∷◌, ◌++◌, ℕ, if◌then◌else◌,
}
use git_storage.Prelude.Text.{Bytes, Text, codes}
use git_storage.Prelude.Str.{strip_prefix, starts_with}
use git_storage.Prelude.Result.{Result, Error, ok, err, ok_or, no_volumes, bad_url}
use git_storage.Map.{Map, insert}
use git_storage.Map.Order.{text_ord}
use git_storage.Crypto.Keyfile.{File, load_or_create}
use git_storage.Engine.Volumes.{VolumeConfig, default_volume_full_threshold}
use git_storage.Engine.Config.{StoreConfig, init_config_with_volumes}
use git_storage.Process.{Machine, Running, Sys, Act, pure, fail, lift, ◌>>=◌, ◌>>◌}
use git_storage.Gitrepo.{open_bare}
use git_storage.Backend.Provision.{Host, gitea, RepoSpec, ensure_repo}
use git_storage.Cli.Url.{parse_volume_arg, owner_name_from_url, default_base}

abbrev or_base : Text → Option Text → Text
or_base url none = default_base url
or_base url (some base) = base

-- `InitArgs`, but for the paths of the store and of the keyfile.
pub record InitArgs : Type 0 where
  pub volumes : List Text
  pub index_url : Option Text
  pub threshold : Option ℕ
  pub push_interval_ms : ℕ
  pub host : Host
  pub gitea_base : Option Text
  pub chunk_size : Option ℕ

abbrev or_threshold : Option ℕ → ℕ
or_threshold none = default_volume_full_threshold
or_threshold (some n) = n

unfoldable pub volume_config : InitArgs → Text → Text → VolumeConfig
volume_config a id url = record {
  id = id;
  url = some url;
  push_interval_ms = a.push_interval_ms;
  volume_full_threshold = or_threshold a.threshold;
}

module _ {X : Machine} where
  unfoldable pub provision_hosted : Text → Host → Option Text → Sys X (Unit {0})
  unfolding lift ◌>>=◌ ensure_repo pure owner_name_from_url default_base
  provision_hosted url host gitea_base =
      lift (ok_or (owner_name_from_url url) bad_url) >>= λ (owner, name).
      ensure_repo
        (record { host = host; owner = owner; name = name; web_base = or_base url gitea_base })
      >>= λ _. pure tt

  unfoldable pub provision_remote : Text → Host → Option Text → Sys X (Unit {0})
  unfolding provision_hosted pure starts_with
  provision_remote url host gitea_base =
      if starts_with url (codes "https://") then provision_hosted url host gitea_base else pure tt

  unfoldable pub provision_at : Option Text → Text → Host → Option Text → Sys X (Unit {0})
  unfolding open_bare provision_remote ◌>>=◌ pure
  provision_at (some dir) url host gitea_base = open_bare dir >>= λ _. pure tt
  provision_at none url host gitea_base = provision_remote url host gitea_base

  unfoldable pub provision_volume : Text → Host → Option Text → Sys X (Unit {0})
  unfolding provision_at strip_prefix
  provision_volume url host gitea_base =
      provision_at (strip_prefix url (codes "file://")) url host gitea_base

  -- The loop over the declared volumes.
  unfoldable pub declare_volumes : InitArgs → List Text → Sys X (List VolumeConfig)
  unfolding lift ◌>>=◌ provision_volume pure parse_volume_arg volume_config
  declare_volumes a [] = pure []
  declare_volumes a (v ∷ vs) = lift (parse_volume_arg v) >>= λ arg.
      provision_volume arg.1 a.host a.gitea_base >>= λ _.
      declare_volumes a vs >>= λ configs. pure (volume_config a arg.0 arg.1 ∷ configs)

  unfoldable pub provision_index : InitArgs → Option Text → Sys X (Unit {0})
  unfolding provision_volume pure
  provision_index a none = pure tt
  provision_index a (some url) = provision_volume url a.host a.gitea_base

  -- All that `init` does before the store is written.
  unfoldable pub provision : InitArgs → List Text → Sys X (List VolumeConfig)
  unfolding fail declare_volumes provision_index ◌>>=◌ pure
  provision a [] = fail no_volumes
  provision a (v ∷ vs) = do
    configs ← declare_volumes a (v ∷ vs)
    provision_index a a.index_url
    pure configs

  -- The targets of `mirror`, in the order of their keys; a later target replaces an earlier one.
  unfoldable pub mirror_targets : List Text → Map Text Text → Sys X (Map Text Text)
  unfolding lift ◌>>=◌ provision_volume pure parse_volume_arg
  mirror_targets [] targets = pure targets
  mirror_targets (v ∷ vs) targets = do
    (id, url) ← lift (parse_volume_arg v)
    provision_volume url gitea none
    mirror_targets vs (insert id url targets)

-- The files of a store: its config and its keyfile.
pub record StoreFiles : Type 0 where
  pub config : Option (Result StoreConfig)
  pub keyfile : Option File

-- What the writes of the two files meet: a random key, and whether they succeed.
pub record Writes : Type 0 where
  pub key : Bytes
  pub can_write_config : Bool
  pub can_write_key : Bool
  pub can_chmod : Bool

abbrev unit_of {ℓ} : {A : Type ℓ} → Result A → Result (Unit {0})
unit_of (ok _) = ok tt
unit_of (err e) = err e

-- The end of `init`: the keyfile is made once the config is there.
unfoldable pub write_key :
    Writes
    → Option File
    → Result StoreConfig × Option (Result StoreConfig)
    → Result (Unit {0}) × StoreFiles
unfolding load_or_create
write_key w keyfile (err e, config) = (err e, record { config = config; keyfile = keyfile })
write_key w keyfile (ok _, config) =
    let (r, made) = load_or_create keyfile true w.key w.can_write_key w.can_chmod in
    (unit_of r, record { config = config; keyfile = made })

unfoldable pub write_store :
    InitArgs → Writes → List VolumeConfig → StoreFiles → Result (Unit {0}) × StoreFiles
unfolding init_config_with_volumes write_key
write_store a w configs files =
    write_key w files.keyfile
      (init_config_with_volumes files.config a.chunk_size configs a.index_url w.can_write_config)

unfoldable pub written_by :
    InitArgs → Writes → Result (List VolumeConfig) → StoreFiles → Result (Unit {0}) × StoreFiles
unfolding write_store
written_by a w (err e) files = (err e, files)
written_by a w (ok configs) files = write_store a w configs files

module _ (X : Machine) where
  -- A process at a store.
  pub record AtStore : Type 0 where
    pub files : StoreFiles
    pub running : Running X

module _ {X : Machine} where
  unfoldable pub init : InitArgs → Writes → Act (AtStore X) (Unit {0})
  unfolding provision written_by
  init a w s =
      let (r, running) = provision a a.volumes s.running in
      let (done, files) = written_by a w r s.files in
      (done, record { files = files; running = running })
