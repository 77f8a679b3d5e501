-- ===== src/Cli/Init/Written.antt =====
-- What `init` (src/main.rs) writes, and that it leaves a store that is there as it is.
use git_storage.Prelude.{
  ◌≡◌, ◌≢◌, refl, ap, ◌∙◌, ℕ, Bool, true, false, Option, none, some, List, [], ◌∷◌, ◌⊎◌, inl, inr,
}
use mathlib.Core.Path.{subst}
use git_storage.Prelude.Text.{Text}
use git_storage.Prelude.Int.{pos}
use git_storage.Prelude.Result.{Result, Error, ok, err, already_initialized}
use git_storage.Crypto.Keyfile.{File}
use git_storage.Crypto.Keys.{format_version}
use git_storage.Engine.Volumes.{VolumeConfig, default_volume_full_threshold}
use git_storage.Engine.Config.{StoreConfig, init_config_with_volumes, config_new, or_default}
use git_storage.Chunker.Params.{ChunkerParams, from_avg}
use git_storage.Process.{Machine, Running, Act, ◌>>=◌, lift, pure, fail}
use git_storage.Process.Runs.{bind-ok, pure-ok, lift-ok}
use git_storage.Cli.Url.{parse_volume_arg}
use git_storage.Cli.Init.{
  InitArgs, volume_config, provision_volume, declare_volumes, provision_index, provision,
  StoreFiles, Writes, write_key, write_store, written_by, AtStore, init,
}

err_ok : {A : Type 0} {e : Error} {a : A} → err e ≡ ok a → ⊥
err_ok h = cc

abbrev pub IsThreshold : Option ℕ → ℕ → Type 0
IsThreshold none n = n ≡ default_volume_full_threshold
IsThreshold (some k) n = n ≡ k

-- The configuration of a volume that was declared with this identifier and URL.
abbrev pub DeclaredAs : InitArgs → Text → Text → VolumeConfig → Type 0
DeclaredAs a id url config =
    (config.id ≡ id)
    × (config.url ≡ some url)
    × (config.push_interval_ms ≡ a.push_interval_ms)
    × IsThreshold a.threshold config.volume_full_threshold

-- Configurations for arguments that parse, in their order.
pub data Declared (a : InitArgs) : List Text → List VolumeConfig → Type 0 where
  none_left : Declared a [] []
  next :
      {v id url : Text} {vs : List Text} {config : VolumeConfig} {configs : List VolumeConfig}
      → parse_volume_arg v ≡ ok (id, url)
      → DeclaredAs a id url config
      → Declared a vs configs
      → Declared a (v ∷ vs) (config ∷ configs)

volume_config-IsThreshold :
    (a : InitArgs) (id url : Text) (threshold : Option ℕ)
    → a.threshold ≡ threshold
    → IsThreshold threshold (volume_config a id url).volume_full_threshold
unfolding volume_config
volume_config-IsThreshold a id url none e = rw e refl
volume_config-IsThreshold a id url (some n) e = rw e refl

volume_config-DeclaredAs :
    (a : InitArgs) (id url : Text) → DeclaredAs a id url (volume_config a id url)
unfolding volume_config
volume_config-DeclaredAs a id url =
    (refl, refl, refl, volume_config-IsThreshold a id url a.threshold refl)

module _ {X : Machine} where
  declare_volumes-Declared :
      (a : InitArgs) (vs : List Text) (s t : Running X) (configs : List VolumeConfig)
      → declare_volumes a vs s ≡ (ok configs, t)
      → Declared a vs configs
  unfolding declare_volumes
  declare_volumes-Declared a [] s t configs h =
      subst (Declared a []) (pure-ok [] configs s t h).0 none_left
  declare_volumes-Declared a (v ∷ vs) s t configs h =
      let (arg, s1, h1, k1) = bind-ok (lift (parse_volume_arg v)) (λ arg. rest arg) s h in
      let (u, s2, h2, k2) =
        bind-ok (provision_volume arg.1 a.host a.gitea_base) (λ u. more arg) s1 k1 in
      let (cs, s3, h3, k3) = bind-ok (declare_volumes a vs) (λ cs. made arg cs) s2 k2 in
      subst (Declared a (v ∷ vs)) (pure-ok (volume_config a arg.0 arg.1 ∷ cs) configs s3 t k3).0 (
        next (lift-ok (parse_volume_arg v) arg s s1 h1).0 (volume_config-DeclaredAs a arg.0 arg.1)
          (declare_volumes-Declared a vs s2 s3 cs h3))
    where
      made : Text × Text → List VolumeConfig → Act (Running X) (List VolumeConfig)
      made arg cs = pure (volume_config a arg.0 arg.1 ∷ cs)

      more : Text × Text → Act (Running X) (List VolumeConfig)
      more arg = declare_volumes a vs >>= made arg

      rest : Text × Text → Act (Running X) (List VolumeConfig)
      rest arg = provision_volume arg.1 a.host a.gitea_base >>= λ _. more arg

  provision-Declared :
      (a : InitArgs) (vs : List Text) (s t : Running X) (configs : List VolumeConfig)
      → provision a vs s ≡ (ok configs, t)
      → (vs ≢ []) × Declared a vs configs
  unfolding provision fail
  provision-Declared a [] s t configs h = cc
  provision-Declared a (v ∷ vs) s t configs h =
      let (cs, s1, h1, k1) = bind-ok (declare_volumes a (v ∷ vs)) (λ cs. indexed cs) s h in
      let (u, s2, h2, k2) = bind-ok (provision_index a a.index_url) (λ u. pure cs) s1 k1 in
      (
        λ e. cc,
        subst (Declared a (v ∷ vs)) (pure-ok cs configs s2 t k2).0
            (declare_volumes-Declared a (v ∷ vs) s s1 cs h1),
      )
    where
      indexed : List VolumeConfig → Act (Running X) (List VolumeConfig)
      indexed cs = provision_index a a.index_url >>= λ _. pure cs

ok-cases : {A : Type 0} (r : Result A) → ((e : Error) × (r ≡ err e)) ⊎ ((a : A) × (r ≡ ok a))
ok-cases (err e) = inl (e, refl)
ok-cases (ok a) = inr (a, refl)

-- The config file that is written, where there was none.
config-written :
    (config : Option (Result StoreConfig)) (avg : Option ℕ) (configs : List VolumeConfig)
    (index_url : Option Text) (can_write : Bool) (c : StoreConfig)
    → (init_config_with_volumes config avg configs index_url can_write).0 ≡ ok c
    → (config ≡ none)
      × ((params : ChunkerParams) × (from_avg (or_default avg) ≡ ok params)
          × ((init_config_with_volumes config avg configs index_url can_write).1
              ≡ some (ok (config_new params (some configs) index_url))))
unfolding init_config_with_volumes
config-written (some read) avg configs index_url can_write c h = cc
config-written none avg configs index_url true c h = elim (ok-cases (from_avg (or_default avg))) [
  | inl (e, q) ↦ absurd (err_ok (rw q at h))
  | inr (params, q) ↦ (refl, (params, q, rw q))
]
config-written none avg configs index_url false c h = elim (ok-cases (from_avg (or_default avg))) [
  | inl (e, q) ↦ absurd (err_ok (rw q at h))
  | inr (params, q) ↦ absurd (err_ok (rw q at h))
]

key-written :
    (w : Writes) (keyfile : Option File) (p : Result StoreConfig × Option (Result StoreConfig))
    → (write_key w keyfile p).0 ≡ ok tt
    → ((c : StoreConfig) × (p.0 ≡ ok c)) × ((write_key w keyfile p).1.config ≡ p.1)
unfolding write_key
key-written w keyfile (err e, config) h = cc
key-written w keyfile (ok c, config) h = ((c, refl), refl)

-- What a store has once `init` returns.
abbrev pub Initialized : InitArgs → StoreFiles → StoreFiles → Type 0
Initialized a before after =
    (configs : List VolumeConfig) × (params : ChunkerParams) × (a.volumes ≢ [])
    × Declared a a.volumes configs
    × (from_avg (or_default a.chunk_size) ≡ ok params)
    × (before.config ≡ none)
    × (c : StoreConfig) × (after.config ≡ some (ok c))
    × (c.version ≡ format_version)
    × (c.chunker ≡ params)
    × (c.zstd_level ≡ pos 3)
    × (c.checkpoint_interval ≡ 128)
    × (c.volumes ≡ some configs)
    × (c.index_url ≡ a.index_url)

write_store-Initialized :
    (a : InitArgs) (w : Writes) (configs : List VolumeConfig) (files : StoreFiles)
    → (a.volumes ≢ [])
    → Declared a a.volumes configs
    → (write_store a w configs files).0 ≡ ok tt
    → Initialized a files (write_store a w configs files).1
unfolding write_store
write_store-Initialized a w configs files n d h =
    let file =
      init_config_with_volumes files.config a.chunk_size configs a.index_url w.can_write_config in
    let ((c, e), k) = key-written w files.keyfile file h in
    let (absent, (params, q, made)) =
      config-written files.config a.chunk_size configs a.index_url w.can_write_config c e in
    let written = config_new params (some configs) a.index_url in
    unfold config_new in
    (configs, params, n, d, q, absent, written, k ∙ made, refl, refl, refl, refl, refl, refl)

module _ {X : Machine} where
  written_by-Initialized :
      (a : InitArgs) (w : Writes) (s : AtStore X) (r : Result (List VolumeConfig)) (t : Running X)
      → provision a a.volumes s.running ≡ (r, t)
      → (written_by a w r s.files).0 ≡ ok tt
      → Initialized a s.files (written_by a w r s.files).1
  unfolding written_by
  written_by-Initialized a w s (err e) t p h = cc
  written_by-Initialized a w s (ok configs) t p h =
      let (n, d) = provision-Declared a a.volumes s.running t configs p in
      write_store-Initialized a w configs s.files n d h

  -- Where `init` returns, there were volumes to declare and no config before, and the config that
  -- was written has the parameters of the requested chunk size, the URL of the index, the format
  -- version, zstd level 3 and a checkpoint every 128 transactions, and one volume for each argument,
  -- in order, with the identifier and the URL of the argument, and the push interval and the
  -- threshold that were asked for, or the default threshold.
  pub init-Initialized :
      (a : InitArgs) (w : Writes) (s : AtStore X)
      → (init a w s).0 ≡ ok tt
      → Initialized a s.files (init a w s).1.files
  unfolding init
  init-Initialized a w s h =
      let (r, t) = provision a a.volumes s.running in written_by-Initialized a w s r t refl h

kept_store :
    (a : InitArgs) (w : Writes) (configs : List VolumeConfig) (files : StoreFiles)
    (c : Result StoreConfig)
    → files.config ≡ some c
    → write_store a w configs files ≡ (err already_initialized, files)
unfolding write_store write_key init_config_with_volumes
kept_store a w configs files c h = rw h refl

kept_files :
    (a : InitArgs) (w : Writes) (r : Result (List VolumeConfig)) (files : StoreFiles)
    (c : Result StoreConfig)
    → files.config ≡ some c
    → ((written_by a w r files).1 ≡ files) × ((e : Error) × ((written_by a w r files).0 ≡ err e))
unfolding written_by
kept_files a w (err e) files c h = (refl, (e, refl))
kept_files a w (ok configs) files c h =
    let k = kept_store a w configs files c h in
    (ap (λ p. p.1) k, (already_initialized, ap (λ p. p.0) k))

module _ {X : Machine} where
  -- A store that has a config is left as it is, its keyfile too, and `init` fails.
  pub init-kept :
      (a : InitArgs) (w : Writes) (s : AtStore X) (c : Result StoreConfig)
      → s.files.config ≡ some c
      → ((init a w s).1.files ≡ s.files) × ((e : Error) × ((init a w s).0 ≡ err e))
  unfolding init
  init-kept a w s c h = kept_files a w (provision a a.volumes s.running).0 s.files c h
