-- ===== src/Tests/Hosted.antt =====
-- The theorems on provisioning and on the command line at concrete inputs.
use git_storage.Prelude.{◌≡◌, ◌≢◌, ◌↔◌, refl, true, none, some, [], ◌∷◌, ◌++◌, arith}
use git_storage.Prelude.Text.{codes}
use git_storage.Prelude.Str.{last, split_once, strip_prefix}
use git_storage.Prelude.Decimal.{decimal}
use git_storage.Prelude.Result.{Error, ok, err, bad_payload}
use git_storage.Chunker.Params.{from_avg}
use git_storage.Engine.Config.{init_config_with_volumes}
use git_storage.Crypto.Keyfile.{load_or_create}
use git_storage.Process.{Running, lift, pure, view, continue, ◌>>=◌}
use git_storage.Gitrepo.{open_bare, join}
use git_storage.Backend.Provision.{RepoSpec, gitea, github, marker, split_status, ensure_repo}
use git_storage.Backend.Provision.Status.{split_status-printed}
use git_storage.Backend.Provision.Created.{Ensured, ensure_repo-Ensured}
use git_storage.Cli.Url.{parse_volume_arg, owner_name_from_url}
use git_storage.Cli.Url.Parsed.{Lacks, parse_volume_arg-parts}
use git_storage.Cli.Url.Hosted.{Unended, owner_name_from_url-hosted}
use git_storage.Cli.Init.{
  InitArgs, AtStore, Writes, init, written_by, write_store, write_key, provision, declare_volumes,
  provision_volume, provision_at, provision_index, volume_config,
}
use git_storage.Cli.Init.Written.{Initialized, init-Initialized, init-kept}
use git_storage.Tests.Scripted.{scripted, at, answer}

split_status-printed_example :
    split_status (codes "{}" ++ marker ++ decimal 404)
    ≡ record { http_status = 404; body = codes "{}" }
split_status-printed_example = split_status-printed (codes "{}") 404 (omega arith)

abbrev a_spec : RepoSpec
a_spec = record { host = github; owner = codes "o"; name = codes "n"; web_base = [] }

-- A host that has no such repository, and creates it.
abbrev a_host : Running scripted
a_host =
    at (answer (marker ++ codes "404") ∷ answer (marker ++ codes "201") ∷ []) 0 (some (codes "tok"))

ensure_repo-Ensured_example :
    let done = ensure_repo a_spec a_host in Ensured a_spec a_host done.0 done.1
ensure_repo-Ensured_example = ensure_repo-Ensured a_spec a_host

parse_volume_arg-parts_example : (parse_volume_arg (codes "v0=u") ≡ ok (codes "v0", codes "u")) ↔ (
    (codes "v0=u" ≡ codes "v0" ++ b'=' ∷ codes "u")
    × Lacks b'=' (codes "v0")
    × (codes "v0" ≢ [])
    × (codes "u" ≢ []))
parse_volume_arg-parts_example = parse_volume_arg-parts (codes "v0=u") (codes "v0") (codes "u")

bare_name : Unended (codes ".git") (codes "n")
unfolding strip_prefix
bare_name = refl

owner_name_from_url-hosted_example :
    (owner_name_from_url (codes "https://h/o/n") ≡ some (codes "o", codes "n"))
    × (owner_name_from_url (codes "https://h/o/n.git") ≡ some (codes "o", codes "n"))
owner_name_from_url-hosted_example =
    owner_name_from_url-hosted (codes "h") (codes "o") (codes "n") ((refl, tt), (refl, tt))
      ((refl, tt), (refl, tt)) ((refl, tt), (refl, tt)) (λ e. cc) bare_name

abbrev args : InitArgs
args = record {
  volumes = codes "v0=file:///d" ∷ [];
  index_url = none;
  threshold = none;
  push_interval_ms = 0;
  host = gitea;
  gitea_base = none;
  chunk_size = none;
}

abbrev a_key : Writes
a_key = record { key = 1 ∷ []; can_write_config = true; can_write_key = true; can_chmod = true }

abbrev no_store : AtStore scripted
no_store = record { files = record { config = none; keyfile = none }; running = at [] 0 none }

abbrev broken_store : AtStore scripted
broken_store = record {
  files = record { config = some (err bad_payload); keyfile = none };
  running = at [] 0 none;
}

init_runs : (init args a_key no_store).0 ≡ ok tt
unfolding init written_by write_store write_key provision declare_volumes provision_volume
    provision_at provision_index open_bare join last lift pure view ◌>>=◌ continue parse_volume_arg
    split_once strip_prefix volume_config init_config_with_volumes load_or_create from_avg
init_runs = refl

init-Initialized_example : Initialized args no_store.files (init args a_key no_store).1.files
init-Initialized_example = init-Initialized args a_key no_store init_runs

init-kept_example :
    ((init args a_key broken_store).1.files ≡ broken_store.files)
    × ((e : Error) × ((init args a_key broken_store).0 ≡ err e))
init-kept_example = init-kept args a_key broken_store (err bad_payload) refl
