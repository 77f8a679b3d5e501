-- ===== src/Backend/Local.antt =====
-- `LocalBackend` (src/backend.rs): the operations of `Bare` on a directory, as a backend.
use git_storage.Prelude.{none}
use git_storage.Prelude.Text.{Text}
use git_storage.Prelude.Result.{ok}
use git_storage.Process.{Machine, Running, Sys, Act, pure, ◌>>=◌, on_files}
use git_storage.Gitrepo.{Bare, open_bare}
use git_storage.Gitrepo
use git_storage.Backend.{Backend}
use git_storage.Backend.Network.{mirror_repo}

-- `LocalBackend`
pub record LocalBackend : Type 0 where
  pub dir : Text
  pub repo : Bare

module _ (X : Machine) where
  -- A backend, and the process that it runs in.
  pub record Local : Type 0 where
    pub backend : LocalBackend
    pub running : Running X

module _ {X : Machine} where
  -- A call on the repository.
  unfoldable pub on_repo {ℓ} : {A : Type ℓ} → (LocalBackend → Sys X A) → Act (Local X) A
  on_repo f s = let (r, running) = f s.backend s.running in (r, record s { running = running })

  unfoldable pub open_local : Text → Sys X LocalBackend
  unfolding open_bare ◌>>=◌ pure
  open_local dir = do repo ← open_bare dir; pure (record { dir = dir; repo = repo })

  -- `self.repo = Bare::open(&self.dir)?`
  unfoldable pub reopen : Act (Local X) Bare
  unfolding on_repo open_bare
  reopen = on_repo (λ b. open_bare b.dir)

  unfoldable pub set_repo : Bare → Act (Local X) (Unit {0})
  set_repo repo s = (ok tt, record s { backend = record { dir = s.backend.dir; repo = repo } })

abbrev pub local : Machine → Backend
local X = record {
  Repo = Local X;
  write_blob = λ bytes. on_repo (λ b. Gitrepo.write_blob b.repo bytes);
  write_tree = λ entries. on_repo (λ b. Gitrepo.write_tree b.repo entries);
  commit_tree =
      λ tree parents message. on_repo (λ b. Gitrepo.commit_tree b.repo tree parents message);
  set_ref = λ refname oid. on_repo (λ b. Gitrepo.set_ref b.repo refname oid);
  cas_ref = λ refname new old. on_repo (λ b. Gitrepo.cas_ref b.repo refname new old);
  delete_ref = λ refname. on_repo (λ b. Gitrepo.delete_ref b.repo refname);
  read_ref = λ refname. on_repo (λ b. Gitrepo.read_ref b.repo refname);
  list_refs = λ prefix. on_repo (λ b. Gitrepo.list_refs b.repo prefix);
  read_blob_at = λ rev path. on_repo (λ b. Gitrepo.read_blob_at b.repo rev path);
  rev_list = λ tip. on_repo (λ b. Gitrepo.rev_list b.repo tip);
  ls_tree_sizes = λ rev. on_repo (λ b. Gitrepo.ls_tree_sizes b.repo rev);
  commit_time = λ rev. on_repo (λ b. Gitrepo.commit_time b.repo rev);
  destroy = on_repo (λ b. on_files (X.remove_dir_all b.dir));
  recreate = reopen >>= set_repo;
  mirror_to = λ target_url. on_repo (λ b. mirror_repo b.dir target_url);
  read_path_note = λ s. none;
}
