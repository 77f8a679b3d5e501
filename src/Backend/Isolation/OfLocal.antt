-- ===== src/Backend/Isolation/OfLocal.antt =====
-- Every call of a local backend (src/backend.rs) is isolated.
use git_storage.Process.{Machine, Sys, on_files}
use git_storage.Process.Steps.{Steps, IsPreorder, Steps-bind}
use git_storage.Gitrepo.{Bare, open_bare}
use git_storage.Backend.Calls.{
  Call, write_blob, write_tree, commit_tree, set_ref, cas_ref, delete_ref, read_ref, list_refs,
  read_blob_at, rev_list, ls_tree_sizes, commit_time, destroy, recreate, mirror_to, serve,
}
use git_storage.Backend.Local.{Local, LocalBackend, local, on_repo, reopen, set_repo}
use git_storage.Backend.Isolation.{Holds, OnMachine}
use git_storage.Backend.Isolation.Commands
use git_storage.Backend.Isolation.OfBare

abbrev OnLocal : {X : Machine} → (X.State → X.State → Type 0) → Local X → Local X → Type 0
OnLocal R s t = R s.running.machine t.running.machine

module _ {X : Machine} {R : X.State → X.State → Type 0} (H : Holds X R) where
  OnLocal-IsPreorder : IsPreorder (OnLocal {X = X} R)
  OnLocal-IsPreorder = record {
    same = λ s. H.preorder.same s.running.machine;
    after = λ h k. H.preorder.after h k;
  }

  on_repo-Steps :
      {A : Type 0} (f : LocalBackend → Sys X A)
      → ((b : LocalBackend) → Steps (OnMachine R) (f b))
      → Steps (OnLocal R) (on_repo f)
  unfolding on_repo
  on_repo-Steps f h s = h s.backend s.running

  set_repo-Steps : (repo : Bare) → Steps (OnLocal R) (set_repo {X = X} repo)
  unfolding set_repo
  set_repo-Steps repo s = H.preorder.same s.running.machine

  reopen-Steps : Steps (OnLocal R) (reopen {X = X})
  unfolding reopen
  reopen-Steps = on_repo-Steps (λ b. open_bare b.dir) (λ b. OfBare.open_bare-Steps H b.dir)

  local_destroy-Steps : Steps (OnLocal R) (on_repo {X = X} (λ b. on_files (X.remove_dir_all b.dir)))
  local_destroy-Steps =
      on_repo-Steps (λ b. on_files (X.remove_dir_all b.dir))
        (λ b. Commands.files-Steps H (X.remove_dir_all b.dir) (H.remove_dir_all b.dir))

  -- Whatever a local backend is asked for, all that it does to the machine is to run git, isolated
  -- from the user's configuration and credentials, and to create and remove files: a preorder that
  -- holds across those holds across the call.
  pub local-Isolated :
      (call : Call) (s : Local X) → R s.running.machine (serve (local X) call s).running.machine
  unfolding serve
  local-Isolated (write_blob bytes) s =
      on_repo-Steps _ (λ b. OfBare.write_blob-Steps H b.repo bytes) s
  local-Isolated (write_tree entries) s =
      on_repo-Steps _ (λ b. OfBare.write_tree-Steps H b.repo entries) s
  local-Isolated (commit_tree tree parents message) s =
      on_repo-Steps _ (λ b. OfBare.commit_tree-Steps H b.repo tree parents message) s
  local-Isolated (set_ref refname oid) s =
      on_repo-Steps _ (λ b. OfBare.set_ref-Steps H b.repo refname oid) s
  local-Isolated (cas_ref refname new old) s =
      on_repo-Steps _ (λ b. OfBare.cas_ref-Steps H b.repo refname new old) s
  local-Isolated (delete_ref refname) s =
      on_repo-Steps _ (λ b. OfBare.delete_ref-Steps H b.repo refname) s
  local-Isolated (read_ref refname) s =
      on_repo-Steps _ (λ b. OfBare.read_ref-Steps H b.repo refname) s
  local-Isolated (list_refs prefix) s =
      on_repo-Steps _ (λ b. OfBare.list_refs-Steps H b.repo prefix) s
  local-Isolated (read_blob_at rev path) s =
      on_repo-Steps _ (λ b. OfBare.read_blob_at-Steps H b.repo rev path) s
  local-Isolated (rev_list tip) s = on_repo-Steps _ (λ b. OfBare.rev_list-Steps H b.repo tip) s
  local-Isolated (ls_tree_sizes rev) s =
      on_repo-Steps _ (λ b. OfBare.ls_tree_sizes-Steps H b.repo rev) s
  local-Isolated (commit_time rev) s =
      on_repo-Steps _ (λ b. OfBare.commit_time-Steps H b.repo rev) s
  local-Isolated destroy s = local_destroy-Steps s
  local-Isolated recreate s =
      Steps-bind OnLocal-IsPreorder reopen set_repo reopen-Steps set_repo-Steps s
  local-Isolated (mirror_to target_url) s =
      on_repo-Steps _ (λ b. OfBare.mirror_repo-Steps H b.dir target_url) s
