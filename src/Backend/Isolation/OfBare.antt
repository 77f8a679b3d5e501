-- ===== src/Backend/Isolation/OfBare.antt =====
-- The operations of `Bare` (src/gitrepo.rs), the network commands and `mirror_repo` are isolated.
use git_storage.Prelude.{ℕ, Bool, true, false, Option, List, [], ◌∷◌, if◌then◌else◌}
use git_storage.Prelude.Text.{Bytes, Text, codes}
use git_storage.Prelude.Result.{git_failed, unsupported_scheme}
use git_storage.Process.{
  Machine, Output, Sys, with_args, pure, fail, lift, try, view, ◌>>=◌, output, on_files, fetch_add,
}
use git_storage.Process.Steps.{
  Steps, Steps-pure, Steps-fail, Steps-lift, Steps-view, Steps-try, Steps-bind,
}
use git_storage.Gitrepo
use git_storage.Gitrepo.{
  Bare, git, base_command, run_stdin, run, init_bare, open_bare, tree_of, tree_by, index_file,
  index_info, old_or_zero, parent_args, join, was_success,
}
use git_storage.Gitrepo.Answers.{
  trimmed, found_ref, swapped, read_lines, rev_line, two_words, size_line, timestamp,
}
use git_storage.Backend.Network.{net_command, net_git, must_succeed, mirror_repo, allowed_scheme}
use git_storage.Backend.Isolation.{Holds, OnMachine}
use git_storage.Backend.Isolation.Commands

module _ {X : Machine} {R : X.State → X.State → Type 0} (H : Holds X R) where
  abbrev Keeps {ℓ} : {A : Type ℓ} → Sys X A → Type 0
  Keeps m = Steps (OnMachine R) m

  pub choice-Steps :
      {A : Type 0} (b : Bool) (m k : Sys X A) → Keeps m → Keeps k → Keeps (if b then m else k)
  choice-Steps true m k h j = h
  choice-Steps false m k h j = j

  init_bare-Steps : (dir : Text) → Keeps (init_bare dir)
  unfolding init_bare
  init_bare-Steps dir =
      let P = Commands.OnMachine-IsPreorder H in
      Steps-bind P (on_files (X.create_dir_all dir)) _
        (Commands.files-Steps H (X.create_dir_all dir) (H.create_dir_all dir))
        (λ _.
          Steps-bind P (output (with_args (base_command dir) _)) _
            (Commands.output-Steps H _ (Commands.init-Isolated dir _))
            (λ out.
              choice-Steps out.success (pure tt) (fail git_failed) (Steps-pure P (tt {0}))
                (Steps-fail P (Unit {0}) git_failed)))

  pub open_bare-Steps : (dir : Text) → Keeps (open_bare dir)
  unfolding open_bare
  open_bare-Steps dir =
      let P = Commands.OnMachine-IsPreorder H in
      let repo : Bare = record { dir = dir } in
      let made : Bool → Sys X (Unit {0}) = λ there. if there then pure tt else init_bare dir in
      Steps-bind P (view (λ s. X.exists (join dir (codes "HEAD")) s.machine))
        (λ there. made there >>= λ _. pure repo)
        (Steps-view P (λ s. X.exists (join dir (codes "HEAD")) s.machine))
        (λ there.
          Steps-bind P (made there) (λ _. pure repo)
            (choice-Steps there (pure tt) (init_bare dir) (Steps-pure P (tt {0}))
              (init_bare-Steps dir))
            (λ _. Steps-pure P repo))

  pub write_blob-Steps : (repo : Bare) (bytes : Bytes) → Keeps (Gitrepo.write_blob repo bytes)
  unfolding Gitrepo.write_blob
  write_blob-Steps repo bytes =
      let P = Commands.OnMachine-IsPreorder H in
      Steps-bind P (run_stdin repo _ bytes []) (λ out. lift (trimmed out))
        (Commands.run_stdin-Steps H repo _ bytes) (λ out. Steps-lift P (trimmed out))

  tree_of-Steps :
      (repo : Bare) (entries : List (Text × Text)) (idx : Text)
      → Keeps (tree_of repo entries ((codes "GIT_INDEX_FILE", idx) ∷ []))
  unfolding tree_of run run_stdin
  tree_of-Steps repo entries idx =
      let P = Commands.OnMachine-IsPreorder H in
      Steps-bind P (run_stdin repo _ (index_info entries) _) _
        (Commands.answered-Steps H _ _
          (Commands.index_file-Isolated repo _ (index_info entries) idx))
        (λ _.
          Steps-bind P (run repo _ _) (λ out. lift (trimmed out))
            (Commands.answered-Steps H _ _ (Commands.index_file-Isolated repo _ [] idx))
            (λ out. Steps-lift P (trimmed out)))

  tree_by-Steps :
      (repo : Bare) (entries : List (Text × Text)) (idx : Text) → Keeps (tree_by repo entries idx)
  unfolding tree_by
  tree_by-Steps repo entries idx =
      let P = Commands.OnMachine-IsPreorder H in
      let made = tree_of repo entries ((codes "GIT_INDEX_FILE", idx) ∷ []) in
      let removed = on_files (X.remove_file idx) in
      Steps-bind P (try made) (λ result. try removed >>= λ _. lift result)
        (Steps-try P made (tree_of-Steps repo entries idx))
        (λ result.
          Steps-bind P (try removed) (λ _. lift result)
            (Steps-try P removed (Commands.files-Steps H (X.remove_file idx) (H.remove_file idx)))
            (λ _. Steps-lift P result))

  pub write_tree-Steps :
      (repo : Bare) (entries : List (Text × Text)) → Keeps (Gitrepo.write_tree repo entries)
  unfolding Gitrepo.write_tree
  write_tree-Steps repo entries =
      let P = Commands.OnMachine-IsPreorder H in
      let tree : ℕ → ℕ → Sys X Text = λ id n. tree_by repo entries (index_file repo id n) in
      Steps-bind P (view (λ s. X.id s.machine)) (λ id. fetch_add >>= tree id)
        (Steps-view P (λ s. X.id s.machine))
        (λ id.
          Steps-bind P fetch_add (tree id) (Commands.fetch_add-Steps H)
            (λ n. tree_by-Steps repo entries (index_file repo id n)))

  pub commit_tree-Steps :
      (repo : Bare) (tree : Text) (parents : List Text) (message : Text)
      → Keeps (Gitrepo.commit_tree repo tree parents message)
  unfolding Gitrepo.commit_tree
  commit_tree-Steps repo tree parents message = Commands.read-Steps H repo _ trimmed

  pub set_ref-Steps : (repo : Bare) (refname oid : Text) → Keeps (Gitrepo.set_ref repo refname oid)
  unfolding Gitrepo.set_ref
  set_ref-Steps repo refname oid = Commands.quiet-Steps H repo _

  pub cas_ref-Steps :
      (repo : Bare) (refname new : Text) (old : Option Text)
      → Keeps (Gitrepo.cas_ref repo refname new old)
  unfolding Gitrepo.cas_ref
  cas_ref-Steps repo refname new old =
      Commands.answered-Steps H _ swapped (Commands.git-Isolated repo _ [])

  pub delete_ref-Steps : (repo : Bare) (refname : Text) → Keeps (Gitrepo.delete_ref repo refname)
  unfolding Gitrepo.delete_ref
  delete_ref-Steps repo refname = Commands.quiet-Steps H repo _

  pub read_ref-Steps : (repo : Bare) (refname : Text) → Keeps (Gitrepo.read_ref repo refname)
  unfolding Gitrepo.read_ref
  read_ref-Steps repo refname =
      Commands.answered-Steps H _ found_ref (Commands.git-Isolated repo _ [])

  pub list_refs-Steps : (repo : Bare) (prefix : Text) → Keeps (Gitrepo.list_refs repo prefix)
  unfolding Gitrepo.list_refs
  list_refs-Steps repo prefix = Commands.read-Steps H repo _ (read_lines two_words)

  pub read_blob_at-Steps :
      (repo : Bare) (rev path : Text) → Keeps (Gitrepo.read_blob_at repo rev path)
  unfolding Gitrepo.read_blob_at
  read_blob_at-Steps repo rev path = Commands.run-Steps H repo _

  pub tree_entry_oid-Steps :
      (repo : Bare) (rev path : Text) → Keeps (Gitrepo.tree_entry_oid repo rev path)
  unfolding Gitrepo.tree_entry_oid
  tree_entry_oid-Steps repo rev path = Commands.read-Steps H repo _ trimmed

  pub read_blob_by_oid-Steps :
      (repo : Bare) (oid : Text) → Keeps (Gitrepo.read_blob_by_oid repo oid)
  unfolding Gitrepo.read_blob_by_oid
  read_blob_by_oid-Steps repo oid = Commands.run-Steps H repo _

  pub has_object-Steps : (repo : Bare) (oid : Text) → Keeps (Gitrepo.has_object repo oid)
  unfolding Gitrepo.has_object
  has_object-Steps repo oid =
      let P = Commands.OnMachine-IsPreorder H in
      Steps-bind P (try (output _)) (λ r. pure (was_success r))
        (Steps-try P (output _) (Commands.output-Steps H _ (Commands.git-Isolated repo _ [])))
        (λ r. Steps-pure P (was_success r))

  pub rev_list-Steps : (repo : Bare) (tip : Text) → Keeps (Gitrepo.rev_list repo tip)
  unfolding Gitrepo.rev_list
  rev_list-Steps repo tip = Commands.read-Steps H repo _ (read_lines rev_line)

  pub ls_tree_sizes-Steps : (repo : Bare) (rev : Text) → Keeps (Gitrepo.ls_tree_sizes repo rev)
  unfolding Gitrepo.ls_tree_sizes
  ls_tree_sizes-Steps repo rev = Commands.read-Steps H repo _ (read_lines size_line)

  pub commit_time-Steps : (repo : Bare) (rev : Text) → Keeps (Gitrepo.commit_time repo rev)
  unfolding Gitrepo.commit_time
  commit_time-Steps repo rev = Commands.read-Steps H repo _ timestamp

  pub net_git-Steps : (dir url : Text) (args : List Text) → Keeps (net_git dir url args)
  unfolding net_git
  net_git-Steps dir url args =
      let P = Commands.OnMachine-IsPreorder H in
      Steps-bind P (view (λ s. X.var (codes "GITSTORAGE_TOKEN") s.machine))
        (λ token. output (net_command dir url token args))
        (Steps-view P (λ s. X.var (codes "GITSTORAGE_TOKEN") s.machine))
        (λ token. Commands.output-Steps H _ (Commands.net_command-Isolated dir url token args))

  must_succeed-Steps : (out : Output) → Keeps (must_succeed out)
  unfolding must_succeed
  must_succeed-Steps out =
      let P = Commands.OnMachine-IsPreorder H in
      choice-Steps out.success (pure tt) (fail git_failed) (Steps-pure P (tt {0}))
        (Steps-fail P (Unit {0}) git_failed)

  pub mirror_repo-Steps : (dir target_url : Text) → Keeps (mirror_repo dir target_url)
  unfolding mirror_repo
  mirror_repo-Steps dir target_url =
      let P = Commands.OnMachine-IsPreorder H in
      choice-Steps (allowed_scheme target_url) _ (fail unsupported_scheme)
        (Steps-bind P (net_git dir target_url _) must_succeed (net_git-Steps dir target_url _)
          must_succeed-Steps)
        (Steps-fail P (Unit {0}) unsupported_scheme)
