-- ===== src/Gitrepo.antt =====
-- `Bare` (src/gitrepo.rs): a bare repository on the disk, by subprocesses of git. Standard error is
-- taken as it is: only ASCII phrases are looked for in it, which a lossy decoding keeps.
pub mod Answers
pub mod Listing
use git_storage.Prelude.{
  ℕ, Bool, true, false, ◌||◌, not, Option, none, some, List, [], ◌∷◌, ◌++◌, map, ◌==◌,
  if◌then◌else◌,
}
use git_storage.Prelude.Text.{Bytes, Text, codes}
use git_storage.Prelude.Int.{ℤ}
use git_storage.Prelude.Str.{trim, last, contains, split_once, parse_usize, parse_i64}
use git_storage.Prelude.Utf8.{from_utf8}
use git_storage.Prelude.Words.{lines, split_whitespace}
use git_storage.Prelude.Decimal.{decimal}
use git_storage.Prelude.Result.{Result, ok, err, git_failed, bad_timestamp}
use git_storage.Gitrepo.Answers.{
  checked, trimmed, read_lines, rev_line, two_words, size_line, timestamp, swapped, found_ref,
}
use git_storage.Process.{
  Machine, Sys, Command, Output, program, with_args, pure, fail, lift, try, view, ◌>>=◌, ◌>>◌,
  output, on_files, fetch_add,
}

-- `ZERO_OID`
abbrev pub zero_oid : Text
zero_oid = codes "0000000000000000000000000000000000000000"

-- `Bare`
pub record Bare : Type 0 where
  pub dir : Text

-- `Path::join` with one component.
unfoldable pub join : Text → Text → Text
unfolding last
join dir name = elim (last dir) [
  | none ↦ name
  | some c ↦ if c == b'/' then dir ++ name else dir ++ b'/' ∷ name
]

unfoldable pub base_command : Text → Command
base_command dir = record {
  program = codes "git";
  args = codes "--git-dir" ∷ dir ∷ [];
  vars =
      (codes "GIT_TERMINAL_PROMPT", codes "0")
      ∷ (codes "GIT_CONFIG_GLOBAL", codes "/dev/null")
      ∷ (codes "GIT_CONFIG_SYSTEM", codes "/dev/null")
      ∷ (codes "GIT_AUTHOR_NAME", codes "git-storage")
      ∷ (codes "GIT_AUTHOR_EMAIL", codes "git-storage@localhost")
      ∷ (codes "GIT_COMMITTER_NAME", codes "git-storage")
      ∷ (codes "GIT_COMMITTER_EMAIL", codes "git-storage@localhost")
      ∷ [];
  removed = codes "GIT_ASKPASS" ∷ codes "SSH_ASKPASS" ∷ [];
  stdin = [];
}

-- The command of some arguments, with further variables and an input.
unfoldable pub git : Bare → List Text → Bytes → List (Text × Text) → Command
unfolding base_command
git repo args stdin extra_env =
    let cmd = with_args (base_command repo.dir) args in
    record cmd { vars = cmd.vars ++ extra_env; stdin = stdin }

unfoldable pub old_or_zero : Option Text → Text
old_or_zero none = zero_oid
old_or_zero (some old) = old

unfoldable pub parent_args : List Text → List Text
parent_args [] = []
parent_args (p ∷ ps) = codes "-p" ∷ p ∷ parent_args ps

-- The input of `update-index --index-info`.
unfoldable pub index_info : List (Text × Text) → Text
index_info [] = []
index_info ((path, oid) ∷ es) = codes "100644 " ++ oid ++ 9 ∷ path ++ 10 ∷ index_info es

unfoldable pub index_file : Bare → ℕ → ℕ → Text
unfolding join decimal
index_file repo id n = join repo.dir (codes "gs-index-" ++ decimal id ++ b'-' ∷ decimal n)

unfoldable pub was_success : Result Output → Bool
was_success (err e) = false
was_success (ok out) = out.success

module _ {X : Machine} where
  unfoldable pub run_stdin : Bare → List Text → Bytes → List (Text × Text) → Sys X Bytes
  unfolding ◌>>=◌ output lift git checked
  run_stdin repo args stdin extra_env =
      output (git repo args stdin extra_env) >>= λ out. lift (checked out)

  unfoldable pub run : Bare → List Text → List (Text × Text) → Sys X Bytes
  unfolding run_stdin
  run repo args extra_env = run_stdin repo args [] extra_env

  -- A command whose output is not looked at.
  unfoldable pub run_quiet : Bare → List Text → Sys X (Unit {0})
  unfolding run ◌>>=◌ pure
  run_quiet repo args = run repo args [] >>= λ _. pure tt

  unfoldable pub init_bare : Text → Sys X (Unit {0})
  unfolding on_files ◌>>=◌ output base_command pure fail
  init_bare dir = do
    on_files (X.create_dir_all dir)
    out ←
        output (with_args (base_command dir) (codes "init" ∷ codes "--bare" ∷ codes "--quiet" ∷ []))
    if out.success then pure tt else fail git_failed

  unfoldable pub open_bare : Text → Sys X Bare
  unfolding view init_bare ◌>>=◌ pure join
  open_bare dir = do
    there ← view (λ s. X.exists (join dir (codes "HEAD")) s.machine)
    if there then pure tt else init_bare dir
    pure (record { dir = dir })

  unfoldable pub write_blob : Bare → Bytes → Sys X Text
  unfolding run_stdin ◌>>=◌ lift trimmed
  write_blob repo bytes =
      run_stdin repo (codes "hash-object" ∷ codes "-w" ∷ codes "--stdin" ∷ []) bytes [] >>= λ out.
      lift (trimmed out)

  -- The closure of `write_tree`, with the index file in the environment.
  unfoldable pub tree_of : Bare → List (Text × Text) → List (Text × Text) → Sys X Text
  unfolding run run_stdin ◌>>=◌ lift trimmed index_info
  tree_of repo entries env = do
    _ ← run_stdin repo (codes "update-index" ∷ codes "--index-info" ∷ []) (index_info entries) env
    out ← run repo (codes "write-tree" ∷ []) env
    lift (trimmed out)

  -- The tree, by an index file that is removed afterwards.
  unfoldable pub tree_by : Bare → List (Text × Text) → Text → Sys X Text
  unfolding tree_of try on_files lift ◌>>=◌
  tree_by repo entries idx =
      try (tree_of repo entries ((codes "GIT_INDEX_FILE", idx) ∷ [])) >>= λ result.
      try (on_files (X.remove_file idx)) >>= λ _. lift result

  unfoldable pub write_tree : Bare → List (Text × Text) → Sys X Text
  unfolding view fetch_add tree_by ◌>>=◌ index_file
  write_tree repo entries = view (λ s. X.id s.machine) >>= λ id.
      fetch_add >>= λ n. tree_by repo entries (index_file repo id n)

  unfoldable pub commit_tree : Bare → Text → List Text → Text → Sys X Text
  unfolding run ◌>>=◌ lift trimmed parent_args
  commit_tree repo tree parents message =
      run repo (codes "commit-tree" ∷ tree ∷ parent_args parents ++ codes "-m" ∷ message ∷ []) []
      >>= λ out. lift (trimmed out)

  unfoldable pub read_ref : Bare → Text → Sys X (Option Text)
  unfolding output git ◌>>=◌ lift found_ref
  read_ref repo refname =
      output
        (git repo (codes "rev-parse" ∷ codes "--verify" ∷ codes "--quiet" ∷ refname ∷ []) [] [])
      >>= λ out. lift (found_ref out)

  unfoldable pub cas_ref : Bare → Text → Text → Option Text → Sys X Bool
  unfolding output git ◌>>=◌ lift swapped old_or_zero
  cas_ref repo refname new old =
      output (git repo (codes "update-ref" ∷ refname ∷ new ∷ old_or_zero old ∷ []) [] []) >>= λ out.
      lift (swapped out)

  unfoldable pub set_ref : Bare → Text → Text → Sys X (Unit {0})
  unfolding run_quiet
  set_ref repo refname oid = run_quiet repo (codes "update-ref" ∷ refname ∷ oid ∷ [])

  unfoldable pub delete_ref : Bare → Text → Sys X (Unit {0})
  unfolding run_quiet
  delete_ref repo refname = run_quiet repo (codes "update-ref" ∷ codes "-d" ∷ refname ∷ [])

  unfoldable pub read_blob_at : Bare → Text → Text → Sys X Bytes
  unfolding run
  read_blob_at repo rev path =
      run repo (codes "cat-file" ∷ codes "blob" ∷ (rev ++ b':' ∷ path) ∷ []) []

  unfoldable pub tree_entry_oid : Bare → Text → Text → Sys X Text
  unfolding run ◌>>=◌ lift trimmed
  tree_entry_oid repo rev path =
      run repo (codes "rev-parse" ∷ codes "--verify" ∷ (rev ++ b':' ∷ path) ∷ []) [] >>= λ out.
      lift (trimmed out)

  unfoldable pub read_blob_by_oid : Bare → Text → Sys X Bytes
  unfolding run
  read_blob_by_oid repo oid = run repo (codes "cat-file" ∷ codes "blob" ∷ oid ∷ []) []

  unfoldable pub has_object : Bare → Text → Sys X Bool
  unfolding try output git ◌>>=◌ pure was_success
  has_object repo oid =
      try (output (git repo (codes "cat-file" ∷ codes "-e" ∷ oid ∷ []) [] [])) >>= λ r.
      pure (was_success r)

  unfoldable pub rev_list : Bare → Text → Sys X (List Text)
  unfolding run ◌>>=◌ lift read_lines rev_line
  rev_list repo tip =
      run repo (codes "rev-list" ∷ tip ∷ []) [] >>= λ out. lift (read_lines rev_line out)

  unfoldable pub list_refs : Bare → Text → Sys X (List (Text × Text))
  unfolding run ◌>>=◌ lift read_lines two_words
  list_refs repo prefix =
      run repo (codes "for-each-ref" ∷ codes "--format=%(refname) %(objectname)" ∷ prefix ∷ []) []
      >>= λ out. lift (read_lines two_words out)

  unfoldable pub ls_tree_sizes : Bare → Text → Sys X (List (Text × ℕ))
  unfolding run ◌>>=◌ lift read_lines size_line
  ls_tree_sizes repo rev =
      run repo (codes "ls-tree" ∷ codes "-r" ∷ codes "--format=%(objectsize) %(path)" ∷ rev ∷ []) []
      >>= λ out. lift (read_lines size_line out)

  unfoldable pub commit_time : Bare → Text → Sys X ℤ
  unfolding run ◌>>=◌ lift timestamp
  commit_time repo rev =
      run repo (codes "show" ∷ codes "-s" ∷ codes "--format=%ct" ∷ rev ∷ []) [] >>= λ out.
      lift (timestamp out)
