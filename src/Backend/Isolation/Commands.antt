-- ===== src/Backend/Isolation/Commands.antt =====
-- The commands that src/gitrepo.rs and src/backend.rs build are isolated.
use git_storage.Prelude.{ℕ, refl, Bool, Option, List, [], ◌∷◌}
use git_storage.Prelude.Text.{Bytes, Text, codes, eqb}
use git_storage.Prelude.Result.{Result}
use git_storage.Process.{
  Machine, Command, Output, with_args, pure, lift, ◌>>=◌, output, on_files, sleep, fetch_add,
}
use git_storage.Process.Steps.{Steps, IsPreorder, Steps-pure, Steps-lift, Steps-bind}
use git_storage.Gitrepo.Answers.{checked}
use git_storage.Gitrepo.{Bare, git, base_command, run_stdin, run, run_quiet}
use git_storage.Backend.Network.{net_command}
use git_storage.Backend.Isolation.{Isolated, Holds, OnMachine}

pub git-Isolated :
    (repo : Bare) (args : List Text) (stdin : Bytes) → Isolated (git repo args stdin [])
unfolding git base_command eqb
git-Isolated repo args stdin = record {
  is_git = refl;
  no_prompt = refl;
  no_global = refl;
  no_system = refl;
  no_askpass = refl;
}

pub index_file-Isolated :
    (repo : Bare) (args : List Text) (stdin : Bytes) (idx : Text)
    → Isolated (git repo args stdin ((codes "GIT_INDEX_FILE", idx) ∷ []))
unfolding git base_command eqb
index_file-Isolated repo args stdin idx = record {
  is_git = refl;
  no_prompt = refl;
  no_global = refl;
  no_system = refl;
  no_askpass = refl;
}

pub init-Isolated : (dir : Text) (args : List Text) → Isolated (with_args (base_command dir) args)
unfolding base_command eqb
init-Isolated dir args = record {
  is_git = refl;
  no_prompt = refl;
  no_global = refl;
  no_system = refl;
  no_askpass = refl;
}

pub net_command-Isolated :
    (dir url : Text) (token : Option Text) (args : List Text)
    → Isolated (net_command dir url token args)
unfolding net_command eqb
net_command-Isolated dir url token args = record {
  is_git = refl;
  no_prompt = refl;
  no_global = refl;
  no_system = refl;
  no_askpass = refl;
}

module _ {X : Machine} {R : X.State → X.State → Type 0} (H : Holds X R) where
  pub OnMachine-IsPreorder : IsPreorder (OnMachine {X = X} R)
  OnMachine-IsPreorder = record {
    same = λ s. H.preorder.same s.machine;
    after = λ h k. H.preorder.after h k;
  }

  pub output-Steps : (cmd : Command) → Isolated cmd → Steps (OnMachine R) (output {X = X} cmd)
  unfolding output
  output-Steps cmd i s = H.output cmd s.machine i

  pub files-Steps :
      (f : X.State → Bool × X.State)
      → ((s : X.State) → R s (f s).1)
      → Steps (OnMachine R) (on_files {X = X} f)
  unfolding on_files
  files-Steps f h s = h s.machine

  pub fetch_add-Steps : Steps (OnMachine R) (fetch_add {X = X})
  unfolding fetch_add
  fetch_add-Steps s = H.preorder.same s.machine

  pub sleep-Steps : (nanos : ℕ) → Steps (OnMachine R) (sleep {X = X} nanos)
  unfolding sleep
  sleep-Steps nanos s = H.sleep nanos s.machine

  -- A command whose output is read.
  pub answered-Steps :
      {A : Type 0} (cmd : Command) (f : Output → Result A)
      → Isolated cmd
      → Steps (OnMachine R) (output {X = X} cmd >>= λ out. lift (f out))
  answered-Steps cmd f i =
      Steps-bind OnMachine-IsPreorder (output cmd) (λ out. lift (f out)) (output-Steps cmd i)
        (λ out. Steps-lift OnMachine-IsPreorder (f out))

  pub run_stdin-Steps :
      (repo : Bare) (args : List Text) (stdin : Bytes)
      → Steps (OnMachine R) (run_stdin {X = X} repo args stdin [])
  unfolding run_stdin
  run_stdin-Steps repo args stdin =
      answered-Steps (git repo args stdin []) checked (git-Isolated repo args stdin)

  pub run-Steps : (repo : Bare) (args : List Text) → Steps (OnMachine R) (run {X = X} repo args [])
  unfolding run
  run-Steps repo args = run_stdin-Steps repo args []

  -- What a command that must succeed wrote, read.
  pub read-Steps :
      {A : Type 0} (repo : Bare) (args : List Text) (f : Bytes → Result A)
      → Steps (OnMachine R) (run {X = X} repo args [] >>= λ out. lift (f out))
  read-Steps repo args f =
      Steps-bind OnMachine-IsPreorder (run repo args []) (λ out. lift (f out)) (run-Steps repo args)
        (λ out. Steps-lift OnMachine-IsPreorder (f out))

  pub quiet-Steps :
      (repo : Bare) (args : List Text) → Steps (OnMachine R) (run_quiet {X = X} repo args)
  unfolding run_quiet
  quiet-Steps repo args =
      Steps-bind OnMachine-IsPreorder (run repo args []) (λ _. pure tt) (run-Steps repo args)
        (λ _. Steps-pure OnMachine-IsPreorder (tt {0}))
