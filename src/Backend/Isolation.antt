-- ===== src/Backend/Isolation.antt =====
-- Credential isolation (src/gitrepo.rs and src/backend.rs): whatever a backend is asked for, it runs
-- no program but git, with prompts off and the user's configuration masked.
pub mod Commands
pub mod OfBare
pub mod OfRemote
pub mod OfLocal
pub mod Reading
pub mod Served
use git_storage.Prelude.{◌≡◌, ℕ, Bool, Option, none, some, List, [], ◌∷◌, if◌then◌else◌}
use git_storage.Prelude.Text.{Text, codes, eqb}
use git_storage.Process.{Machine, Running, Command}
use git_storage.Process.Steps.{IsPreorder}

abbrev or_later : Option Text → Text → Bool → Option Text
or_later (some v) w same = some v
or_later none w same = if same then some w else none

-- The value that a command gives a variable: the last one holds.
abbrev pub assigned : Text → List (Text × Text) → Option Text
assigned name [] = none
assigned name ((k, v) ∷ vars) = or_later (assigned name vars) v (eqb k name)

-- An isolated command of git.
pub record Isolated (cmd : Command) : Type 0 where
  pub is_git : cmd.program ≡ codes "git"
  pub no_prompt : assigned (codes "GIT_TERMINAL_PROMPT") cmd.vars ≡ some (codes "0")
  pub no_global : assigned (codes "GIT_CONFIG_GLOBAL") cmd.vars ≡ some (codes "/dev/null")
  pub no_system : assigned (codes "GIT_CONFIG_SYSTEM") cmd.vars ≡ some (codes "/dev/null")
  pub no_askpass : cmd.removed ≡ codes "GIT_ASKPASS" ∷ codes "SSH_ASKPASS" ∷ []

-- A relation that holds across every isolated command and every call of `std::fs` and of the clock.
pub record Holds (X : Machine) (R : X.State → X.State → Type 0) : Type 0 where
  pub preorder : IsPreorder R
  pub output : (cmd : Command) (s : X.State) → Isolated cmd → R s (X.output cmd s).1
  pub create_dir_all : (dir : Text) (s : X.State) → R s (X.create_dir_all dir s).1
  pub remove_dir_all : (dir : Text) (s : X.State) → R s (X.remove_dir_all dir s).1
  pub remove_file : (path : Text) (s : X.State) → R s (X.remove_file path s).1
  pub sleep : (nanos : ℕ) (s : X.State) → R s (X.sleep nanos s)

-- The relation, on the machines of two processes.
abbrev pub OnMachine : {X : Machine} → (X.State → X.State → Type 0) → Running X → Running X → Type 0
OnMachine R s t = R s.machine t.machine
