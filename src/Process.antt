-- ===== src/Process.antt =====
-- What src/gitrepo.rs, src/backend.rs and src/backend/provision.rs use of the machine: subprocesses
-- (`std::process::Command`), the file system, the environment and the clock. A machine is a
-- parameter. Programs that the code runs (`git`, `curl`) are part of it.
pub mod Steps
pub mod Runs
use git_storage.Prelude.{◌≡◌, refl, ℕ, Bool, true, false, Option, none, some, List, [], ◌++◌, ◌+◌}
use git_storage.Prelude.Text.{Bytes, Text}
use git_storage.Prelude.Result.{Result, Error, ok, err, io_failed}

-- `Command`: the variables that are set and removed, in order, and what is written to its input.
pub record Command : Type 0 where
  pub program : Text
  pub args : List Text
  pub vars : List (Text × Text)
  pub removed : List Text
  pub stdin : Bytes

abbrev pub program : Text → Command
program name = record { program = name; args = []; vars = []; removed = []; stdin = [] }

-- `Command::args`
abbrev pub with_args : Command → List Text → Command
with_args cmd args = record cmd { args = cmd.args ++ args }

-- `Output`
pub record Output : Type 0 where
  pub success : Bool
  pub stdout : Bytes
  pub stderr : Bytes

pub record Machine : Type 1 where
  pub State : Type 0
  -- Nothing where the program cannot be started, or its input or output not be passed.
  pub output : Command → State → Option Output × State
  -- `Path::exists`, and the calls of `std::fs`, with whether they succeed.
  pub exists : Text → State → Bool
  pub create_dir_all : Text → State → Bool × State
  pub remove_dir_all : Text → State → Bool × State
  pub remove_file : Text → State → Bool × State
  -- `std::env::var`, and `std::process::id`
  pub var : Text → State → Option Text
  pub id : State → ℕ
  -- `thread::sleep`, and the clocks: `Instant::now`, both in nanoseconds, and the nanoseconds of
  -- the current second.
  pub sleep : ℕ → State → State
  pub now : State → ℕ
  pub subsec_nanos : State → ℕ

module _ (X : Machine) where
  -- A process on a machine, with the counter of index files (`INDEX_COUNTER`).
  pub record Running : Type 0 where
    pub index_counter : ℕ
    pub machine : X.State

-- What changes a state and may fail: what was changed before an error stays so.
abbrev pub Act {ℓ} : Type 0 → Type ℓ → Type ℓ
Act S A = S → Result A × S

abbrev pub Sys {ℓ} : Machine → Type ℓ → Type ℓ
Sys X A = Act (Running X) A

abbrev pub started : Option Output → Result Output
started none = err io_failed
started (some out) = ok out

abbrev succeeded : Bool → Result (Unit {0})
succeeded true = ok tt
succeeded false = err io_failed

module _ {S : Type 0} where
  module _ {ℓ} {A : Type ℓ} where
    unfoldable pub pure : A → Act S A
    pure a s = (ok a, s)

    unfoldable pub fail : Error → Act S A
    fail e s = (err e, s)

    unfoldable pub lift : Result A → Act S A
    lift r s = (r, s)

    -- A call whose failure the caller looks at.
    unfoldable pub try : Act S A → Act S (Result A)
    try m s = let (r, t) = m s in (ok r, t)

    -- What the state shows, without a change.
    unfoldable pub view : (S → A) → Act S A
    view f s = (ok (f s), s)

  module _ {ℓ κ} {A : Type ℓ} {C : Type κ} where
    unfoldable pub continue : Result A → (A → Act S C) → Act S C
    continue (ok a) f s = f a s
    continue (err e) f s = (err e, s)

    infixl 5 ◌>>=◌
    unfoldable pub ◌>>=◌ : Act S A → (A → Act S C) → Act S C
    unfolding continue
    ◌>>=◌ m f s = let (r, t) = m s in continue r f t

  infixl 5 ◌>>◌
  abbrev pub ◌>>◌ {κ} : {C : Type κ} → Act S (Unit {0}) → Act S C → Act S C
  m >> k = m >>= λ _. k

  unfoldable pub change : (S → S) → Act S (Unit {0})
  change f s = (ok tt, f s)

module _ {X : Machine} where
  -- `Command::output`
  unfoldable pub output : Command → Sys X Output
  output cmd s =
      let (out, machine) = X.output cmd s.machine in (started out, record s { machine = machine })

  -- A call of `std::fs`.
  unfoldable pub on_files : (X.State → Bool × X.State) → Sys X (Unit {0})
  on_files f s =
      let (done, machine) = f s.machine in (succeeded done, record s { machine = machine })

  unfoldable pub sleep : ℕ → Sys X (Unit {0})
  sleep nanos s = (ok tt, record s { machine = X.sleep nanos s.machine })

  -- `INDEX_COUNTER.fetch_add(1, _)`
  unfoldable pub fetch_add : Sys X ℕ
  fetch_add s = (ok s.index_counter, record s { index_counter = s.index_counter + 1 })
