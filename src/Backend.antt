-- ===== src/Backend.antt =====
-- The `Backend` trait of src/backend.rs: all that the engine does to a git repository goes through
-- it. `Repo` is the state behind a backend; an operation returns its result and the new state.
pub mod Laws
pub mod Base64
pub mod Network
pub mod Local
pub mod Remote
pub mod Provision
pub mod Calls
pub mod Isolation
pub mod Swaps
use git_storage.Prelude.{ℕ, Bool, Option, List}
use git_storage.Prelude.Text.{Bytes, Text}
use git_storage.Prelude.Int.{ℤ}
use git_storage.Prelude.Result.{Result}

pub record Backend : Type 1 where
  pub Repo : Type 0
  pub write_blob : Bytes → Repo → Result Text × Repo
  pub write_tree : List (Text × Text) → Repo → Result Text × Repo
  pub commit_tree : Text → List Text → Text → Repo → Result Text × Repo
  pub set_ref : Text → Text → Repo → Result (Unit {0}) × Repo
  pub cas_ref : Text → Text → Option Text → Repo → Result Bool × Repo
  pub delete_ref : Text → Repo → Result (Unit {0}) × Repo
  pub read_ref : Text → Repo → Result (Option Text) × Repo
  pub list_refs : Text → Repo → Result (List (Text × Text)) × Repo
  pub read_blob_at : Text → Text → Repo → Result Bytes × Repo
  pub rev_list : Text → Repo → Result (List Text) × Repo
  pub ls_tree_sizes : Text → Repo → Result (List (Text × ℕ)) × Repo
  pub commit_time : Text → Repo → Result ℤ × Repo
  pub destroy : Repo → Result (Unit {0}) × Repo
  pub recreate : Repo → Result (Unit {0}) × Repo
  pub mirror_to : Text → Repo → Result (Unit {0}) × Repo
  pub read_path_note : Repo → Option Text
