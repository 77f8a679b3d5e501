-- ===== src/Backend/Calls.antt =====
-- The calls that the engine can make of a backend (the trait `Backend` of src/backend.rs), as data.
use git_storage.Prelude.{Option, List}
use git_storage.Prelude.Text.{Bytes, Text}
use git_storage.Backend.{Backend}

pub data Call : Type 0 where
  write_blob : Bytes → Call
  write_tree : List (Text × Text) → Call
  commit_tree : Text → List Text → Text → Call
  set_ref : Text → Text → Call
  cas_ref : Text → Text → Option Text → Call
  delete_ref read_ref list_refs : Text → Call
  read_blob_at : Text → Text → Call
  rev_list ls_tree_sizes commit_time : Text → Call
  destroy recreate : Call
  mirror_to : Text → Call

-- The state after a call.
unfoldable pub serve : (B : Backend) → Call → B.Repo → B.Repo
serve B (write_blob bytes) s = (B.write_blob bytes s).1
serve B (write_tree entries) s = (B.write_tree entries s).1
serve B (commit_tree tree parents message) s = (B.commit_tree tree parents message s).1
serve B (set_ref refname oid) s = (B.set_ref refname oid s).1
serve B (cas_ref refname new old) s = (B.cas_ref refname new old s).1
serve B (delete_ref refname) s = (B.delete_ref refname s).1
serve B (read_ref refname) s = (B.read_ref refname s).1
serve B (list_refs prefix) s = (B.list_refs prefix s).1
serve B (read_blob_at rev path) s = (B.read_blob_at rev path s).1
serve B (rev_list tip) s = (B.rev_list tip s).1
serve B (ls_tree_sizes rev) s = (B.ls_tree_sizes rev s).1
serve B (commit_time rev) s = (B.commit_time rev s).1
serve B destroy s = (B.destroy s).1
serve B recreate s = (B.recreate s).1
serve B (mirror_to target_url) s = (B.mirror_to target_url s).1
