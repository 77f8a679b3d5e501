-- ===== src/Tests/Memory.antt =====
-- A git repository in memory: objects by their place, and refs. It behaves as the engine relies on.
pub mod Laws
use git_storage.Prelude.{
  ℕ, ◌≡◌, ◌≢◌, refl, ap, sym, ◌∙◌, Bool, true, false, Option, none, some, List, [], ◌∷◌, ◌++◌,
  length, get_elem?, get_elem?-snoc, get_elem?-lt, arith, if◌then◌else◌, Bool-cases, Option-cases,
  inl, inr, ◌&&◌,
}
use git_storage.Prelude.Text.{Bytes, Text, codes, eqb, eq_of_eqb}
use git_storage.Prelude.Int.{ℤ, pos}
use git_storage.Prelude.Result.{Result, ok, err, git_failed}
use git_storage.Map.{Map, get, insert, remove}
use git_storage.Map.Order.{text_ord}
use git_storage.Map.Laws.{get-insert}
use git_storage.Backend.{Backend}
use git_storage.Backend.Laws.{Views, Grows, Quiet, Quiet-refl, IsGit, AllThere, older, parents}

pub data Object : Type 0 where
  blob_object : Bytes → Object
  tree_object : List (Text × Text) → Object
  commit_object : Text → List Text → Object

pub record Memory : Type 0 where
  pub objects : List Object
  pub refs : Map Text Text

abbrev pub lookup : List Object → Text → Option Object
lookup os (i ∷ []) = get_elem? os i
lookup os _ = none

abbrev pub as_blob : Option Object → Option Bytes
as_blob (some (blob_object b)) = some b
as_blob _ = none

abbrev pub as_tree : Option Object → Option (List (Text × Text))
as_tree (some (tree_object es)) = some es
as_tree _ = none

abbrev pub is_commit : Option Object → Bool
is_commit (some (commit_object _ _)) = true
is_commit _ = false

abbrev pub all_commits : List Object → List Text → Bool
all_commits os [] = true
all_commits os (c ∷ cs) = is_commit (lookup os c) && all_commits os cs

abbrev pub as_history : List Object → Option Object → Option (List Text)
as_history os (some (commit_object t l)) = if all_commits os l then some l else none
as_history os _ = none

abbrev pub content : List Object → Option Text → Option Bytes
content os (some o) = as_blob (lookup os o)
content os none = none

abbrev pub entry : List Object → Option (List (Text × Text)) → Text → Option Bytes
entry os (some es) p = content os (get p es)
entry os none p = none

abbrev pub as_file : List Object → Option Object → Text → Option Bytes
as_file os (some (commit_object t l)) p = entry os (as_tree (lookup os t)) p
as_file os _ p = none

abbrev pub append : Object → Memory → Result Text × Memory
append x r = (ok (length r.objects ∷ []), record { objects = r.objects ++ x ∷ []; refs = r.refs })

abbrev pub found {ℓ} : {A : Type ℓ} → Option A → Memory → Result A × Memory
found none r = (err git_failed, r)
found (some a) r = (ok a, r)

abbrev pub same_tip : Option Text → Option Text → Bool
same_tip none none = true
same_tip (some a) (some b) = eqb a b
same_tip _ _ = false

pub same_tip-eq : (a b : Option Text) → same_tip a b ≡ true → a ≡ b
same_tip-eq none none h = refl
same_tip-eq none (some b) h = cc
same_tip-eq (some a) none h = cc
same_tip-eq (some a) (some b) h = ap some (eq_of_eqb a b h)

abbrev pub cas : Text → Text → Memory → Bool → Result Bool × Memory
cas n new r true = (ok true, record { objects = r.objects; refs = insert n new r.refs })
cas n new r false = (ok false, r)

abbrev pub commit_on : Text → Memory → Option (List Text) → Result Text × Memory
commit_on t r none = (err git_failed, r)
commit_on t r (some l) = append (commit_object t ((length r.objects ∷ []) ∷ l)) r

abbrev pub past : Memory → List Text → Option (List Text)
past r [] = some []
past r (p ∷ _) = as_history r.objects (lookup r.objects p)

-- A commit by its identity, or by a ref.
abbrev pub at_rev : Memory → Text → Text → Bool → Option Bytes
at_rev r rev p true = as_file r.objects (lookup r.objects rev) p
at_rev r rev p false = elim (get rev r.refs) [
  | none ↦ none
  | some c ↦ as_file r.objects (lookup r.objects c) p
]

abbrev pub memory : Backend
memory = record {
  Repo = Memory;
  write_blob = λ b. append (blob_object b);
  write_tree = λ es. append (tree_object es);
  commit_tree = λ t ps m r. commit_on t r (past r ps);
  set_ref = λ n c r. (ok tt, record { objects = r.objects; refs = insert n c r.refs });
  cas_ref = λ n new old r. cas n new r (same_tip (get n r.refs) old);
  delete_ref = λ n r. (ok tt, record { objects = r.objects; refs = remove n r.refs });
  read_ref = λ n r. (ok (get n r.refs), r);
  list_refs = λ p r. (ok r.refs, r);
  read_blob_at = λ rev p r. found (at_rev r rev p (is_commit (lookup r.objects rev))) r;
  rev_list = λ c r. found (as_history r.objects (lookup r.objects c)) r;
  ls_tree_sizes = λ c r. (ok [], r);
  commit_time = λ c r. (ok (pos 0), r);
  destroy = λ r. (ok tt, record { objects = []; refs = [] });
  recreate = λ r. (ok tt, r);
  mirror_to = λ u r. (ok tt, r);
  read_path_note = λ r. none;
}

abbrev pub views : Views memory
views = record {
  IsPlain = λ r. (n c : Text) → get n r.refs ≡ some c → is_commit (lookup r.objects c) ≡ true;
  ref = λ r n. get n r.refs;
  blob = λ r o. as_blob (lookup r.objects o);
  tree = λ r o. as_tree (lookup r.objects o);
  is_commit = λ r o. is_commit (lookup r.objects o);
  history = λ r o. as_history r.objects (lookup r.objects o);
  file = λ r o p. as_file r.objects (lookup r.objects o) p;
}

abbrev pub empty : Memory
empty = record { objects = []; refs = [] }
