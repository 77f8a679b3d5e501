-- ===== src/Backend/Laws.antt =====
-- What the engine relies on of git: objects are immutable, a ref is read as it stands, and a
-- compare-and-swap either replaces the value that it expects or changes no ref.
use git_storage.Prelude.{
  ◌≡◌, ◌≢◌, refl, ◌∙◌, Bool, true, false, ◌&&◌, Option, none, some, List, [], ◌∷◌, leb, take, drop,
}
use git_storage.Map.{get}
use git_storage.Map.Order.{text_ord}
use git_storage.Prelude.Text.{Bytes, Text, codes, eqb}
use git_storage.Prelude.Int.{ℤ}
use git_storage.Prelude.Result.{ok}
use git_storage.Backend.{Backend}

abbrev is_word : Text → Bool
is_word [] = true
is_word (c ∷ cs) = leb b'a' c && (leb c b'z' && is_word cs)

-- Lower-case letters, one at least.
abbrev pub is_name : Text → Bool
is_name [] = false
is_name (c ∷ cs) = is_word (c ∷ cs)

abbrev pub IsName : Text → Type 0
IsName s = is_name s ≡ true

-- The name of a branch in full: `refs/heads/` and lower-case letters. Such a name is no other
-- revision, where a short name or one with a suffix is looked up in other ways.
abbrev pub IsBranch : Text → Type 0
IsBranch n = (eqb (take 11 n) (codes "refs/heads/") && is_name (drop 11 n)) ≡ true

-- What can be read of a repository: refs by their full names below `refs/`, and objects by their full
-- identities, with nothing under any other text.
pub record Views (B : Backend) : Type 1 where
  -- No ref below `refs/` is symbolic or replaces an object, and a branch names a commit.
  pub IsPlain : B.Repo → Type 0
  pub ref : B.Repo → Text → Option Text
  pub blob : B.Repo → Text → Option Bytes
  pub tree : B.Repo → Text → Option (List (Text × Text))
  -- Whether an identity is that of a commit.
  pub is_commit : B.Repo → Text → Bool
  -- A commit and its ancestors, newest first, and the file at a path of its tree.
  pub history : B.Repo → Text → Option (List Text)
  pub file : B.Repo → Text → Text → Option Bytes

-- The parents of a commit on a tip.
abbrev pub parents : Option Text → List Text
parents none = []
parents (some p) = p ∷ []

module _ {B : Backend} (V : Views B) where
  -- No object is lost or changed, and a plain repository stays so.
  pub record Grows (r s : B.Repo) : Type 0 where
    pub blobs : (o : Text) (b : Bytes) → V.blob r o ≡ some b → V.blob s o ≡ some b
    pub trees : (o : Text) (es : List (Text × Text)) → V.tree r o ≡ some es → V.tree s o ≡ some es
    pub commits : (o : Text) → V.is_commit r o ≡ true → V.is_commit s o ≡ true
    pub histories : (o : Text) (l : List Text) → V.history r o ≡ some l → V.history s o ≡ some l
    pub files : (o p : Text) (b : Bytes) → V.file r o p ≡ some b → V.file s o p ≡ some b
    pub plain : V.IsPlain r → V.IsPlain s

  -- Objects grow, and no ref changes.
  pub record Quiet (r s : B.Repo) : Type 0 where
    pub grows : Grows r s
    pub refs : (n : Text) → V.ref s n ≡ V.ref r n

  -- The commits before a new one on a tip.
  abbrev pub older : B.Repo → Option Text → Option (List Text)
  older r none = some []
  older r (some p) = V.history r p

  -- Every commit of a list is there.
  abbrev pub AllThere : B.Repo → List Text → Type 0
  AllThere r [] = Unit
  AllThere r (c ∷ cs) = (V.is_commit r c ≡ true) × AllThere r cs

  -- A value that a compare-and-swap expects is a commit's identity.
  abbrev pub Known : B.Repo → Option Text → Type 0
  Known r old = (v : Text) → old ≡ some v → V.is_commit r v ≡ true

  -- The behaviour of git that the engine relies on, where a call succeeds. Commands take revisions;
  -- here a revision is the full name of a branch, or the identity of a commit that is there. A tree
  -- is of one file, whose name is made of letters.
  pub record IsGit : Type 0 where
    pub heads :
        (n c : Text) (r : B.Repo)
        → V.IsPlain r
        → IsBranch n
        → V.ref r n ≡ some c
        → V.is_commit r c ≡ true
    pub listed : (r : B.Repo) (c : Text) (l : List Text) → V.history r c ≡ some l → AllThere r l
    pub write_blob-ok :
        (b : Bytes) (r s : B.Repo) (o : Text)
        → B.write_blob b r ≡ (ok o, s)
        → Quiet r s × (V.blob s o ≡ some b)
    pub write_tree-ok :
        (p o : Text) (b : Bytes) (r s : B.Repo) (t : Text)
        → IsName p
        → V.blob r o ≡ some b
        → B.write_tree ((p, o) ∷ []) r ≡ (ok t, s)
        → Quiet r s × (V.tree s t ≡ some ((p, o) ∷ []))
    pub commit_tree-ok :
        (t m : Text) (tip : Option Text) (r s : B.Repo) (c : Text)
        → B.commit_tree t (parents tip) m r ≡ (ok c, s)
        → Quiet r s
          × ((l : List Text) → older r tip ≡ some l → V.history s c ≡ some (c ∷ l))
          × ((es : List (Text × Text)) (p o : Text) (b : Bytes)
              → V.tree r t ≡ some es
              → get p es ≡ some o
              → V.blob r o ≡ some b
              → V.file s c p ≡ some b)
    pub read_ref-ok :
        (n : Text) (r s : B.Repo) (o : Option Text)
        → V.IsPlain r
        → IsBranch n
        → B.read_ref n r ≡ (ok o, s)
        → Quiet r s × (V.ref r n ≡ o)
    pub rev_list-ok :
        (c : Text) (r s : B.Repo) (l : List Text)
        → V.is_commit r c ≡ true
        → B.rev_list c r ≡ (ok l, s)
        → Quiet r s × (V.history r c ≡ some l)
    pub read_blob_at-ok :
        (c p : Text) (r s : B.Repo) (b : Bytes)
        → V.is_commit r c ≡ true
        → B.read_blob_at c p r ≡ (ok b, s)
        → Quiet r s × (V.file r c p ≡ some b)
    pub cas_ref-won :
        (n new : Text) (old : Option Text) (r s : B.Repo)
        → V.IsPlain r
        → IsBranch n
        → V.is_commit r new ≡ true
        → Known r old
        → B.cas_ref n new old r ≡ (ok true, s)
        → Grows r s
          × (V.ref r n ≡ old)
          × (V.ref s n ≡ some new)
          × ((k : Text) → k ≢ n → V.ref s k ≡ V.ref r k)
    pub cas_ref-lost :
        (n new : Text) (old : Option Text) (r s : B.Repo)
        → B.cas_ref n new old r ≡ (ok false, s)
        → Quiet r s

  -- The behaviour of git that the orphan sweep relies on: only a deletion changes a ref, its own.
  pub record DeletesOne : Type 0 where
    pub list_refs-ok :
        (p : Text) (r s : B.Repo) (l : List (Text × Text))
        → B.list_refs p r ≡ (ok l, s)
        → (k : Text) → V.ref s k ≡ V.ref r k
    pub commit_time-ok :
        (n : Text) (r s : B.Repo) (t : ℤ)
        → B.commit_time n r ≡ (ok t, s)
        → (k : Text) → V.ref s k ≡ V.ref r k
    pub delete_ref-ok :
        (n : Text) (r s : B.Repo) (u : Unit {0})
        → B.delete_ref n r ≡ (ok u, s)
        → (k : Text) → k ≢ n
        → V.ref s k ≡ V.ref r k

  pub Grows-refl : (r : B.Repo) → Grows r r
  Grows-refl r = record {
    blobs = λ o b h. h;
    trees = λ o es h. h;
    commits = λ o h. h;
    histories = λ o l h. h;
    files = λ o p b h. h;
    plain = λ h. h;
  }

  pub Grows-trans : {r s t : B.Repo} → Grows r s → Grows s t → Grows r t
  Grows-trans g h = record {
    blobs = λ o b e. h.blobs o b (g.blobs o b e);
    trees = λ o es e. h.trees o es (g.trees o es e);
    commits = λ o e. h.commits o (g.commits o e);
    histories = λ o l e. h.histories o l (g.histories o l e);
    files = λ o p b e. h.files o p b (g.files o p b e);
    plain = λ p. h.plain (g.plain p);
  }

  pub Quiet-refl : (r : B.Repo) → Quiet r r
  Quiet-refl r = record { grows = Grows-refl r; refs = λ n. refl }

  pub Quiet-trans : {r s t : B.Repo} → Quiet r s → Quiet s t → Quiet r t
  Quiet-trans g h = record { grows = Grows-trans g.grows h.grows; refs = λ n. h.refs n ∙ g.refs n }
