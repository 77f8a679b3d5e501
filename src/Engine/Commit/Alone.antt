-- ===== src/Engine/Commit/Alone.antt =====
-- The actions of a commit loop (src/engine.rs) where no other process goes on and git answers.
use git_storage.Prelude.{ℕ, ◌+◌, ◌≡◌, refl, ap, ◌∙◌, Option, none, some, List, [], ◌∷◌, true, arith}
use git_storage.Prelude.Text.{Bytes, Text, codes}
use git_storage.Prelude.Result.{Result, ok}
use git_storage.Backend.{Backend}
use git_storage.Backend.Laws.{IsName, Views, IsBranch, Quiet, Quiet-refl, IsGit, older, parents}
use git_storage.Engine.Monad.{
  World, M, pure, lift, on_index, meanwhile, maybe_crash, continue, draw, fill_bytes, ◌>>=◌,
}
use git_storage.Engine.Load.{log_ref, log_ref-IsBranch, log_tip}
use git_storage.Engine.Commit.{Calm, Calm-refl, Calm-trans}

-- No other process takes a step, and no crash is asked for.
abbrev pub Alone : {B : Backend} → World B → Type 0
Alone w = (w.rivals ≡ []) × (w.env (codes "GITSTORAGE_CRASH") ≡ none)

-- Where git is not disturbed, it answers: it finds what is there, stores what refers to objects that
-- are there, and replaces a ref that has the expected value by a commit that is there.
pub record Answers {B : Backend} (V : Views B) : Type 0 where
  pub read_ref :
      (n : Text) (r : B.Repo)
      → V.IsPlain r
      → IsBranch n
      → (s : B.Repo) × (B.read_ref n r ≡ (ok (V.ref r n), s))
  pub rev_list :
      (c : Text) (r : B.Repo) (l : List Text)
      → V.is_commit r c ≡ true
      → V.history r c ≡ some l
      → (s : B.Repo) × (B.rev_list c r ≡ (ok l, s))
  pub read_blob_at :
      (c p : Text) (r : B.Repo) (b : Bytes)
      → V.is_commit r c ≡ true
      → V.file r c p ≡ some b
      → (s : B.Repo) × (B.read_blob_at c p r ≡ (ok b, s))
  pub write_blob :
      (b : Bytes) (r : B.Repo) → (o : Text) × (s : B.Repo) × (B.write_blob b r ≡ (ok o, s))
  pub write_tree :
      (p o : Text) (r : B.Repo) (b : Bytes)
      → IsName p
      → V.blob r o ≡ some b
      → (t : Text) × (s : B.Repo) × (B.write_tree ((p, o) ∷ []) r ≡ (ok t, s))
  pub commit_tree :
      (t m : Text) (tip : Option Text) (r : B.Repo) (es : List (Text × Text)) (l : List Text)
      → IsName m
      → V.tree r t ≡ some es
      → older V r tip ≡ some l
      → (c : Text) × (s : B.Repo) × (B.commit_tree t (parents tip) m r ≡ (ok c, s))
  pub cas_ref :
      (n new : Text) (r : B.Repo)
      → V.IsPlain r
      → IsBranch n
      → V.is_commit r new ≡ true
      → (s : B.Repo) × (B.cas_ref n new (V.ref r n) r ≡ (ok true, s))

module _ {B : Backend} where
  pub bind-runs :
      {A C : Type 0} (m : M B A) (f : A → M B C) (w v : World B) (a : A)
      → m w ≡ (ok a, v)
      → (m >>= f) w ≡ f a v
  unfolding ◌>>=◌ continue
  bind-runs m f w v a e = ap (λ p. continue p.0 f p.1) e

  -- The world after a call on the index repository.
  abbrev pub with_index : World B → B.Repo → World B
  with_index w s = record w { disks = record { index = s; volumes = w.disks.volumes } }

  pub on_index-runs :
      {A : Type 0} (f : B.Repo → Result A × B.Repo) (w : World B) (a : A) (s : B.Repo)
      → f w.disks.index ≡ (ok a, s)
      → on_index f w ≡ (ok a, with_index w s)
  unfolding on_index
  on_index-runs f w a s e = ap (λ p. (p.0, with_index w p.1)) e

  pub maybe_crash-runs : (point : Text) (w : World B) → Alone w → maybe_crash point w ≡ (ok tt, w)
  unfolding maybe_crash
  maybe_crash-runs point w (_, e) = ground arith

  pub meanwhile-runs : (w : World B) → Alone w → meanwhile w ≡ (ok tt, w)
  unfolding meanwhile
  meanwhile-runs w (e, _) = rw e refl

module _ {B : Backend} (V : Views B) where
  -- The action returns this value, moves no ref of the index and leaves the process alone.
  pub record Goes {A : Type 0} (m : M B A) (w : World B) (a : A) : Type 0 where
    pub to : World B
    pub runs : m w ≡ (ok a, to)
    pub calm : Calm V w to
    pub alone : Alone to

  pub Goes-bind :
      {A C : Type 0} (m : M B A) (f : A → M B C) (w : World B) (a : A) (c : C)
      → Goes m w a
      → ((v : World B) → Calm V w v → Alone v → Goes (f a) v c)
      → Goes (m >>= f) w c
  Goes-bind m f w a c g further =
      let k = further g.to g.calm g.alone in
      record {
        to = k.to;
        runs = bind-runs m f w g.to a g.runs ∙ k.runs;
        calm = Calm-trans V g.calm k.calm;
        alone = k.alone;
      }

  pub Goes-here :
      {A : Type 0} (m : M B A) (w : World B) (a : A) → Alone w → m w ≡ (ok a, w) → Goes m w a
  Goes-here m w a alone e = record { to = w; runs = e; calm = Calm-refl V w; alone = alone }

  pub pure-Goes : {A : Type 0} (w : World B) (a : A) → Alone w → Goes (pure a) w a
  unfolding pure
  pure-Goes w a alone = Goes-here _ w a alone refl

  pub lift-Goes :
      {A : Type 0} (r : Result A) (w : World B) (a : A) → Alone w → r ≡ ok a → Goes (lift r) w a
  unfolding lift
  lift-Goes r w a alone e = Goes-here _ w a alone (ap (λ x. (x, w)) e)

  pub on_index-Goes :
      {A : Type 0} (f : B.Repo → Result A × B.Repo) (w : World B) (a : A) (s : B.Repo)
      → Alone w
      → f w.disks.index ≡ (ok a, s)
      → Quiet V w.disks.index s
      → Goes (on_index f) w a
  on_index-Goes f w a s alone e q = record {
    to = with_index w s;
    runs = on_index-runs f w a s e;
    calm = record { quiet = q; volumes = refl; rivals = refl };
    alone = alone;
  }

  pub fill_bytes-Goes :
      (n : ℕ) (w : World B) → Alone w → Goes (fill_bytes n) w (draw n w.drawn w.random)
  unfolding fill_bytes
  fill_bytes-Goes n w alone = record {
    to = record w { drawn = w.drawn + n };
    runs = refl;
    calm = record { quiet = Quiet-refl V w.disks.index; volumes = refl; rivals = refl };
    alone = alone;
  }

  -- The tip is read as it is.
  pub log_tip-Goes :
      (git : IsGit V) (answers : Answers V) (w : World B) (tip : Option Text)
      → Alone w
      → V.IsPlain w.disks.index
      → V.ref w.disks.index log_ref ≡ tip
      → Goes log_tip w tip
  unfolding log_tip
  log_tip-Goes git answers w tip alone plain e =
      Goes-bind meanwhile (λ _. on_index (B.read_ref log_ref)) w tt tip
        (Goes-here meanwhile w tt alone (meanwhile-runs w alone))
        (λ v calm alone₁.
          let (s, call) =
            answers.read_ref log_ref v.disks.index (calm.quiet.grows.plain plain)
              log_ref-IsBranch in
          let (quiet, _) =
            git.read_ref-ok log_ref v.disks.index s _ (calm.quiet.grows.plain plain)
              log_ref-IsBranch call in
          let at : V.ref v.disks.index log_ref ≡ tip = calm.quiet.refs log_ref ∙ e in
          on_index-Goes (B.read_ref log_ref) v tip s alone₁ (rw at at call) quiet)

  -- The action returns some value in that way.
  abbrev pub Ends : {A : Type 0} → M B A → World B → Type 0
  Ends {A} m w = (a : A) × Goes m w a

  pub Ends-bind :
      {A C : Type 0} (m : M B A) (f : A → M B C) (w : World B) (a : A)
      → Goes m w a
      → ((v : World B) → Calm V w v → Alone v → Ends (f a) v)
      → Ends (m >>= f) w
  Ends-bind m f w a g further =
      let (c, k) = further g.to g.calm g.alone in
      (
        c,
        record {
          to = k.to;
          runs = bind-runs m f w g.to a g.runs ∙ k.runs;
          calm = Calm-trans V g.calm k.calm;
          alone = k.alone;
        },
      )
