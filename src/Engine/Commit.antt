-- ===== src/Engine/Commit.antt =====
-- What the log of a repository says, by its objects alone, and what the steps of a commit do to it.
pub mod Reading
pub mod Writing
pub mod Append
pub mod Landing
pub mod Fresh
pub mod Done
pub mod Outcome
pub mod Reclaim
pub mod Alone
pub mod Returns
pub mod Uncontended
use git_storage.Prelude.{
  ℕ, ◌≡◌, ◌≢◌, refl, ◌∙◌, ap, sym, Option, none, some, List, [], ◌∷◌, Bool, true, false, arith,
}
use mathlib.Core.Path.{subst}
use git_storage.Prelude.Int.{ℤ}
use git_storage.Prelude.Text.{Bytes, Text, codes}
use git_storage.Prelude.Result.{Result, ok}
use git_storage.Backend.{Backend}
use git_storage.Backend.Laws.{
  Views, Grows, Quiet, Quiet-refl, Quiet-trans, Grows-trans, Grows-refl, older,
}
use git_storage.Crypto.Primitives.{Primitives}
use git_storage.Crypto.Keys.{open_manifest}
use git_storage.Engine.Txn.{Txn, delta, checkpoint, compact, StoreState, empty_state}
use git_storage.Engine.Replay.{load_history}
use git_storage.Engine.Replay.Transparent.{IsChange}
use git_storage.Engine.Serde.{Serde}
use git_storage.Engine.Config.{Engine}
use git_storage.Engine.Load.{log_ref}
use git_storage.Engine.Monad.{Disks, World, M, on_index, meanwhile, maybe_crash}

module _ (P : Primitives) (S : Serde) {B : Backend} (V : Views B) (engine : Engine) where
  -- The commit holds this transaction.
  pub record Holds (r : B.Repo) (c : Text) (t : Txn) : Type 0 where
    pub sealed : Bytes
    pub plain : Bytes
    pub stored : V.file r c (codes "txn") ≡ some sealed
    pub opened : open_manifest P engine.keys sealed ≡ ok plain
    pub decoded : S.from_slice plain ≡ some t

  -- The transactions of commits, newest first, as far as the newest checkpoint.
  pub data Reads (r : B.Repo) : List Text → List Txn → Type 0 where
    end : Reads r [] []
    stop :
        {c : Text} {cs : List Text} {ns : Txn}
        → Holds r c ns
        → ¬ IsChange ns
        → Reads r (c ∷ cs) (ns ∷ [])
    more :
        {c : Text} {cs : List Text} {t : Txn} {ts : List Txn}
        → Holds r c t
        → IsChange t
        → Reads r cs ts
        → Reads r (c ∷ cs) (t ∷ ts)

  -- The store state that the log has at a tip.
  pub record Loads (r : B.Repo) (tip : Option Text) (state : StoreState) : Type 0 where
    pub commits : List Text
    pub txns : List Txn
    pub listed : older V r tip ≡ some commits
    pub read : Reads r commits txns
    pub built : state ≡ load_history txns

  pub Holds-Grows : {r s : B.Repo} {c : Text} {t : Txn} → Grows V r s → Holds r c t → Holds s c t
  Holds-Grows g h = record {
    sealed = h.sealed;
    plain = h.plain;
    stored = g.files _ _ _ h.stored;
    opened = h.opened;
    decoded = h.decoded;
  }

  pub Reads-Grows :
      {r s : B.Repo} {cs : List Text} {ts : List Txn} → Grows V r s → Reads r cs ts → Reads s cs ts
  Reads-Grows g end = end
  Reads-Grows g (stop h n) = stop (Holds-Grows g h) n
  Reads-Grows g (more h n rest) = more (Holds-Grows g h) n (Reads-Grows g rest)

  pub older-Grows :
      {r s : B.Repo} (tip : Option Text) (l : List Text)
      → Grows V r s
      → older V r tip ≡ some l
      → older V s tip ≡ some l
  older-Grows none l g h = h
  older-Grows (some c) l g h = g.histories c l h

  -- What a tip stands for does not change while objects are added.
  pub Loads-Grows :
      {r s : B.Repo} {tip : Option Text} {state : StoreState}
      → Grows V r s
      → Loads r tip state
      → Loads s tip state
  Loads-Grows {tip} g l = record {
    commits = l.commits;
    txns = l.txns;
    listed = older-Grows tip l.commits g l.listed;
    read = Reads-Grows g l.read;
    built = l.built;
  }

-- What other processes do to the index repository adds objects, and may move the log but not end it.
abbrev pub RivalsGrow : {B : Backend} → Views B → List (Disks B → Disks B) → Type 0
RivalsGrow V [] = Unit
RivalsGrow {B} V (step ∷ rest) =
    ((d : Disks B)
      → Grows V d.index (step d).index
        × (V.ref d.index log_ref ≢ none → V.ref (step d).index log_ref ≢ none))
    × RivalsGrow V rest

-- The index is plain, and stays so while other processes go on.
abbrev pub Steady : {B : Backend} → Views B → World B → Type 0
Steady V w = V.IsPlain w.disks.index × RivalsGrow V w.rivals

module _ {B : Backend} (V : Views B) where
  abbrev world :
      Disks B → List (Disks B → Disks B) → (ℕ → ℕ) → ℕ → ℤ → (Text → Option Text) → World B
  world disks rivals random drawn now env = record {
    disks = disks;
    rivals = rivals;
    random = random;
    drawn = drawn;
    now = now;
    env = env;
  }

  -- A step of the engine that adds objects to the index and moves no ref of it.
  pub record Calm (w v : World B) : Type 0 where
    pub quiet : Quiet V w.disks.index v.disks.index
    pub volumes : v.disks.volumes ≡ w.disks.volumes
    pub rivals : v.rivals ≡ w.rivals

  pub Calm-refl : (w : World B) → Calm w w
  Calm-refl w = record { quiet = Quiet-refl V w.disks.index; volumes = refl; rivals = refl }

  pub Calm-trans : {u v w : World B} → Calm u v → Calm v w → Calm u w
  Calm-trans a b = record {
    quiet = Quiet-trans V a.quiet b.quiet;
    volumes = b.volumes ∙ a.volumes;
    rivals = b.rivals ∙ a.rivals;
  }

  -- A step in which other processes went on as well.
  pub record Onward (w v : World B) : Type 0 where
    pub grows : Grows V w.disks.index v.disks.index
    pub keeps : V.ref w.disks.index log_ref ≢ none → V.ref v.disks.index log_ref ≢ none
    pub steady : Steady V w → Steady V v

  pub Calm-Onward : {w v : World B} → Calm w v → Onward w v
  Calm-Onward c = record {
    grows = c.quiet.grows;
    keeps = λ some_tip. rw (c.quiet.refs log_ref) some_tip;
    steady = λ (p, g). (c.quiet.grows.plain p, rw c.rivals g);
  }

  pub Onward-trans : {u v w : World B} → Onward u v → Onward v w → Onward u w
  Onward-trans a b = record {
    grows = Grows-trans V a.grows b.grows;
    keeps = λ h. b.keeps (a.keeps h);
    steady = λ g. b.steady (a.steady g);
  }

  pub on_index-ok {ℓ} :
      {A : Type ℓ} (f : B.Repo → Result A × B.Repo) (w v : World B) (a : A)
      → on_index f w ≡ (ok a, v)
      → (f w.disks.index ≡ (ok a, v.disks.index))
        × (v.disks.volumes ≡ w.disks.volumes)
        × (v.rivals ≡ w.rivals)
  unfolding on_index
  on_index-ok f w v a h = (
    λ i. ((h i).0, (h i).1.disks.index),
    sym (ap (λ p. p.1.disks.volumes) h),
    sym (ap (λ p. p.1.rivals) h),
  )

  -- Between two worlds the process moved no ref of the index and touched no volume: all else are
  -- the steps of other processes, in their order.
  pub data RivalsOnly (w : World B) : World B → Type 0 where
    here : RivalsOnly w w
    calm_step : {u v : World B} → RivalsOnly w u → Calm u v → RivalsOnly w v
    rival_step :
        {u v : World B} (step : Disks B → Disks B) (rest : List (Disks B → Disks B))
        → RivalsOnly w u
        → u.rivals ≡ step ∷ rest
        → v ≡ record u { disks = step u.disks; rivals = rest }
        → RivalsOnly w v

  pub RivalsOnly-trans : {u v w : World B} → RivalsOnly u v → RivalsOnly v w → RivalsOnly u w
  RivalsOnly-trans a here = a
  RivalsOnly-trans a (calm_step b c) = calm_step (RivalsOnly-trans a b) c
  RivalsOnly-trans a (rival_step step rest b e f) = rival_step step rest (RivalsOnly-trans a b) e f

  pub Calm-RivalsOnly : {w v : World B} → Calm w v → RivalsOnly w v
  Calm-RivalsOnly c = calm_step here c

  rival-Onward :
      (u v : World B) (step : Disks B → Disks B) (rest : List (Disks B → Disks B))
      → Steady V u
      → u.rivals ≡ step ∷ rest
      → v ≡ record u { disks = step u.disks; rivals = rest }
      → Onward u v
  rival-Onward u v step rest (p, g) e f =
      let (grows_u, keeps_u) = (rw e at g).0 u.disks in
      subst (Onward u) (sym f) (record {
        grows = grows_u;
        keeps = keeps_u;
        steady = λ _. (grows_u.plain p, (rw e at g).1);
      })

  pub RivalsOnly-Onward : {w v : World B} → Steady V w → RivalsOnly w v → Onward w v
  RivalsOnly-Onward {w} g here = Calm-Onward (Calm-refl w)
  RivalsOnly-Onward g (calm_step r c) = Onward-trans (RivalsOnly-Onward g r) (Calm-Onward c)
  RivalsOnly-Onward {v} g (rival_step {u = u} step rest r e f) =
      let on = RivalsOnly-Onward g r in
      Onward-trans on (rival-Onward u v step rest (on.steady g) e f)

  meanwhile_step :
      (disks : Disks B) (rivals : List (Disks B → Disks B)) (random : ℕ → ℕ) (drawn : ℕ) (now : ℤ)
      (env : Text → Option Text)
      → let w = world disks rivals random drawn now env in RivalsOnly w (meanwhile w).1
  unfolding meanwhile
  meanwhile_step disks [] random drawn now env = here
  meanwhile_step disks (step ∷ rest) random drawn now env = rival_step step rest here refl refl

  pub meanwhile-RivalsOnly :
      (w v : World B) (u : Unit {0}) → meanwhile w ≡ (ok u, v) → RivalsOnly w v
  meanwhile-RivalsOnly w v u h =
      subst (λ x. RivalsOnly w x) (λ i. (h i).1)
        (meanwhile_step w.disks w.rivals w.random w.drawn w.now w.env)

  -- A moment between two worlds, at which the log had this tip.
  pub record Moment (w v : World B) (tip : Option Text) : Type 0 where
    pub at : World B
    pub since : RivalsOnly w at
    pub tip_is : V.ref at.disks.index log_ref ≡ tip
    pub after : RivalsOnly at v

  pub Moment-since :
      {u w v : World B} {tip : Option Text} → RivalsOnly u w → Moment w v tip → Moment u v tip
  Moment-since on m = record {
    at = m.at;
    since = RivalsOnly-trans on m.since;
    tip_is = m.tip_is;
    after = m.after;
  }

  pub maybe_crash-same :
      (point : Text) (w v : World B) (u : Unit {0}) → maybe_crash point w ≡ (ok u, v) → v ≡ w
  unfolding maybe_crash
  maybe_crash-same point w v u h = ground arith
