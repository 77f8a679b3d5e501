-- ===== src/Engine/Commit/Landing.antt =====
-- A compare-and-swap of the log that wins puts a change on the state that the log had at that moment.
use git_storage.Prelude.{
  ◌≡◌, ◌≢◌, refl, ap, sym, ◌∙◌, ◌⊎◌, inl, inr, Bool, true, false, Option, none, some, List, [], ◌∷◌,
}
use git_storage.Prelude.Text.{Text}
use git_storage.Prelude.Result.{ok}
use git_storage.Backend.{Backend}
use git_storage.Backend.Laws.{Views, Grows, Grows-trans, IsGit, Known, older}
use git_storage.Crypto.Primitives.{Primitives, IsSound}
use git_storage.Engine.Txn.{Txn, StoreState, apply_txn}
use git_storage.Engine.Replay.{load_history}
use git_storage.Engine.Replay.Transparent.{IsChange, folded}
use git_storage.Engine.Serde.{Serde, IsFaithful}
use git_storage.Engine.Config.{Engine}
use git_storage.Engine.Monad.{World, M, on_index, meanwhile, maybe_crash, ◌>>=◌, ◌>>◌, bind-ok}
use git_storage.Engine.Load.{log_ref, log_ref-IsBranch, build_commit}
use git_storage.Engine.Commit.{
  Holds, stop, more, Loads, Loads-Grows, Reads-Grows, Steady, Onward, on_index-ok, RivalsOnly,
  RivalsOnly-trans, RivalsOnly-Onward, Calm-RivalsOnly, calm_step, meanwhile-RivalsOnly,
  maybe_crash-same, Moment, Moment-since,
}
use git_storage.Engine.Commit.Append.{
  both, load_history-change, load_history-folded, apply_txn-IsSorted, load_history-IsSorted, Logs,
}
use git_storage.Engine.Commit.Reading.{Calm-on_index}
use git_storage.Engine.Commit.Writing.{build_commit-Holds}

module _ (P : Primitives) (S : Serde) {B : Backend} (V : Views B) (engine : Engine) where
  -- Between two states of the index repository nothing but the log's tip was replaced: the log stood
  -- for the state `old`, and the new tip stands for the changed state.
  pub record Appends (before after : B.Repo) (change : Txn) (old : StoreState) : Type 0 where
    pub tip : Option Text
    pub commit : Text
    pub new : StoreState
    pub was_at : V.ref before log_ref ≡ tip
    pub was : Loads P S V engine before tip old
    pub is_at : V.ref after log_ref ≡ some commit
    pub is_now : Loads P S V engine after (some commit) new
    pub effect : both new ≡ apply_txn change (both old)
    pub grows : Grows V before after
    pub others : (k : Text) → k ≢ log_ref → V.ref after k ≡ V.ref before k

  -- The process left the refs alone, and then put the change on the state that the log stood for.
  pub record Landed (w v : World B) (change : Txn) (old : StoreState) : Type 0 where
    pub at : World B
    pub since : RivalsOnly V w at
    pub appends : Appends at.disks.index v.disks.index change old

  pub Landed-since :
      {u w v : World B} {change : Txn} {old : StoreState}
      → RivalsOnly V u w
      → Landed w v change old
      → Landed u v change old
  Landed-since on l = record {
    at = l.at;
    since = RivalsOnly-trans V on l.since;
    appends = l.appends;
  }

  -- A state to put a change on, for a writer that read this tip: either the state of the tip, or of
  -- some later tip, where the log was empty at first and is no more. The log had the tip that was
  -- loaded at some moment since the first world.
  pub record Fresh (first w : World B) (tip : Option Text) (old : StoreState) : Type 0 where
    pub read_tip : Option Text
    pub loads : Loads P S V engine w.disks.index read_tip old
    pub current : (read_tip ≡ tip) ⊎ ((tip ≡ none) × (V.ref w.disks.index log_ref ≢ none))
    pub moment : Moment V first w read_tip
    pub known : Known V w.disks.index tip

  pub Fresh-since :
      {u first w : World B} {tip : Option Text} {old : StoreState}
      → RivalsOnly V u first
      → Fresh first w tip old
      → Fresh u w tip old
  Fresh-since on f = record {
    read_tip = f.read_tip;
    loads = f.loads;
    current = f.current;
    moment = Moment-since V on f.moment;
    known = f.known;
  }

  -- The state of a commit on top of a tip.
  stacked :
      (start r : B.Repo) (tip : Option Text) (c : Text) (txn change : Txn) (old : StoreState)
      → (l : Loads P S V engine start tip old) → Grows V start r
      → Holds P S V engine r c txn
      → V.history r c ≡ some (c ∷ l.commits)
      → IsChange change
      → Logs txn change old
      → (new : StoreState) × Loads P S V engine r (some c) new
        × (both new ≡ apply_txn change (both old))
  stacked start r tip c txn change old l g h past is_change (inl plain) = (
    load_history (change ∷ l.txns),
    record {
      commits = c ∷ l.commits;
      txns = change ∷ l.txns;
      listed = past;
      read = more (rw plain at h) is_change (Reads-Grows P S V engine g l.read);
      built = refl;
    },
    load_history-change change l.txns is_change ∙ ap (λ s. apply_txn change (both s)) (sym l.built),
  )
  stacked start r tip c txn change old l g h past is_change (inr folds) =
      let s = apply_txn change (both old) in
      (
        load_history (folded s ∷ []),
        record {
          commits = c ∷ l.commits;
          txns = folded s ∷ [];
          listed = past;
          read = stop (rw folds at h) (λ x. x);
          built = refl;
        },
        load_history-folded s
            (apply_txn-IsSorted change (both old) (rw l.built (load_history-IsSorted l.txns))),
      )

  module _ (sound : IsSound P) (faithful : IsFaithful S) (git : IsGit V) where
    pub landed :
        (start built r s : B.Repo) (tip : Option Text) (c : Text) (txn change : Txn)
        (old : StoreState)
        → (l : Loads P S V engine start tip old) → Grows V start built
        → Holds P S V engine built c txn
        → V.history built c ≡ some (c ∷ l.commits)
        → IsChange change
        → Logs txn change old
        → Grows V built r
        → V.IsPlain r
        → Known V r tip
        → B.cas_ref log_ref c tip r ≡ (ok true, s)
        → Appends r s change old
    landed start built r s tip c txn change old l began holds past is_change logs g plain known h =
        let (new, loads, effect) =
          stacked start built tip c txn change old l began holds past is_change logs in
        let (there, _) = git.listed built c (c ∷ l.commits) past in
        let (grows, was_at, is_at, others) =
          git.cas_ref-won log_ref c tip r s plain log_ref-IsBranch (g.commits c there) known h in
        record {
          tip = tip;
          commit = c;
          new = new;
          was_at = was_at;
          was = Loads-Grows P S V engine (Grows-trans V began g) l;
          is_at = is_at;
          is_now = Loads-Grows P S V engine (Grows-trans V g grows) loads;
          effect = effect;
          grows = grows;
          others = others;
        }

    -- A swap that is won found the tip that it expects, which is not there if the log is new.
    landed-Fresh :
        (w w₁ w₃ u : World B) (first : World B) (tip : Option Text) (c : Text) (txn change : Txn)
        (old : StoreState)
        → Fresh first w tip old
        → Onward V w w₃
        → Grows V w.disks.index w₁.disks.index
        → Grows V w₁.disks.index w₃.disks.index
        → Holds P S V engine w₁.disks.index c txn
        → ((l : List Text)
            → older V w.disks.index tip ≡ some l
            → V.history w₁.disks.index c ≡ some (c ∷ l))
        → IsChange change
        → Logs txn change old
        → Steady V w₃
        → B.cas_ref log_ref c tip w₃.disks.index ≡ (ok true, u.disks.index)
        → Appends w₃.disks.index u.disks.index change old
    landed-Fresh w w₁ w₃ u first tip c txn change old fresh on began further holds past is_change
          logs (plain, _) h =
        let known : Known V w₃.disks.index tip = λ v e. on.grows.commits v (fresh.known v e) in
        elim fresh.current [
          | inl same ↦
              let l : Loads P S V engine w.disks.index tip old = rw same at fresh.loads in
              landed w.disks.index w₁.disks.index w₃.disks.index u.disks.index tip c txn change old
                l began holds (past l.commits l.listed) is_change logs further plain known h
          | inr (empty, moved_on) ↦
              let history = past [] (ap (older V w.disks.index) empty) in
              let (there, _) = git.listed w₁.disks.index c (c ∷ []) history in
              let (_, was_at, _, _) =
                git.cas_ref-won log_ref c tip _ _ plain log_ref-IsBranch (further.commits c there)
                  known h in
              absurd (on.keeps moved_on (was_at ∙ empty))
        ]

    -- The end of a round of each commit loop: a swap that is won lands the change, and one that is
    -- lost leaves the refs alone.
    pub try_cas {ℓ} :
        {A : Type ℓ} (txn change : Txn) (tip : Option Text) (kind point : Text) (f : Bool → M B A)
        (first w v : World B) (a : A) (old : StoreState)
        → Steady V w
        → Fresh first w tip old
        → IsChange change
        → Logs txn change old
        → ((build_commit P S engine txn tip kind >>= λ commit.
                maybe_crash point >> (meanwhile >> (on_index (B.cas_ref log_ref commit tip) >>= f)))
              w
            ≡ (ok a, v))
        → (won : Bool) × (u : World B) × (f won u ≡ (ok a, v))
          × ((won ≡ true) → Landed w u change old)
          × ((won ≡ false) → RivalsOnly V w u)
    try_cas txn change tip kind point f first w v a old g fresh is_change logs h =
        let (c, w₁, e₁, h₁) = bind-ok _ _ w h in
        let (x₂, w₂, e₂, h₂) = bind-ok _ _ w₁ h₁ in
        let (x₃, w₃, e₃, h₃) = bind-ok _ _ w₂ h₂ in
        let (won, u, e₄, h₄) = bind-ok _ _ w₃ h₃ in
        let (calm, past, holds) =
          build_commit-Holds P S V engine sound faithful git txn tip kind w w₁ c e₁ in
        let alive = maybe_crash-same V point w₁ w₂ x₂ e₂ in
        let began = Calm-RivalsOnly V calm in
        let further : RivalsOnly V w₁ w₃ = rw alive at (meanwhile-RivalsOnly V w₂ w₃ x₃ e₃) in
        let waited = RivalsOnly-trans V began further in
        let g₁ = (RivalsOnly-Onward V g began).steady g in
        let on = RivalsOnly-Onward V g waited in
        let (call, vols, rivals) = on_index-ok V _ w₃ u won e₄ in
        (
          won,
          u,
          h₄,
          λ is_won. record {
            at = w₃;
            since = waited;
            appends =
                landed-Fresh w w₁ w₃ u first tip c txn change old fresh on calm.quiet.grows
                  (RivalsOnly-Onward V g₁ further).grows holds past is_change logs (on.steady g)
                  (rw is_won at call);
          },
          λ is_lost. calm_step waited (
              Calm-on_index V w₃ u (git.cas_ref-lost log_ref c tip _ _ (rw is_lost at call)) vols
                rivals),
        )
