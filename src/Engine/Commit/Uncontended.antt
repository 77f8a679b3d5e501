-- ===== src/Engine/Commit/Uncontended.antt =====
-- The commit loops of `put` and `remove` (src/engine.rs) where no other process goes on.
use git_storage.Prelude.{
  ℕ, suc, ◌≡◌, ◌≢◌, refl, ap, ◌∙◌, Bool, true, false, not, Option, none, some, List, [], ◌∷◌,
  Bool-cases, inl, inr, if◌then◌else◌,
}
use git_storage.Prelude.Text.{Text, codes}
use git_storage.Prelude.Result.{ok, err, no_such_file}
use git_storage.Map.{get, contains_key}
use git_storage.Map.Order.{text_ord}
use git_storage.Backend.{Backend}
use git_storage.Backend.Laws.{IsName, Views, IsGit, Grows-refl}
use git_storage.Crypto.Primitives.{Primitives, IsSound}
use git_storage.Manifest.{Manifest}
use git_storage.Engine.Txn.{Txn, delta, SegRec, StoreState}
use git_storage.Engine.Serde.{Serde, IsFaithful}
use git_storage.Engine.Config.{Engine}
use git_storage.Engine.Monad.{World, M, pure, fail, on_index, meanwhile, maybe_crash, ◌>>=◌, ◌>>◌}
use git_storage.Engine.Load.{log_ref, log_ref-IsBranch, log_tip, load_full_state, build_commit}
use git_storage.Engine.Put.{
  holds, checkpoint_due, put_txn, max_cas_retries, kind_of, commit_put, put_loop,
}
use git_storage.Engine.Remove.{remove_txn, commit_remove, remove_loop, remove_file}
use git_storage.Engine.Commit.{Calm, Calm-trans, Calm-RivalsOnly, Loads, Loads-Grows}
use git_storage.Engine.Commit.Writing.{build_commit-Holds}
use git_storage.Engine.Commit.Outcome.{holds-eq, holds_self, put_txn-Logs, remove_txn-Logs}
use git_storage.Engine.Commit.Append.{Logs}
use git_storage.Engine.Commit.Landing.{Landed, Landed-since, landed}
use git_storage.Engine.Replay.Transparent.{IsChange}
use git_storage.Engine.Commit.Alone.{
  Alone, Answers, log_tip-Goes, bind-runs, with_index, on_index-runs, maybe_crash-runs,
  meanwhile-runs,
}
use git_storage.Engine.Commit.Returns.{
  Writes, load_now-Goes, load_full_state-Goes, build_commit-Ends,
}

kind_of-IsName : (due : Bool) → IsName (kind_of due)
kind_of-IsName true = refl
kind_of-IsName false = refl

module _ (P : Primitives) (S : Serde) {B : Backend} (V : Views B) (engine : Engine) where
  -- By whether a put says that it committed: the state that the log stood for does not have the
  -- manifest, and the change is on that state; or it has, and no ref moved.
  abbrev pub PutEnds : Manifest → List SegRec → StoreState → World B → Bool → World B → Type 0
  PutEnds m seals old w true v =
      (get m.name old.namespace ≢ some m) × Landed P S V engine w v (delta (some m) none seals) old
  PutEnds m seals old w false v = (get m.name old.namespace ≡ some m) × Calm V w v

  -- What a removal answers and does, by whether the name was there.
  abbrev pub RemoveEnds : Text → StoreState → Bool → World B → Type 0
  RemoveEnds name old true w =
      (v : World B) × (remove_file P S engine name w ≡ (ok tt, v))
      × Landed P S V engine w v (delta none (some name) []) old
  RemoveEnds name old false w =
      (v : World B) × (remove_file P S engine name w ≡ (err no_such_file, v)) × Calm V w v

  module _ (sound : IsSound P) (faithful : IsFaithful S) (git : IsGit V) (answers : Answers V) where
    abbrev tip_of : World B → Option Text
    tip_of w = V.ref w.disks.index log_ref

    -- The tip of the log, and what it stands for, are read.
    read-runs :
        {A : Type 0} (tip : Option Text) (f : Option Text → StoreState → M B A) (w : World B)
        (old : StoreState)
        → Alone w
        → V.IsPlain w.disks.index
        → tip_of w ≡ tip
        → Loads P S V engine w.disks.index tip old
        → (u : World B) × Alone u
          × Calm V w u
          × ((log_tip >>= λ tip. load_full_state P S engine tip >>= f tip) w ≡ f tip old u)
    read-runs tip f w old alone plain at loads =
        let first = log_tip-Goes V git answers w tip alone plain at in
        let v = first.to in
        let second =
          load_full_state-Goes P S V engine git answers tip v old first.alone
            (first.calm.quiet.grows.plain plain) (first.calm.quiet.refs log_ref ∙ at)
            (Loads-Grows P S V engine first.calm.quiet.grows loads) in
        (
          second.to,
          second.alone,
          Calm-trans V first.calm second.calm,
          bind-runs _ _ w v tip first.runs ∙ bind-runs _ (f tip) v second.to old second.runs,
        )

    -- The swap at the end of a round is won, and puts the change on the state that was read.
    swap-runs :
        {A : Type 0} (txn change : Txn) (tip : Option Text) (kind point : Text) (f : Bool → M B A)
        (w : World B) (old : StoreState)
        → Alone w
        → IsName kind
        → V.IsPlain w.disks.index
        → tip_of w ≡ tip
        → Loads P S V engine w.disks.index tip old
        → IsChange change
        → Logs txn change old
        → Writes P S V engine txn
        → (u : World B) × Alone u
          × Landed P S V engine w u change old
          × ((build_commit P S engine txn tip kind >>= λ commit.
                  maybe_crash point
                  >> (meanwhile >> (on_index (B.cas_ref log_ref commit tip) >>= f)))
                w
              ≡ f true u)
    swap-runs txn change tip kind point f w old alone letters plain at l is_change logs writes =
        let (c, built) =
          build_commit-Ends P S V engine git answers txn tip kind w l.commits alone letters writes
            l.listed in
        let v = built.to in
        let r = v.disks.index in
        let (calm, history, holds) =
          build_commit-Holds P S V engine sound faithful git txn tip kind w v c built.runs in
        let past = history l.commits l.listed in
        let (there, _) = git.listed r c (c ∷ l.commits) past in
        let plain_v = calm.quiet.grows.plain plain in
        let (s, won) = answers.cas_ref log_ref c r plain_v log_ref-IsBranch there in
        let at_v : tip_of v ≡ tip = calm.quiet.refs log_ref ∙ at in
        (
          with_index v s,
          built.alone,
          record {
            at = v;
            since = Calm-RivalsOnly V calm;
            appends =
                landed P S V engine sound faithful git w.disks.index r r s tip c txn change old l
                  calm.quiet.grows holds past is_change logs (Grows-refl V r) plain_v
                  (λ x e. git.heads log_ref x r plain_v log_ref-IsBranch (at_v ∙ e))
                  (rw at_v at won);
          },
          bind-runs _ _ w v c built.runs
              ∙ (bind-runs _ _ v v tt (maybe_crash-runs point v built.alone)
                  ∙ (bind-runs _ _ v v tt (meanwhile-runs v built.alone)
                      ∙ bind-runs _ f v (with_index v s) true
                          (on_index-runs _ v true s (rw at_v at won)))),
        )

    -- With sound crates, a faithful serializer, a git that behaves as it documents and answers every
    -- call on what is there, an index whose refs are plain, no other process and no crash: the commit
    -- loop of a put with at least one attempt left returns, where the log stands for a state and the
    -- transaction on that state can be written. It says that it committed exactly where the state
    -- does not hold the manifest; then the process moved no ref but the tip of the log, which was
    -- replaced by one that stands for that very state with the manifest under its name and the seals
    -- in its index. Else the state has the manifest, and no ref moved.
    pub put_loop-PutEnds :
        (attempts : ℕ) (m : Manifest) (seals : List SegRec) (w : World B) (old : StoreState)
        → Alone w
        → V.IsPlain w.disks.index
        → Loads P S V engine w.disks.index (V.ref w.disks.index log_ref) old
        → Writes P S V engine
            (put_txn old m.name m seals (checkpoint_due old engine.config.checkpoint_interval))
        → let said = not (holds (get m.name old.namespace) m) in
          (v : World B) × (put_loop P S engine (suc attempts) m.name m seals w ≡ (ok said, v))
          × PutEnds m seals old w said v
    unfolding put_loop commit_put pure
    put_loop-PutEnds attempts m seals w old alone plain loads writes =
        let tip = tip_of w in
        let again = put_loop P S engine attempts m.name m seals in
        let (u, alone_u, calm, read) =
          read-runs tip (commit_put P S engine again m.name m seals) w old alone plain refl loads in
        elim (Bool-cases (holds (get m.name old.namespace) m)) [
          | inl there ↦ rw there (u, read ∙ rw there refl, (holds-eq _ m there, calm))
          | inr absent ↦
              let due = checkpoint_due old engine.config.checkpoint_interval in
              let (v, alone_v, appends, swapped) =
                swap-runs (put_txn old m.name m seals due) (delta (some m) none seals) tip
                  (kind_of due) (codes "before-cas")
                  (λ won. if won then maybe_crash (codes "after-cas") >> pure true else again) u old
                  alone_u (kind_of-IsName due) (calm.quiet.grows.plain plain)
                  (calm.quiet.refs log_ref) (Loads-Grows P S V engine calm.quiet.grows loads) tt
                  (put_txn-Logs old m seals due) writes in
              rw absent (
                v,
                read
                    ∙ rw absent (
                        swapped
                        ∙ bind-runs _ (λ _. pure true) v v tt
                            (maybe_crash-runs (codes "after-cas") v alone_v)),
                (
                  λ e. cc (ap (λ o. holds o m) e, absent, holds_self m),
                  Landed-since P S V engine (Calm-RivalsOnly V calm) appends,
                ),
              )
        ]

    remove-runs :
        (attempts : ℕ) (name : Text) (w : World B) (old : StoreState)
        → Alone w
        → V.IsPlain w.disks.index
        → Loads P S V engine w.disks.index (tip_of w) old
        → contains_key name old.namespace ≡ true
        → Writes P S V engine
            (remove_txn old name (checkpoint_due old engine.config.checkpoint_interval))
        → (v : World B) × (remove_loop P S engine (suc attempts) name w ≡ (ok tt, v))
          × Landed P S V engine w v (delta none (some name) []) old
    unfolding remove_loop commit_remove
    remove-runs attempts name w old alone plain loads there writes =
        let tip = tip_of w in
        let again = remove_loop P S engine attempts name in
        let (u, alone_u, calm, read) =
          read-runs tip (commit_remove P S engine again name) w old alone plain refl loads in
        let due = checkpoint_due old engine.config.checkpoint_interval in
        let (v, alone_v, appends, swapped) =
          swap-runs (remove_txn old name due) (delta none (some name) []) tip (kind_of due)
            (codes "before-cas") (λ won. if won then maybe_crash (codes "after-cas") else again) u
            old alone_u (kind_of-IsName due) (calm.quiet.grows.plain plain)
            (calm.quiet.refs log_ref) (Loads-Grows P S V engine calm.quiet.grows loads) tt
            (remove_txn-Logs old name due) writes in
        (
          v,
          read ∙ rw there (swapped ∙ maybe_crash-runs (codes "after-cas") v alone_v),
          Landed-since P S V engine (Calm-RivalsOnly V calm) appends,
        )

    -- With sound crates, a faithful serializer, a git that behaves as it documents and answers every
    -- call on what is there, an index whose refs are plain, no other process and no crash: where the
    -- log stands for a state, and the transaction of the removal on that state can be written, the
    -- removal of a file returns. If the state has the name, it succeeds, and the process moved no ref
    -- but the tip of the log, which was replaced by one that stands for that very state without the
    -- name; if not, it fails with the error that there is no such file, and no ref of the index moved.
    pub remove_file-RemoveEnds :
        (name : Text) (w : World B) (old : StoreState)
        → Alone w
        → V.IsPlain w.disks.index
        → Loads P S V engine w.disks.index (V.ref w.disks.index log_ref) old
        → Writes P S V engine
            (remove_txn old name (checkpoint_due old engine.config.checkpoint_interval))
        → RemoveEnds name old (contains_key name old.namespace) w
    unfolding remove_file fail
    remove_file-RemoveEnds name w old alone plain loads writes =
        let tip = tip_of w in
        let first = load_now-Goes P S V engine git answers tip w old alone plain refl loads in
        let u = first.to in
        let at_u : tip_of u ≡ tip = first.calm.quiet.refs log_ref in
        let loads_u = Loads-Grows P S V engine first.calm.quiet.grows loads in
        let started =
          bind-runs (load_full_state P S engine none)
            (λ state.
              if contains_key name state.namespace
              then remove_loop P S engine max_cas_retries name
              else fail no_such_file)
            w u old first.runs in
        elim (Bool-cases (contains_key name old.namespace)) [
          | inl there ↦
              let (v, runs, appends) =
                remove-runs 31 name u old first.alone (first.calm.quiet.grows.plain plain)
                  (rw at_u loads_u) there writes in
              rw there (
                v,
                started ∙ rw there runs,
                Landed-since P S V engine (Calm-RivalsOnly V first.calm) appends,
              )
          | inr absent ↦ rw absent (u, started ∙ rw absent refl, first.calm)
        ]
