-- ===== src/Engine/Commit/Outcome.antt =====
-- The commit loops of `put`, `remove` and `compact_one` of src/engine.rs, where they return.
use git_storage.Prelude.{
  ℕ, zero, suc, ◌≡◌, refl, ap, inl, inr, Bool, true, false, not, ◌&&◌, Option, none, some, List, [],
  ◌∷◌, Bool-cases, Option-cases, if◌then◌else◌, arith,
}
use git_storage.Prelude.Text.{Text, codes}
use git_storage.Prelude.Result.{ok, err, cas_exhausted}
use git_storage.Map.{get, contains_key, values}
use git_storage.Map.Order.{text_ord}
use git_storage.Backend.{Backend}
use git_storage.Backend.Laws.{Views, IsGit}
use git_storage.Crypto.Primitives.{Primitives, IsSound}
use git_storage.Manifest.{Manifest, eq_of_same_manifest, same_manifest_refl}
use git_storage.Engine.Txn.{
  Namespace, delta, compact, SegRec, StoreState, insert_seals, put_opt, remove_opt, apply_txn,
}
use git_storage.Engine.Serde.{Serde, IsFaithful}
use git_storage.Engine.Config.{Engine}
use git_storage.Engine.Monad.{World, M, pure, fail, maybe_crash, ◌>>=◌, ◌>>◌, bind-ok}
use git_storage.Engine.Put.{holds, checkpoint_due, put_txn, commit_put, put_loop}
use git_storage.Engine.Remove.{remove_txn, commit_remove, remove_loop}
use git_storage.Engine.Repoint.{IdSet, build_repoint, any_touches, has_segments}
use git_storage.Engine.Compact.{commit_repoint, commit_round, commit_compaction}
use git_storage.Engine.Load.{log_tip, load_full_state}
use git_storage.Engine.Commit.{
  Steady, RivalsOnly, RivalsOnly-trans, RivalsOnly-Onward, here, maybe_crash-same,
}
use git_storage.Engine.Commit.Append.{Logs}
use git_storage.Engine.Commit.Landing.{Fresh, Fresh-since, try_cas}
use git_storage.Engine.Commit.Fresh.{log_tip-ok, load_full_state-Fresh}
use git_storage.Engine.Commit.Done.{
  PutDone, RemoveDone, CompactDone, PutDone-since, RemoveDone-since, CompactDone-since,
}
use git_storage.Engine.Commit.Reading.{pure-ok}

pub holds-eq : (o : Option Manifest) (m : Manifest) → holds o m ≡ true → o ≡ some m
unfolding holds
holds-eq none m h = cc
holds-eq (some n) m h = ap some (eq_of_same_manifest n m h)

pub holds_self : (m : Manifest) → holds (some m) m ≡ true
unfolding holds
holds_self m = same_manifest_refl m

pub put_txn-Logs :
    (state : StoreState) (m : Manifest) (seals : List SegRec) (due : Bool)
    → Logs (put_txn state m.name m seals due) (delta (some m) none seals) state
unfolding put_txn apply_txn put_opt remove_opt
put_txn-Logs state m seals true = inr refl
put_txn-Logs state m seals false = inl refl

pub remove_txn-Logs :
    (state : StoreState) (name : Text) (due : Bool)
    → Logs (remove_txn state name due) (delta none (some name) []) state
unfolding remove_txn apply_txn put_opt remove_opt insert_seals
remove_txn-Logs state name true = inr refl
remove_txn-Logs state name false = inl refl

get_of_missing : (name : Text) (ns : Namespace) → contains_key name ns ≡ false → get name ns ≡ none
unfolding contains_key
get_of_missing name ns h = ground arith

module _ (P : Primitives) (S : Serde) {B : Backend} (V : Views B) (engine : Engine) where
  -- What follows on the compare-and-swap of a round that says whether it committed.
  module _ (point : Text) (again : M B Bool) where
    after_cas :
        (won : Bool) (u v : World B) (said : Bool) (Goal : Bool → World B → Type 0)
        → (if won then maybe_crash point >> pure true else again) u ≡ (ok said, v)
        → (won ≡ true → Goal true u)
        → (won ≡ false → again u ≡ (ok said, v) → Goal said v)
        → Goal said v
    after_cas true u v said Goal h on_win on_loss =
        let (x, x_at, e₁, h₁) = bind-ok _ _ u h in
        let (is, same) = pure-ok _ x_at v said h₁ in
        rw (is, same, maybe_crash-same V point u x_at x e₁) (on_win refl)
    after_cas false u v said Goal h on_win on_loss = on_loss refl h

  after_crash :
      (point : Text) (again : M B (Unit {0})) (won : Bool) (u v : World B) (x : Unit {0})
      (Goal : World B → Type 0)
      → (if won then maybe_crash point else again) u ≡ (ok x, v)
      → (won ≡ true → Goal u)
      → (won ≡ false → again u ≡ (ok x, v) → Goal v)
      → Goal v
  after_crash point again true u v x Goal h on_win on_loss =
      rw (maybe_crash-same V point u v x h) (on_win refl)
  after_crash point again false u v x Goal h on_win on_loss = on_loss refl h

  module _ (sound : IsSound P) (faithful : IsFaithful S) (git : IsGit V) where
    -- The start of a round: the tip of the log and what it stands for.
    round-Fresh :
        {A : Type 0} (f : Option Text → StoreState → M B A) (w v : World B) (a : A)
        → Steady V w
        → (log_tip >>= λ tip. load_full_state P S engine tip >>= f tip) w ≡ (ok a, v)
        → (tip : Option Text) × (old : StoreState) × (u : World B) × (f tip old u ≡ (ok a, v))
          × RivalsOnly V w u
          × Steady V u
          × Fresh P S V engine w u tip old
    round-Fresh f w v a g h =
        let (tip, w₁, e₁, h₁) = bind-ok _ _ w h in
        let (old, w₂, e₂, h₂) = bind-ok _ _ w₁ h₁ in
        let (on₁, at) = log_tip-ok V git w w₁ tip g e₁ in
        let g₁ = (RivalsOnly-Onward V g on₁).steady g in
        let (on₂, fresh) = load_full_state-Fresh P S V engine git tip w₁ w₂ old g₁ at e₂ in
        (
          tip,
          old,
          w₂,
          h₂,
          RivalsOnly-trans V on₁ on₂,
          (RivalsOnly-Onward V g₁ on₂).steady g₁,
          Fresh-since P S V engine on₁ fresh,
        )

    -- With sound crates, a faithful serializer, a git that behaves as it documents, and a log whose
    -- refs are plain, which other processes leave so, only adding objects and never removing the log,
    -- at any time between the steps: where the commit loop of a put returns true, the process moved
    -- no ref but the tip of the log, which its swap replaced at a moment at which that tip stood for
    -- some state, keeping all objects and every other ref, and the new tip stands for that state
    -- with the manifest under its name and the seals in its index, be the commit a delta or a
    -- checkpoint. Where it returns false, the process moved no ref, and at some moment during the
    -- loop the tip that the log then had stood for a state that has the manifest.
    pub put_loop-PutDone :
        (attempts : ℕ) (m : Manifest) (seals : List SegRec) (w v : World B) (said : Bool)
        → Steady V w
        → put_loop P S engine attempts m.name m seals w ≡ (ok said, v)
        → PutDone P S V engine m seals w said v
    unfolding put_loop commit_put fail
    put_loop-PutDone zero m seals w v said g h =
        absurd (let e : err cas_exhausted ≡ ok said = λ i. (h i).0 in cc)
    put_loop-PutDone (suc attempts) m seals w v said g h =
        let again = put_loop P S engine attempts m.name m seals in
        let (tip, old, u, h₁, on, g₁, fresh) =
          round-Fresh (commit_put P S engine again m.name m seals) w v said g h in
        elim (Bool-cases (holds (get m.name old.namespace) m)) [
          | inl there ↦
              let (is, same) = pure-ok _ u v said (rw there at h₁) in
              rw (is, same)
                (record {
                  tip = fresh.read_tip;
                  state = old;
                  moment = fresh.moment;
                  loads = fresh.loads;
                  holds = holds-eq _ m there;
                })
          | inr absent ↦
              let (won, x, h₂, lands, lost) =
                try_cas P S V engine sound faithful git
                  (put_txn old m.name m seals
                    (checkpoint_due old engine.config.checkpoint_interval))
                  (delta (some m) none seals) tip _ (codes "before-cas") _ w u v said old g₁ fresh
                  tt (put_txn-Logs old m seals _) (rw absent at h₁) in
              PutDone-since P S V engine m seals w u v said on (
                after_cas (codes "after-cas") again won x v said
                  (λ said v. PutDone P S V engine m seals u said v) h₂
                  (λ is_won. (old, lands is_won))
                  (λ is_lost h₃. PutDone-since P S V engine m seals u x v said (lost is_lost) (
                    put_loop-PutDone attempts m seals x v said
                      ((RivalsOnly-Onward V {v = x} g₁ (lost is_lost)).steady g₁) h₃)))
        ]

    -- With sound crates, a faithful serializer, a git that behaves as it documents, and a log whose
    -- refs are plain, which other processes leave so, only adding objects and never removing the log,
    -- at any time between the steps: where the commit loop of a removal returns, either its swap
    -- replaced the tip of the log, and no other ref, at a moment at which that tip stood for some
    -- state, and the new tip stands for that state without the name, be the commit a delta or a
    -- checkpoint; or the process moved no ref, and at some moment during the loop the tip that the
    -- log then had stood for a state without the name.
    pub remove_loop-RemoveDone :
        (attempts : ℕ) (name : Text) (w v : World B) (x : Unit {0})
        → Steady V w
        → remove_loop P S engine attempts name w ≡ (ok x, v)
        → RemoveDone P S V engine name w v
    unfolding remove_loop commit_remove fail
    remove_loop-RemoveDone zero name w v x g h =
        absurd (let e : err cas_exhausted ≡ ok x = λ i. (h i).0 in cc)
    remove_loop-RemoveDone (suc attempts) name w v x g h =
        let again = remove_loop P S engine attempts name in
        let (tip, old, u, h₁, on, g₁, fresh) =
          round-Fresh (commit_remove P S engine again name) w v x g h in
        elim (Bool-cases (contains_key name old.namespace)) [
          | inr gone ↦
              let (_, same) = pure-ok _ u v x (rw gone at h₁) in
              rw same (
                inr (record {
                  tip = fresh.read_tip;
                  state = old;
                  moment = fresh.moment;
                  loads = fresh.loads;
                  holds = get_of_missing name old.namespace gone;
                }))
          | inl there ↦
              let (won, y, h₂, lands, lost) =
                try_cas P S V engine sound faithful git
                  (remove_txn old name (checkpoint_due old engine.config.checkpoint_interval))
                  (delta none (some name) []) tip _ (codes "before-cas") _ w u v x old g₁ fresh tt
                  (remove_txn-Logs old name _) (rw there at h₁) in
              RemoveDone-since P S V engine name w u v on (
                after_crash (codes "after-cas") again won y v x
                  (λ v. RemoveDone P S V engine name u v) h₂ (λ is_won. inl (old, lands is_won))
                  (λ is_lost h₃. RemoveDone-since P S V engine name u y v (lost is_lost) (
                    remove_loop-RemoveDone attempts name y v x
                      ((RivalsOnly-Onward V {v = y} g₁ (lost is_lost)).steady g₁) h₃)))
        ]

    pub commit_compaction-CompactDone :
        (attempts : ℕ) (retired dest seg : Text) (moved : IdSet) (seals : List SegRec)
        (w v : World B) (said : Bool)
        → Steady V w
        → commit_compaction P S engine attempts retired dest seg moved seals w ≡ (ok said, v)
        → CompactDone P S V engine retired dest seg moved seals w said v
    unfolding commit_compaction commit_round commit_repoint
    commit_compaction-CompactDone zero retired dest seg moved seals w v said g h =
        let (is, same) = pure-ok _ w v said h in rw (is, same) here
    commit_compaction-CompactDone (suc attempts) retired dest seg moved seals w v said g h =
        let again = commit_compaction P S engine attempts retired dest seg moved seals in
        let (tip, old, u, h₁, on, g₁, fresh) =
          round-Fresh (commit_round P S engine again retired dest seg moved seals) w v said g h in
        elim (Option-cases (build_repoint retired dest seg moved (values old.namespace))) [
          | inl left ↦
              let (is, same) = pure-ok _ u v said (rw (left, commit_repoint) at h₁) in
              rw (is, same) on
          | inr (repoint, built) ↦
              let h₃ = rw (built, commit_repoint) at h₁ in
              elim (Bool-cases (
                not (any_touches retired (values old.namespace))
                && not (has_segments retired old.seg_index))) [
                  | inl done ↦
                      let (is, same) = pure-ok _ u v said (rw done at h₃) in
                      rw (is, same)
                        (inr (record {
                          tip = fresh.read_tip;
                          state = old;
                          moment = fresh.moment;
                          loads = fresh.loads;
                          no_file = ground arith;
                          no_segment = ground arith;
                        }))
                  | inr due ↦
                      let (won, x, h₄, lands, lost) =
                        try_cas P S V engine sound faithful git
                          (compact (retired ∷ []) seals repoint)
                          (compact (retired ∷ []) seals repoint) tip _ (codes "compact-before-cas")
                          _ w u v said old g₁ fresh tt (inl refl) (rw due at h₃) in
                      CompactDone-since P S V engine retired dest seg moved seals w u v said on (
                        after_cas (codes "compact-after-cas") again won x v said
                          (λ said v. CompactDone P S V engine retired dest seg moved seals u said v)
                          h₄ (λ is_won. inl (old, repoint, built, lands is_won))
                          (λ is_lost h₅.
                            CompactDone-since P S V engine retired dest seg moved seals u x v said
                              (lost is_lost)
                              (commit_compaction-CompactDone attempts retired dest seg moved seals x
                                v said ((RivalsOnly-Onward V {v = x} g₁ (lost is_lost)).steady g₁)
                                h₅)))
                ]
        ]
