-- ===== src/Engine/Commit/Reading.antt =====
-- A state that was loaded is what its tip stands for, and loading changes no ref.
use git_storage.Prelude.{true, ◌≡◌, refl, ap, sym, ◌∙◌, Option, none, some, List, [], ◌∷◌, length}
use git_storage.Prelude.Text.{Text, codes}
use git_storage.Prelude.Result.{Result, Error, ok, ok_or, bad_payload}
use git_storage.Backend.{Backend}
use git_storage.Backend.Laws.{Views, Grows, Quiet, IsGit, Known, AllThere}
use git_storage.Crypto.Primitives.{Primitives}
use git_storage.Engine.Txn.{Txn, delta, checkpoint, compact, StoreState}
use git_storage.Engine.Replay.{Walk, walk, apply_tail, load_history}
use git_storage.Engine.Replay.Transparent.{IsChange}
use git_storage.Engine.Serde.{Serde}
use git_storage.Engine.Config.{Engine}
use git_storage.Engine.Monad.{World, pure, lift, bind-ok}
use git_storage.Engine.Load.{read_txn, walk_step, walk_commits, load_from}
use git_storage.Engine.Commit.{
  Holds, Reads, end, stop, more, Loads, Holds-Grows, Calm, Calm-refl, Calm-trans, on_index-ok,
}

abbrev pub loaded : Walk → StoreState
loaded w =
    let (namespace, index) = apply_tail w.tail (w.base, w.seg_index) in
    record { namespace = namespace; seg_index = index; since_checkpoint = length w.tail }

pub loaded-walk : (w : Walk) (ts : List Txn) → w ≡ walk ts → loaded w ≡ load_history ts
unfolding load_history
loaded-walk w ts e = ap loaded e

module _ {B : Backend} where
  pub lift-ok {ℓ} :
      {A : Type ℓ} (r : Result A) (w v : World B) (a : A)
      → lift r w ≡ (ok a, v)
      → (r ≡ ok a) × (v ≡ w)
  unfolding lift
  lift-ok r w v a h = (λ i. (h i).0, sym (λ i. (h i).1))

  pub pure-ok {ℓ} :
      {A : Type ℓ} (b : A) (w v : World B) (a : A) → pure b w ≡ (ok a, v) → (a ≡ b) × (v ≡ w)
  unfolding pure
  pure-ok b w v a h = let e : ok b ≡ ok a = λ i. (h i).0 in (cc, sym (λ i. (h i).1))

pub ok_or-ok {ℓ} : {A : Type ℓ} (o : Option A) (e : Error) (a : A) → ok_or o e ≡ ok a → o ≡ some a
ok_or-ok none e a h = cc
ok_or-ok (some b) e a h = cc

module _ {B : Backend} (V : Views B) where
  pub AllThere-Grows :
      {r s : B.Repo} (cs : List Text) → Grows V r s → AllThere V r cs → AllThere V s cs
  AllThere-Grows [] g a = tt
  AllThere-Grows (c ∷ cs) g (h, rest) = (g.commits c h, AllThere-Grows cs g rest)

  pub Calm-on_index :
      (w v : World B)
      → Quiet V w.disks.index v.disks.index
      → v.disks.volumes ≡ w.disks.volumes
      → v.rivals ≡ w.rivals
      → Calm V w v
  Calm-on_index w v q e f = record { quiet = q; volumes = e; rivals = f }

module _ (P : Primitives) (S : Serde) {B : Backend} (V : Views B) (engine : Engine)
    (git : IsGit V) where
  read_txn-Holds :
      (c : Text) (t : Txn) (w v : World B)
      → V.is_commit w.disks.index c ≡ true
      → read_txn P S engine c w ≡ (ok t, v)
      → Calm V w v × Holds P S V engine v.disks.index c t
  unfolding read_txn
  read_txn-Holds c t w v there h =
      let (sealed, v₁, e₁, h₁) = bind-ok _ _ w h in
      let (plain, v₂, e₂, h₂) = bind-ok _ _ v₁ h₁ in
      let (call, vols, rivals) = on_index-ok V _ w v₁ sealed e₁ in
      let (quiet, stored) =
        git.read_blob_at-ok c (codes "txn") w.disks.index v₁.disks.index sealed there call in
      let (opened, same₂) = lift-ok _ v₁ v₂ plain e₂ in
      let (decoded, same) = lift-ok _ v₂ v t h₂ in
      let at_end : v ≡ v₁ = same ∙ same₂ in
      rw at_end (
        Calm-on_index V w v₁ quiet vols rivals,
        Holds-Grows P S V engine quiet.grows (record {
          sealed = sealed;
          plain = plain;
          stored = stored;
          opened = opened;
          decoded = ok_or-ok _ bad_payload t decoded;
        }),
      )

  -- What the walk over commits found.
  record Walked (w v : World B) (cs : List Text) (found : Walk) : Type 0 where
    calm : Calm V w v
    txns : List Txn
    read : Reads P S V engine v.disks.index cs txns
    same : found ≡ walk txns

  walk_more :
      (c : Text) (cs : List Text) (t : Txn) (w u v : World B) (rest : Walk)
      → Calm V w u
      → Holds P S V engine u.disks.index c t
      → IsChange t
      → Walked u v cs rest
      → Walked w v (c ∷ cs) (record rest { tail = t ∷ rest.tail })
  unfolding walk
  walk_more c cs (checkpoint n s) w u v rest calm holds change r = absurd change
  walk_more c cs (delta p d s) w u v rest calm holds change r = record {
    calm = Calm-trans V calm r.calm;
    txns = delta p d s ∷ r.txns;
    read = more (Holds-Grows P S V engine r.calm.quiet.grows holds) tt r.read;
    same = rw r.same refl;
  }
  walk_more c cs (compact d s p) w u v rest calm holds change r = record {
    calm = Calm-trans V calm r.calm;
    txns = compact d s p ∷ r.txns;
    read = more (Holds-Grows P S V engine r.calm.quiet.grows holds) tt r.read;
    same = rw r.same refl;
  }

  abbrev WalksTo : List Text → World B → World B → Walk → Type 0
  WalksTo cs w v found =
      AllThere V w.disks.index cs
      → walk_commits P S engine cs w ≡ (ok found, v)
      → Walked w v cs found

  walk_step-Walked :
      (c : Text) (cs : List Text) (t : Txn) (w u v : World B) (found : Walk)
      → ((x : World B) (rest : Walk) → WalksTo cs u x rest)
      → AllThere V u.disks.index cs
      → Calm V w u
      → Holds P S V engine u.disks.index c t
      → walk_step P S engine t (walk_commits P S engine cs) u ≡ (ok found, v)
      → Walked w v (c ∷ cs) found
  unfolding walk_step
  walk_step-Walked c cs (checkpoint n s) w u v found walks there calm holds h =
      let (e, same) = pure-ok _ u v found h in
      rw (e, same)
        (record {
          calm = calm;
          txns = checkpoint n s ∷ [];
          read = stop holds (λ x. x);
          same = unfold walk in refl;
        })
  walk_step-Walked c cs (delta p d s) w u v found walks there calm holds h =
      let (rest, x, e, h₁) = bind-ok _ _ u h in
      let (made, same) = pure-ok _ x v found h₁ in
      rw (made, same) (walk_more c cs (delta p d s) w u x rest calm holds tt (walks x rest there e))
  walk_step-Walked c cs (compact d s p) w u v found walks there calm holds h =
      let (rest, x, e, h₁) = bind-ok _ _ u h in
      let (made, same) = pure-ok _ x v found h₁ in
      rw (made, same)
        (walk_more c cs (compact d s p) w u x rest calm holds tt (walks x rest there e))

  walk_commits-Walked : (cs : List Text) (w v : World B) (found : Walk) → WalksTo cs w v found
  unfolding walk_commits
  walk_commits-Walked [] w v found there h =
      let (e, same) = pure-ok _ w v found h in
      rw (e, same)
        (record { calm = Calm-refl V w; txns = []; read = end; same = unfold walk in refl })
  walk_commits-Walked (c ∷ cs) w v found (at_c, there) h =
      let (t, u, e₁, h₁) = bind-ok _ _ w h in
      let (calm, holds) = read_txn-Holds c t w u at_c e₁ in
      walk_step-Walked c cs t w u v found (walk_commits-Walked cs u)
        (AllThere-Grows V cs calm.quiet.grows there) calm holds h₁

  -- What is loaded from a tip is what the tip stands for.
  pub load_from-Loads :
      (tip : Option Text) (w v : World B) (state : StoreState)
      → Known V w.disks.index tip
      → load_from P S engine tip w ≡ (ok state, v)
      → Calm V w v × Loads P S V engine v.disks.index tip state
  unfolding load_from
  load_from-Loads none w v state known h =
      let (e, same) = pure-ok _ w v state h in
      rw (e, same)
        (
          Calm-refl V w,
          record {
            commits = [];
            txns = [];
            listed = refl;
            read = end;
            built = unfold load_history walk apply_tail in refl;
          },
        )
  load_from-Loads (some tip) w v state known h =
      let (cs, u, e₁, h₁) = bind-ok _ _ w h in
      let (found, x, e₂, h₂) = bind-ok _ _ u h₁ in
      let (call, vols, rivals) = on_index-ok V _ w u cs e₁ in
      let (quiet, listed) =
        git.rev_list-ok tip w.disks.index u.disks.index cs (known tip refl) call in
      let there = AllThere-Grows V cs quiet.grows (git.listed w.disks.index tip cs listed) in
      let r = walk_commits-Walked cs u x found there e₂ in
      let (e, same) = pure-ok _ x v state h₂ in
      rw (e, same)
        (
          Calm-trans V (Calm-on_index V w u quiet vols rivals) r.calm,
          record {
            commits = cs;
            txns = r.txns;
            listed = r.calm.quiet.grows.histories tip cs (quiet.grows.histories tip cs listed);
            read = r.read;
            built = loaded-walk found r.txns r.same;
          },
        )
