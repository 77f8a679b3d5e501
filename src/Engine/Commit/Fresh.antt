-- ===== src/Engine/Commit/Fresh.antt =====
-- What a writer knows of the log after it read the tip and loaded the state.
use git_storage.Prelude.{◌≡◌, refl, ◌∙◌, inl, inr, Option, none, some}
use git_storage.Prelude.Text.{Text}
use git_storage.Prelude.Result.{ok}
use git_storage.Backend.{Backend}
use git_storage.Backend.Laws.{Views, IsGit, Known}
use git_storage.Crypto.Primitives.{Primitives}
use git_storage.Engine.Txn.{StoreState}
use git_storage.Engine.Serde.{Serde}
use git_storage.Engine.Config.{Engine}
use git_storage.Engine.Monad.{World, bind-ok}
use git_storage.Engine.Load.{log_ref, log_ref-IsBranch, log_tip, load_from, load_full_state}
use git_storage.Engine.Commit.{
  Steady, RivalsOnly, RivalsOnly-trans, RivalsOnly-Onward, Calm-RivalsOnly, here, Moment, Loads,
  on_index-ok, meanwhile-RivalsOnly,
}
use git_storage.Engine.Commit.Reading.{load_from-Loads, Calm-on_index}
use git_storage.Engine.Commit.Landing.{Fresh, Fresh-since}

module _ {B : Backend} (V : Views B) (git : IsGit V) where
  pub log_tip-ok :
      (w v : World B) (tip : Option Text)
      → Steady V w
      → log_tip w ≡ (ok tip, v)
      → RivalsOnly V w v × (V.ref v.disks.index log_ref ≡ tip)
  unfolding log_tip
  log_tip-ok w v tip g h =
      let (x, u, e₁, h₁) = bind-ok _ _ w h in
      let first = meanwhile-RivalsOnly V w u x e₁ in
      let (plain, _) = (RivalsOnly-Onward V g first).steady g in
      let (call, vols, rivals) = on_index-ok V _ u v tip h₁ in
      let (quiet, at_tip) =
        git.read_ref-ok log_ref u.disks.index v.disks.index tip plain log_ref-IsBranch call in
      (
        RivalsOnly-trans V first (Calm-RivalsOnly V (Calm-on_index V u v quiet vols rivals)),
        quiet.refs log_ref ∙ at_tip,
      )

  -- The tip of a steady log is a commit.
  pub tip-Known :
      (w : World B) (tip : Option Text)
      → Steady V w
      → V.ref w.disks.index log_ref ≡ tip
      → Known V w.disks.index tip
  tip-Known w tip (plain, _) at c e =
      git.heads log_ref c w.disks.index plain log_ref-IsBranch (at ∙ e)

module _ (P : Primitives) (S : Serde) {B : Backend} (V : Views B) (engine : Engine)
    (git : IsGit V) where
  pub load_from-Moment :
      (w v : World B) (tip : Option Text) (old : StoreState)
      → Steady V w
      → V.ref w.disks.index log_ref ≡ tip
      → load_from P S engine tip w ≡ (ok old, v)
      → RivalsOnly V w v
        × Moment V w v tip
        × Loads P S V engine v.disks.index tip old
        × (V.ref v.disks.index log_ref ≡ tip)
  load_from-Moment w v tip old g at h =
      let (calm, loads) =
        load_from-Loads P S V engine git tip w v old (tip-Known V git w tip g at) h in
      let on = Calm-RivalsOnly V calm in
      (
        on,
        record { at = w; since = here; tip_is = at; after = on },
        loads,
        calm.quiet.refs log_ref ∙ at,
      )

  read_again :
      (w v : World B) (read : Option Text) (old : StoreState)
      → Steady V w
      → V.ref w.disks.index log_ref ≡ read
      → load_from P S engine read w ≡ (ok old, v)
      → RivalsOnly V w v × Fresh P S V engine w v none old
  read_again w v none old g at h =
      let (on, moment, loads, _) = load_from-Moment w v none old g at h in
      (
        on,
        record {
          read_tip = none;
          loads = loads;
          current = inl refl;
          moment = moment;
          known = λ c e. cc;
        },
      )
  read_again w v (some tip) old g at h =
      let (on, moment, loads, is_some) = load_from-Moment w v (some tip) old g at h in
      (
        on,
        record {
          read_tip = some tip;
          loads = loads;
          current = inr (refl, λ e. cc (is_some, e));
          moment = moment;
          known = λ c e. cc;
        },
      )

  pub load_full_state-Fresh :
      (tip : Option Text) (w v : World B) (old : StoreState)
      → Steady V w
      → V.ref w.disks.index log_ref ≡ tip
      → load_full_state P S engine tip w ≡ (ok old, v)
      → RivalsOnly V w v × Fresh P S V engine w v tip old
  unfolding load_full_state
  load_full_state-Fresh none w v old g at h =
      let (read, u, e₁, h₁) = bind-ok _ _ w h in
      let (first, at₁) = log_tip-ok V git w u read g e₁ in
      let g₁ = (RivalsOnly-Onward V g first).steady g in
      let (second, fresh) = read_again u v read old g₁ at₁ h₁ in
      (RivalsOnly-trans V first second, Fresh-since P S V engine first fresh)
  load_full_state-Fresh (some tip) w v old g at h =
      let (on, moment, loads, _) = load_from-Moment w v (some tip) old g at h in
      let on_v = RivalsOnly-Onward V g on in
      (
        on,
        record {
          read_tip = some tip;
          loads = loads;
          current = inl refl;
          moment = moment;
          known = λ c e. on_v.grows.commits c (tip-Known V git w (some tip) g at c e);
        },
      )
