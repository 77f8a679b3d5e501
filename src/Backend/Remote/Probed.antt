-- ===== src/Backend/Remote/Probed.antt =====
-- The capability of a remote is probed once (src/backend.rs).
use git_storage.Prelude.{
  ◌≡◌, refl, ap, ◌∙◌, Bool, true, false, some, inl, inr, Bool-cases, List, [], ◌∷◌, if◌then◌else◌,
}
use mathlib.Core.Path.{subst}
use git_storage.Prelude.Text.{Text, codes}
use git_storage.Prelude.Result.{Result, ok, err, git_failed}
use git_storage.Process.{Machine, Output, Sys, pure, fail, view, continue, ◌>>=◌, ◌>>◌, change, try}
use git_storage.Process.Steps.{Steps, IsPreorder, Steps-pure, Steps-fail, Steps-bind}
use git_storage.Backend.Remote.Retry.{net_git_retrying}
use git_storage.Backend.Remote.{
  RemoteBackend, Remote, Promisor, unknown, supported, unsupported, promisor_of, code_of,
  promisor_supported, on_backend, net, succeeded, fetch_ref_filtered, refspec, store_promisor,
  verdict, probe, ensure_promisor_probe,
}

module _ {X : Machine} where
  -- The fields of the backend stay.
  abbrev Same : Remote X → Remote X → Type 0
  Same s t = t.backend ≡ s.backend

  Same-IsPreorder : IsPreorder Same
  Same-IsPreorder = record { same = λ s. refl; after = λ h k. k ∙ h }

  on_backend-Same : {A : Type 0} (f : RemoteBackend → Sys X A) → Steps Same (on_backend f)
  unfolding on_backend
  on_backend-Same f s = refl

  either-Same : (b : Bool) → Steps Same (if b then pure (tt {0}) else fail git_failed)
  either-Same true = Steps-pure Same-IsPreorder (tt {0})
  either-Same false = Steps-fail Same-IsPreorder (Unit {0}) git_failed

  succeeded-Same : (out : Output) → Steps Same (succeeded out)
  unfolding succeeded
  succeeded-Same out = either-Same out.success

  sent-Same : (args : RemoteBackend → List Text) → Steps Same (net args >>= succeeded)
  unfolding net
  sent-Same args =
      Steps-bind Same-IsPreorder (net args) succeeded
        (on_backend-Same (λ b. net_git_retrying b.mirror_dir b.url (args b))) succeeded-Same

  fetch-Same : (refname : Text) → Steps Same (fetch_ref_filtered refname)
  unfolding fetch_ref_filtered
  fetch-Same refname = sent-Same (λ b.
      codes "fetch" ∷ codes "--quiet" ∷ codes "--filter=blob:none" ∷ b.url ∷ refspec refname ∷ [])

  -- A verdict is there, and a later call only repeats it.
  abbrev pub Decided : Text → Result Bool × Remote X → Type 0
  Decided later (r, t) =
      (v : Bool) × (r ≡ ok v)
      × (promisor_supported t.backend ≡ some v)
      × (ensure_promisor_probe later t ≡ (ok v, t))

  verdict-Decided :
      (later : Text) (r : Result (Unit {0})) (s : Remote X)
      → s.backend.force_full_fetch ≡ false
      → Decided later (verdict r s)
  unfolding verdict ensure_promisor_probe ◌>>=◌ continue view store_promisor change pure probe
      promisor_supported promisor_of code_of
  verdict-Decided later (ok _) s h = (true, refl, refl, rw h refl)
  verdict-Decided later (err _) s h = (false, refl, refl, rw h refl)

  forced-Decided :
      (later : Text) (s : Remote X)
      → s.backend.force_full_fetch ≡ true
      → Decided later ((store_promisor unsupported >> pure false) s)
  unfolding ensure_promisor_probe ◌>>=◌ continue view store_promisor change pure promisor_supported
      promisor_of code_of
  forced-Decided later s h = (false, refl, refl, rw h refl)

  probe-Decided :
      (refname later : Text) (p : Promisor) (s : Remote X)
      → s.backend.force_full_fetch ≡ false
      → promisor_of s.backend.promisor ≡ p
      → Decided later (probe refname p s)
  unfolding probe ensure_promisor_probe ◌>>=◌ continue view pure promisor_supported try
  probe-Decided refname later supported s h e = (true, refl, rw e refl, rw (h, e) refl)
  probe-Decided refname later unsupported s h e = (false, refl, rw e refl, rw (h, e) refl)
  probe-Decided refname later unknown s h e =
      let fetched = fetch_ref_filtered refname s in
      verdict-Decided later fetched.0 fetched.1
        (ap (λ b. b.force_full_fetch) (fetch-Same refname s) ∙ h)

  ensure-forced :
      (refname : Text) (s : Remote X)
      → s.backend.force_full_fetch ≡ true
      → (store_promisor unsupported >> pure false) s ≡ ensure_promisor_probe refname s
  unfolding ensure_promisor_probe ◌>>=◌ continue view
  ensure-forced refname s h = rw h refl

  ensure-probed :
      (refname : Text) (s : Remote X)
      → s.backend.force_full_fetch ≡ false
      → probe refname (promisor_of s.backend.promisor) s ≡ ensure_promisor_probe refname s
  unfolding ensure_promisor_probe ◌>>=◌ continue view
  ensure-probed refname s h = rw h refl

  -- Whether a filtered fetch can be used is decided by the first call that asks, which never fails;
  -- any later call repeats the verdict and neither runs a command nor changes the state.
  pub ensure_promisor_probe-Decided :
      (refname later : Text) (s : Remote X) → Decided later (ensure_promisor_probe refname s)
  ensure_promisor_probe-Decided refname later s = elim (Bool-cases s.backend.force_full_fetch) [
    | inl h ↦ subst (Decided later) (ensure-forced refname s h) (forced-Decided later s h)
    | inr h ↦
        subst (Decided later) (ensure-probed refname s h)
          (probe-Decided refname later (promisor_of s.backend.promisor) s h refl)
  ]
