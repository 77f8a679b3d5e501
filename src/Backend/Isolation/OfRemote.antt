-- ===== src/Backend/Isolation/OfRemote.antt =====
-- The network operations of `RemoteBackend` (src/backend.rs) are isolated.
use git_storage.Prelude.{
  ℕ, zero, suc, ◌+◌, ◌-◌, Bool, true, false, Option, none, some, List, ltb, ◌==◌, if◌then◌else◌,
}
use git_storage.Prelude.Text.{Text}
use git_storage.Prelude.Result.{Result, ok, err, git_failed, out_of_fuel}
use git_storage.Process.{
  Machine, Act, Output, Sys, pure, fail, try, view, ◌>>=◌, ◌>>◌, change, sleep,
}
use git_storage.Process.Steps.{
  Steps, IsPreorder, Steps-pure, Steps-fail, Steps-view, Steps-try, Steps-bind,
}
use git_storage.Gitrepo.{Bare}
use git_storage.Backend.Remote.Retry.{
  retry, pause, back_off, is_final, net_git_retrying, max_rate_limit_retries,
}
use git_storage.Backend.Remote.{
  RemoteBackend, Remote, Promisor, unknown, supported, unsupported, on_backend, on_mirror, net,
  succeeded, wait_from, note_push, throttle, fetch_ref_filtered, store_promisor, verdict, probe,
  ensure_promisor_probe, promisor_of,
}
use git_storage.Backend.Network.{net_git}
use git_storage.Backend.Isolation.{Holds, OnMachine}
use git_storage.Backend.Isolation.Commands
use git_storage.Backend.Isolation.OfBare

-- The relation, on the machines of two remotes.
abbrev pub OnRemote : {X : Machine} → (X.State → X.State → Type 0) → Remote X → Remote X → Type 0
OnRemote R s t = R s.running.machine t.running.machine

module _ {X : Machine} {R : X.State → X.State → Type 0} (H : Holds X R) where
  pub OnRemote-IsPreorder : IsPreorder (OnRemote {X = X} R)
  OnRemote-IsPreorder = record {
    same = λ s. H.preorder.same s.running.machine;
    after = λ h k. H.preorder.after h k;
  }

  pause-Steps : (attempt : ℕ) → Steps (OnMachine R) (pause {X = X} attempt)
  unfolding pause
  pause-Steps attempt =
      let P = Commands.OnMachine-IsPreorder H in
      Steps-bind P (view (λ s. X.subsec_nanos s.machine)) (λ nanos. sleep (back_off nanos attempt))
        (Steps-view P (λ s. X.subsec_nanos s.machine))
        (λ nanos. Commands.sleep-Steps H (back_off nanos attempt))

  retry-Steps :
      (run : Sys X Output) (rounds attempt : ℕ)
      → Steps (OnMachine R) run
      → Steps (OnMachine R) (retry run rounds attempt)
  unfolding retry
  retry-Steps run zero attempt h = Steps-fail (Commands.OnMachine-IsPreorder H) Output out_of_fuel
  retry-Steps run (suc rounds) attempt h =
      let P = Commands.OnMachine-IsPreorder H in
      let again = retry run rounds (attempt + 1) in
      Steps-bind P run (λ out. if is_final attempt out then pure out else pause attempt >> again) h
        (λ out.
          OfBare.choice-Steps H (is_final attempt out) (pure out) (pause attempt >> again)
            (Steps-pure P out)
            (Steps-bind P (pause attempt) (λ _. again) (pause-Steps attempt)
              (λ _. retry-Steps run rounds (attempt + 1) h)))

  -- A call of a process, at a remote.
  pub on_backend-Steps :
      {A : Type 0} (f : RemoteBackend → Sys X A)
      → ((b : RemoteBackend) → Steps (OnMachine R) (f b))
      → Steps (OnRemote R) (on_backend f)
  unfolding on_backend
  on_backend-Steps f h s = h s.backend s.running

  pub on_mirror-Steps :
      {A : Type 0} (f : Bare → Sys X A)
      → ((m : Bare) → Steps (OnMachine R) (f m))
      → Steps (OnRemote R) (on_mirror f)
  unfolding on_mirror
  on_mirror-Steps f h = on_backend-Steps (λ b. f b.mirror) (λ b. h b.mirror)

  pub net-Steps : (args : RemoteBackend → List Text) → Steps (OnRemote R) (net {X = X} args)
  unfolding net net_git_retrying
  net-Steps args =
      on_backend-Steps (λ b. net_git_retrying b.mirror_dir b.url (args b))
        (λ b.
          retry-Steps (net_git b.mirror_dir b.url (args b)) (max_rate_limit_retries + 1) 0
            (OfBare.net_git-Steps H b.mirror_dir b.url (args b)))

  pub pick-Steps :
      {A : Type 0} (b : Bool) (m k : Act (Remote X) A)
      → Steps (OnRemote R) m
      → Steps (OnRemote R) k
      → Steps (OnRemote R) (if b then m else k)
  pick-Steps true m k h j = h
  pick-Steps false m k h j = j

  pub succeeded-Steps : (out : Output) → Steps (OnRemote R) (succeeded {X = X} out)
  unfolding succeeded
  succeeded-Steps out =
      let P = OnRemote-IsPreorder in
      pick-Steps out.success (pure tt) (fail git_failed) (Steps-pure P (tt {0}))
        (Steps-fail P (Unit {0}) git_failed)

  -- A network command that must succeed.
  pub sent-Steps :
      (args : RemoteBackend → List Text) → Steps (OnRemote R) (net {X = X} args >>= succeeded)
  sent-Steps args =
      Steps-bind OnRemote-IsPreorder (net args) succeeded (net-Steps args) succeeded-Steps

  note_push-Steps : Steps (OnRemote R) (note_push {X = X})
  unfolding note_push change
  note_push-Steps s = H.preorder.same s.running.machine

  wait_from-Steps :
      (interval : ℕ) (last : Option ℕ) → Steps (OnMachine R) (wait_from {X = X} interval last)
  unfolding wait_from
  wait_from-Steps interval none = Steps-pure (Commands.OnMachine-IsPreorder H) (tt {0})
  wait_from-Steps interval (some t) =
      let P = Commands.OnMachine-IsPreorder H in
      let wait : ℕ → Sys X (Unit {0}) =
        λ now. if ltb (now - t) interval then sleep (interval - (now - t)) else pure tt in
      Steps-bind P (view (λ s. X.now s.machine)) wait (Steps-view P (λ s. X.now s.machine)) (λ now.
        OfBare.choice-Steps H (ltb (now - t) interval) (sleep (interval - (now - t))) (pure tt)
          (Commands.sleep-Steps H (interval - (now - t))) (Steps-pure P (tt {0})))

  pub throttle-Steps : Steps (OnRemote R) (throttle {X = X})
  unfolding throttle
  throttle-Steps =
      let P = OnRemote-IsPreorder in
      let waited : ℕ → Act (Remote X) (Unit {0}) =
        λ interval. on_backend (λ b. wait_from interval b.last_push) >> note_push in
      let paced : ℕ → Act (Remote X) (Unit {0}) =
        λ interval. if interval == 0 then pure tt else waited interval in
      Steps-bind P (view (λ s. s.backend.push_interval)) paced
        (Steps-view P (λ s. s.backend.push_interval))
        (λ interval.
          pick-Steps (interval == 0) (pure tt) (waited interval) (Steps-pure P (tt {0})) (
            Steps-bind P (on_backend (λ b. wait_from interval b.last_push)) (λ _. note_push)
              (on_backend-Steps (λ b. wait_from interval b.last_push)
                (λ b. wait_from-Steps interval b.last_push))
              (λ _. note_push-Steps)))

  pub store_promisor-Steps : (p : Promisor) → Steps (OnRemote R) (store_promisor {X = X} p)
  unfolding store_promisor change
  store_promisor-Steps p s = H.preorder.same s.running.machine

  verdict-Steps : (r : Result (Unit {0})) → Steps (OnRemote R) (verdict {X = X} r)
  unfolding verdict
  verdict-Steps (ok _) =
      let P = OnRemote-IsPreorder in
      Steps-bind P (store_promisor supported) (λ _. pure true) (store_promisor-Steps supported)
        (λ _. Steps-pure P true)
  verdict-Steps (err _) =
      let P = OnRemote-IsPreorder in
      Steps-bind P (store_promisor unsupported) (λ _. pure false) (store_promisor-Steps unsupported)
        (λ _. Steps-pure P false)

  probe-Steps : (refname : Text) (p : Promisor) → Steps (OnRemote R) (probe {X = X} refname p)
  unfolding probe fetch_ref_filtered
  probe-Steps refname supported = Steps-pure OnRemote-IsPreorder true
  probe-Steps refname unsupported = Steps-pure OnRemote-IsPreorder false
  probe-Steps refname unknown =
      let P = OnRemote-IsPreorder in
      Steps-bind P (try (fetch_ref_filtered refname)) verdict
        (Steps-try P (fetch_ref_filtered refname) (sent-Steps _)) verdict-Steps

  pub ensure_promisor_probe-Steps :
      (refname : Text) → Steps (OnRemote R) (ensure_promisor_probe {X = X} refname)
  unfolding ensure_promisor_probe
  ensure_promisor_probe-Steps refname =
      let P = OnRemote-IsPreorder in
      let forced : Act (Remote X) Bool = store_promisor unsupported >> pure false in
      Steps-bind P (view (λ s. s.backend))
        (λ b. if b.force_full_fetch then forced else probe refname (promisor_of b.promisor))
        (Steps-view P (λ s. s.backend))
        (λ b.
          pick-Steps b.force_full_fetch forced (probe refname (promisor_of b.promisor))
            (Steps-bind P (store_promisor unsupported) (λ _. pure false)
              (store_promisor-Steps unsupported) (λ _. Steps-pure P false))
            (probe-Steps refname (promisor_of b.promisor)))
