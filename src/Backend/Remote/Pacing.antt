-- ===== src/Backend/Remote/Pacing.antt =====
-- The pushes of a remote are spaced out, and its capability is probed once (src/backend.rs).
use git_storage.Prelude.{
  ℕ, ◌+◌, ◌-◌, ◌≤◌, ◌<◌, ◌≡◌, ◌≢◌, refl, Option, none, some, ltb, ltb→lt, ◌==◌, inl, inr, arith,
  Bool-cases,
}
use git_storage.Prelude.Result.{ok}
use git_storage.Process.{Machine, Running, Sys, pure, view, continue, ◌>>=◌, ◌>>◌, change, sleep}
use git_storage.Backend.Remote.{RemoteBackend, Remote, on_backend, wait_from, note_push, throttle}

-- A push at an instant comes late enough after the last one.
abbrev pub Spaced : ℕ → Option ℕ → ℕ → Type 0
Spaced interval none now = Unit
Spaced interval (some t) now = t + interval ≤ now

-- The last push lies in the past.
abbrev pub Past : Option ℕ → ℕ → Type 0
Past none now = Unit
Past (some t) now = t ≤ now

-- A sleep takes at least its time.
abbrev pub Sleeps : Machine → Type 0
Sleeps X = (nanos : ℕ) (s : X.State) → X.now s + nanos ≤ X.now (X.sleep nanos s)

module _ {X : Machine} where
  wait_from-Spaced :
      (interval : ℕ) (last : Option ℕ) (s : Running X)
      → Sleeps X
      → Past last (X.now s.machine)
      → let done = wait_from interval last s in
        (done.0 ≡ ok tt) × Spaced interval last (X.now done.1.machine)
  unfolding wait_from ◌>>=◌ continue view pure sleep
  wait_from-Spaced interval none s h p = (refl, tt)
  wait_from-Spaced interval (some t) s h p =
      let now = X.now s.machine in
      elim (Bool-cases (ltb (now - t) interval)) [
        | inl e ↦
            let short : now - t < interval = ltb→lt (now - t) interval e in
            let slept : now + (interval - (now - t))
                ≤ X.now (X.sleep (interval - (now - t)) s.machine) =
              h (interval - (now - t)) s.machine in
            rw e (refl, omega arith)
        | inr e ↦ rw e (refl, ground arith)
      ]

  -- The push that is noted, after a wait that returns.
  noted : RemoteBackend → Running X → Remote X
  noted b t = record { backend = record b { last_push = some (X.now t.machine) }; running = t }

  note_push-after :
      (f : RemoteBackend → Sys X (Unit {0})) (s : Remote X)
      → (f s.backend s.running).0 ≡ ok tt
      → (on_backend f >> note_push) s ≡ (ok tt, noted s.backend (f s.backend s.running).1)
  unfolding ◌>>=◌ continue on_backend note_push change noted
  note_push-after f s h = rw h

  -- A push that is throttled comes at least the interval after the last one, and is noted as the
  -- last one; sleeps take at least their time, and the last push lies in the past.
  pub throttle-Spaced :
      (s : Remote X)
      → Sleeps X
      → s.backend.push_interval ≢ 0
      → Past s.backend.last_push (X.now s.running.machine)
      → let done = throttle s in
        (done.0 ≡ ok tt)
        × Spaced s.backend.push_interval s.backend.last_push (X.now done.1.running.machine)
        × (done.1.backend.last_push ≡ some (X.now done.1.running.machine))
  unfolding throttle ◌>>=◌ continue view noted
  throttle-Spaced s h n p = elim (Bool-cases (s.backend.push_interval == 0)) [
    | inl e ↦ absurd (n (ground arith))
    | inr e ↦
        let wait : RemoteBackend → Sys X (Unit {0}) =
          λ b. wait_from s.backend.push_interval b.last_push in
        let (returned, spaced) =
          wait_from-Spaced s.backend.push_interval s.backend.last_push s.running h p in
        rw (e, note_push-after wait s returned) (refl, spaced, refl)
  ]
