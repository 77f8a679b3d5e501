-- ===== src/Backend/Remote/Retry.antt =====
-- `net_git_retrying` (src/backend.rs): a network command is run again, after a pause, while the
-- server limits the rate.
use git_storage.Prelude.{
  ℕ, zero, suc, ◌+◌, ◌*◌, ◌^◌, ◌%◌, ◌≤◌, ◌<◌, ◌≡◌, refl, Bool, true, false, ◌||◌, not, ◌⊎◌, inl,
  inr, List, leb, if◌then◌else◌, arith, Bool-cases,
}
use git_storage.Prelude.Text.{Text}
use git_storage.Prelude.Result.{Result, Error, ok, err, out_of_fuel}
use git_storage.Process.{
  Machine, Running, Sys, Output, pure, fail, view, continue, ◌>>=◌, ◌>>◌, sleep,
}
use git_storage.Backend.Network.{net_git, is_rate_limited, pseudo_jitter}

-- `MAX_RATE_LIMIT_RETRIES`
abbrev pub max_rate_limit_retries : ℕ
max_rate_limit_retries = 5

abbrev pub millis : ℕ → ℕ
millis n = n * 10 ^ 6

-- The pause after an attempt: `500u64 << attempt` milliseconds and the jitter.
unfoldable pub back_off : ℕ → ℕ → ℕ
unfolding pseudo_jitter
back_off nanos attempt = millis (500 * 2 ^ attempt + pseudo_jitter nanos attempt % 250)

-- Whether the loop returns what it has.
unfoldable pub is_final : ℕ → Output → Bool
unfolding is_rate_limited
is_final attempt out =
    out.success || leb max_rate_limit_retries attempt || not (is_rate_limited out.stderr)

back_off-bounds :
    (nanos attempt : ℕ)
    → (millis (500 * 2 ^ attempt) ≤ back_off nanos attempt)
      × (back_off nanos attempt < millis (500 * 2 ^ attempt + 250))
unfolding back_off
back_off-bounds nanos attempt = (omega arith, omega arith)

-- Why the loop returns what it has.
is_final-reason :
    (attempt : ℕ) (out : Output)
    → attempt ≤ max_rate_limit_retries
    → is_final attempt out ≡ true
    → (out.success ≡ true)
      ⊎ (is_rate_limited out.stderr ≡ false)
      ⊎ (attempt ≡ max_rate_limit_retries)
unfolding is_final
is_final-reason attempt out h f = ground arith

not_final-reason :
    (attempt : ℕ) (out : Output)
    → is_final attempt out ≡ false
    → (out.success ≡ false)
      × (is_rate_limited out.stderr ≡ true)
      × (attempt < max_rate_limit_retries)
unfolding is_final
not_final-reason attempt out f = ground arith

module _ {X : Machine} where
  unfoldable pub pause : ℕ → Sys X (Unit {0})
  unfolding view ◌>>=◌ sleep back_off
  pause attempt = view (λ s. X.subsec_nanos s.machine) >>= λ nanos. sleep (back_off nanos attempt)

  -- The loop, over a number of rounds.
  unfoldable pub retry : Sys X Output → ℕ → ℕ → Sys X Output
  unfolding ◌>>=◌ pure fail is_final pause
  retry run zero attempt = fail out_of_fuel
  retry run (suc rounds) attempt =
      let again = retry run rounds (attempt + 1) in
      run >>= λ out. if is_final attempt out then pure out else pause attempt >> again

  unfoldable pub net_git_retrying : Text → Text → List Text → Sys X Output
  unfolding retry net_git
  net_git_retrying dir url args = retry (net_git dir url args) (max_rate_limit_retries + 1) 0

  -- The runs of a command from some attempt on: the last of them cannot be started, succeeds, fails
  -- for another reason than the rate, or is the sixth; before each other one there is a pause,
  -- which doubles, and is longer by less than a quarter of a second.
  pub data Attempts (run : Sys X Output) : ℕ → Running X → Result Output → Running X → Type 0 where
    stopped :
        {attempt : ℕ} {s t : Running X} {e : Error}
        → run s ≡ (err e, t)
        → Attempts run attempt s (err e) t
    last :
        {attempt : ℕ} {s t : Running X} {out : Output}
        → run s ≡ (ok out, t)
        → (out.success ≡ true)
          ⊎ (is_rate_limited out.stderr ≡ false)
          ⊎ (attempt ≡ max_rate_limit_retries)
        → Attempts run attempt s (ok out) t
    again :
        {attempt : ℕ} {s t u : Running X} {out : Output} {r : Result Output}
        → run s ≡ (ok out, t)
        → out.success ≡ false
        → is_rate_limited out.stderr ≡ true
        → attempt < max_rate_limit_retries
        → (nanos : ℕ) → millis (500 * 2 ^ attempt) ≤ nanos
        → nanos < millis (500 * 2 ^ attempt + 250)
        → Attempts run (attempt + 1) (record t { machine = X.sleep nanos t.machine }) r u
        → Attempts run attempt s r u

  run-cases :
      (p : Result Output × Running X)
      → ((e : Error) × (t : Running X) × (p ≡ (err e, t)))
        ⊎ ((out : Output) × (t : Running X) × (p ≡ (ok out, t)))
  run-cases (err e, t) = inl (e, t, refl)
  run-cases (ok out, t) = inr (out, t, refl)

  retry-Attempts :
      (run : Sys X Output) (rounds attempt : ℕ) (s : Running X)
      → attempt ≤ max_rate_limit_retries
      → max_rate_limit_retries < rounds + attempt
      → let done = retry run rounds attempt s in Attempts run attempt s done.0 done.1
  unfolding retry ◌>>=◌ continue
  retry-Attempts run zero attempt s h k = absurd (omega arith)
  retry-Attempts run (suc rounds) attempt s h k = elim (run-cases (run s)) [
    | inl (e, t, q) ↦ rw q (stopped q)
    | inr (out, t, q) ↦ rw q (elim (Bool-cases (is_final attempt out)) [
      | inl f ↦ rw f (last q (is_final-reason attempt out h f))
      | inr f ↦ rw f (
          let (failed, limited, more) = not_final-reason attempt out f in
          let nanos = back_off (X.subsec_nanos t.machine) attempt in
          let (low, high) = back_off-bounds (X.subsec_nanos t.machine) attempt in
          again q failed limited more nanos low high (
            retry-Attempts run rounds (attempt + 1) (record t { machine = X.sleep nanos t.machine })
              (omega arith) (omega arith)))
    ])
  ]

  -- A network command that the server limits is run at most six times, with a pause before each
  -- run but the first, and what comes back is what its last run gave: the loop always ends.
  pub net_git_retrying-Attempts :
      (dir url : Text) (args : List Text) (s : Running X)
      → let done = net_git_retrying dir url args s in
        Attempts (net_git dir url args) 0 s done.0 done.1
  unfolding net_git_retrying
  net_git_retrying-Attempts dir url args s =
      retry-Attempts (net_git dir url args) (max_rate_limit_retries + 1) 0 s (omega arith)
        (omega arith)
