-- ===== src/Backend/Provision/Created.antt =====
-- When `ensure_repo` creates a repository, and what it does otherwise.
use git_storage.Prelude.{
  ℕ, ◌≡◌, ◌≢◌, refl, true, false, ◌⊎◌, inl, inr, none, some, ◌==◌, ◌++◌, arith, Bool-cases,
  Option-cases,
}
use git_storage.Prelude.Text.{Text, codes}
use git_storage.Prelude.Result.{
  Result, Error, ok, err, token_missing, foreign_repo, unexpected_http, create_failed,
}
use git_storage.Process.{Machine, Running, Sys, view, continue, lift, pure, fail, ◌>>=◌}
use git_storage.Backend.Provision.{
  RepoSpec, Provisioned, CurlOut, created, adopted_empty, absent, looks_empty, repo_state, creation,
  api_base, repo_url, payload, curl_json, get_repo, create_repo, create_if, ensure_with,
  ensure_repo,
}

-- What the answer to the probe settles, without a creation.
pub data Settles : Result CurlOut → Result Provisioned → Type 0 where
  lost : {e : Error} → Settles (err e) (err e)
  adopts :
      {out : CurlOut}
      → out.http_status ≡ 200
      → looks_empty out.body ≡ true
      → Settles (ok out) (ok adopted_empty)
  refuses :
      {out : CurlOut}
      → out.http_status ≡ 200
      → looks_empty out.body ≡ false
      → Settles (ok out) (err foreign_repo)
  unexpected :
      {out : CurlOut}
      → out.http_status ≢ 404
      → out.http_status ≢ 200
      → Settles (ok out) (err unexpected_http)

-- What the answer to the creation says.
pub data Creates : Result CurlOut → Result Provisioned → Type 0 where
  dropped : {e : Error} → Creates (err e) (err e)
  made :
      {out : CurlOut}
      → (out.http_status ≡ 200) ⊎ (out.http_status ≡ 201)
      → Creates (ok out) (ok created)
  declined :
      {out : CurlOut}
      → out.http_status ≢ 200
      → out.http_status ≢ 201
      → Creates (ok out) (err create_failed)

-- The result of a creation that was asked for.
abbrev and_created : Result (Unit {0}) → Result Provisioned
and_created (ok _) = ok created
and_created (err e) = err e

run-cases :
    {A : Type 0} {S : Type 0} (p : Result A × S)
    → ((e : Error) × (t : S) × (p ≡ (err e, t))) ⊎ ((a : A) × (t : S) × (p ≡ (ok a, t)))
run-cases (err e, t) = inl (e, t, refl)
run-cases (ok a, t) = inr (a, t, refl)

module _ {X : Machine} where
  abbrev pub probe : RepoSpec → Text → Sys X CurlOut
  probe spec token =
      curl_json spec.host token (codes "GET") (repo_url (api_base spec.host spec.web_base) spec)
        none

  abbrev pub creating : RepoSpec → Text → Sys X CurlOut
  creating spec token =
      curl_json spec.host token (codes "POST")
        (api_base spec.host spec.web_base ++ codes "/user/repos") (some (payload spec.name))

  -- How `ensure_repo` ends: without a token nothing is run; otherwise there is one probe, and
  -- one request to create follows it exactly where the probe answers 404.
  pub data Ensured (spec : RepoSpec) (s : Running X) : Result Provisioned → Running X → Type 0 where
    untouched :
        X.var (codes "GITSTORAGE_TOKEN") s.machine ≡ none → Ensured spec s (err token_missing) s
    settled :
        {token : Text} {p : Result CurlOut} {r : Result Provisioned} {t : Running X}
        → X.var (codes "GITSTORAGE_TOKEN") s.machine ≡ some token
        → probe spec token s ≡ (p, t)
        → Settles p r
        → Ensured spec s r t
    posted :
        {token : Text} {out : CurlOut} {p : Result CurlOut} {r : Result Provisioned}
        {t u : Running X}
        → X.var (codes "GITSTORAGE_TOKEN") s.machine ≡ some token
        → probe spec token s ≡ (ok out, t)
        → out.http_status ≡ 404
        → creating spec token t ≡ (p, u)
        → Creates p r
        → Ensured spec s r u

eq_of_test : (a b : ℕ) → (a == b) ≡ true → a ≡ b
eq_of_test a b h = ground arith

ne_of_test : (a b : ℕ) → (a == b) ≡ false → a ≢ b
ne_of_test a b h = ground arith

creation-Creates : (out : CurlOut) → Creates (ok out) (and_created (creation out))
unfolding creation
creation-Creates out = elim (Bool-cases (out.http_status == 200)) [
  | inl h ↦ rw h (made (inl (eq_of_test out.http_status 200 h)))
  | inr h ↦ elim (Bool-cases (out.http_status == 201)) [
    | inl k ↦ rw (h, k) (made (inr (eq_of_test out.http_status 201 k)))
    | inr k ↦
        rw (h, k) (declined (ne_of_test out.http_status 200 h) (ne_of_test out.http_status 201 k))
  ]
]

-- The result of the request to create.
abbrev outcome : Result CurlOut → Result Provisioned
outcome (err e) = err e
outcome (ok out) = and_created (creation out)

outcome-Creates : (p : Result CurlOut) → Creates p (outcome p)
outcome-Creates (err e) = dropped
outcome-Creates (ok out) = creation-Creates out

module _ {X : Machine} where
  continue-created :
      (r : Result (Unit {0})) (u : Running X)
      → continue r (λ _. pure created) u ≡ (and_created r, u)
  unfolding continue pure
  continue-created (ok _) u = refl
  continue-created (err e) u = refl

  create_if-absent :
      (spec : RepoSpec) (token : Text) (t u : Running X) (p : Result CurlOut)
      → creating spec token t ≡ (p, u)
      → create_if (api_base spec.host spec.web_base) spec token absent t ≡ (outcome p, u)
  unfolding create_if create_repo ◌>>=◌ continue lift
  create_if-absent spec token t u (err e) q = rw q refl
  create_if-absent spec token t u (ok out) q = rw q (continue-created (creation out) u)

  ensure-found :
      (spec : RepoSpec) (s t : Running X) (token : Text) (out : CurlOut)
      → X.var (codes "GITSTORAGE_TOKEN") s.machine ≡ some token
      → probe spec token s ≡ (ok out, t)
      → let done =
          continue (repo_state out) (create_if (api_base spec.host spec.web_base) spec token) t in
        Ensured spec s done.0 done.1
  unfolding continue repo_state create_if pure fail
  ensure-found spec s t token out v q = elim (Bool-cases (out.http_status == 404)) [
    | inl h ↦
        let (p, u) = creating spec token t in
        rw (h, create_if-absent spec token t u p refl)
          (posted v q (eq_of_test out.http_status 404 h) refl (outcome-Creates p))
    | inr h ↦ elim (Bool-cases (out.http_status == 200)) [
      | inr k ↦
          rw (h, k)
            (settled v q
              (unexpected (ne_of_test out.http_status 404 h) (ne_of_test out.http_status 200 k)))
      | inl k ↦ elim (Bool-cases (looks_empty out.body)) [
        | inl l ↦ rw (h, k, l) (settled v q (adopts (eq_of_test out.http_status 200 k) l))
        | inr l ↦ rw (h, k, l) (settled v q (refuses (eq_of_test out.http_status 200 k) l))
      ]
    ]
  ]

  ensure-probed :
      (spec : RepoSpec) (s : Running X) (token : Text)
      → X.var (codes "GITSTORAGE_TOKEN") s.machine ≡ some token
      → let done = ensure_with spec (some token) s in Ensured spec s done.0 done.1
  unfolding ensure_with get_repo ◌>>=◌ continue lift
  ensure-probed spec s token v = elim (run-cases (probe spec token s)) [
    | inl (e, t, q) ↦ rw q (settled v q lost)
    | inr (out, t, q) ↦ rw q (ensure-found spec s t token out v q)
  ]

  -- Without a token `ensure_repo` fails and runs nothing. With one it probes the repository once: it
  -- asks for a creation, once, exactly where the answer is 404; it adopts a repository that looks
  -- empty, and refuses any other that is there, and any other answer.
  pub ensure_repo-Ensured :
      (spec : RepoSpec) (s : Running X)
      → let done = ensure_repo spec s in Ensured spec s done.0 done.1
  unfolding ensure_repo ensure_with ◌>>=◌ continue view fail
  ensure_repo-Ensured spec s = elim (Option-cases (X.var (codes "GITSTORAGE_TOKEN") s.machine)) [
    | inl h ↦ rw h (untouched h)
    | inr (token, h) ↦ rw h (ensure-probed spec s token h)
  ]
