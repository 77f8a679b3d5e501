-- ===== src/Backend/Remote.antt =====
-- `RemoteBackend` (src/backend.rs): a git remote, staged through a local mirror. `last_push` and
-- `promisor`, which Rust keeps behind a lock and an atomic, are fields of its state.
pub mod Retry
pub mod Answers
pub mod Serve
pub mod Pacing
pub mod Probed
use git_storage.Prelude.{
  ℕ, ◌+◌, ◌-◌, ◌*◌, Bool, true, false, ◌||◌, Option, none, some, List, [], ◌∷◌, ◌++◌, map, ltb,
  ◌==◌, if◌then◌else◌,
}
use git_storage.Prelude.Text.{Bytes, Text, codes, eqb}
use git_storage.Prelude.Int.{ℤ}
use git_storage.Prelude.Str.{contains, starts_with, strip_prefix, lower}
use git_storage.Prelude.Words.{lines, split_whitespace}
use git_storage.Prelude.Utf8.{from_utf8}
use git_storage.Prelude.Result
use git_storage.Prelude.Result.{Result, ok, err, git_failed, refuse_destroy, unsupported_scheme}
use git_storage.Process.{
  Machine, Running, Sys, Act, Output, pure, fail, lift, try, view, ◌>>=◌, ◌>>◌, on_files, change,
  sleep,
}
use git_storage.Gitrepo.{Bare, open_bare, old_or_zero}
use git_storage.Gitrepo
use git_storage.Gitrepo.Answers.{filter_map, two_words, read_lines, checked}
use git_storage.Backend.{Backend}
use git_storage.Backend.Network.{allowed_scheme, must_succeed, mirror_repo}
use git_storage.Backend.Remote.Retry.{millis, net_git_retrying}

-- `Promisor`, and its conversions from and to a byte.
pub data Promisor : Type 0 where
  unknown supported unsupported : Promisor

unfoldable pub promisor_of : ℕ → Promisor
promisor_of v = if v == 1 then supported else if v == 2 then unsupported else unknown

unfoldable pub code_of : Promisor → ℕ
code_of unknown = 0
code_of supported = 1
code_of unsupported = 2

-- `RemoteBackend`; durations and instants are in nanoseconds.
pub record RemoteBackend : Type 0 where
  pub url : Text
  pub mirror : Bare
  pub mirror_dir : Text
  pub push_interval : ℕ
  pub last_push : Option ℕ
  pub promisor : ℕ
  pub force_full_fetch : Bool

-- `GITSTORAGE_FORCE_FULL_FETCH`
unfoldable pub is_forced : Option Text → Bool
unfolding eqb lower
is_forced none = false
is_forced (some v) = eqb v (codes "1") || eqb (map lower v) (codes "true")

abbrev known : Promisor → Option Bool
known unknown = none
known supported = some true
known unsupported = some false

unfoldable pub promisor_supported : RemoteBackend → Option Bool
unfolding promisor_of
promisor_supported b = known (promisor_of b.promisor)

unfoldable pub read_note : Option Bool → Text
read_note (some true) = codes "promisor blob-by-OID fetch"
read_note (some false) = codes "full segment fetch (promisor unsupported/forced)"
read_note none = codes "no read served yet"

unfoldable pub refspec : Text → Text
refspec refname = b'+' ∷ refname ++ b':' ∷ refname

unfoldable pub is_ref : Text → Bool
unfolding starts_with
is_ref rev = starts_with rev (codes "refs/")

module _ (X : Machine) where
  -- A backend, and the process that it runs in.
  pub record Remote : Type 0 where
    pub backend : RemoteBackend
    pub running : Running X

module _ {X : Machine} where
  module _ {ℓ} {A : Type ℓ} where
    -- A call that leaves the fields of the backend.
    unfoldable pub on_backend : (RemoteBackend → Sys X A) → Act (Remote X) A
    on_backend f s = let (r, running) = f s.backend s.running in (r, record s { running = running })

    -- A call on the mirror.
    unfoldable pub on_mirror : (Bare → Sys X A) → Act (Remote X) A
    unfolding on_backend
    on_mirror f = on_backend (λ b. f b.mirror)

    -- What is returned where there is something, and what is done otherwise.
    unfoldable pub or_else : Option A → Act (Remote X) A → Act (Remote X) A
    unfolding pure
    or_else (some a) m = pure a
    or_else none m = m

  -- A network command.
  unfoldable pub net : (RemoteBackend → List Text) → Act (Remote X) Output
  unfolding on_backend net_git_retrying
  net args = on_backend (λ b. net_git_retrying b.mirror_dir b.url (args b))

  unfoldable pub succeeded : Output → Act (Remote X) (Unit {0})
  unfolding pure fail
  succeeded out = if out.success then pure tt else fail git_failed

  unfoldable pub open_remote : Text → Text → ℕ → Sys X RemoteBackend
  unfolding allowed_scheme view open_bare ◌>>=◌ pure is_forced fail
  open_remote url mirror_dir push_interval_ms =
      let opened = view (λ s. X.var (codes "GITSTORAGE_FORCE_FULL_FETCH") s.machine) >>= λ forced.
      open_bare mirror_dir >>= λ mirror. pure (record {
        url = url;
        mirror = mirror;
        mirror_dir = mirror_dir;
        push_interval = millis push_interval_ms;
        last_push = none;
        promisor = 0;
        force_full_fetch = is_forced forced;
      }) in
      if allowed_scheme url then opened else fail unsupported_scheme

  -- The wait of `throttle`, from the last push on.
  unfoldable pub wait_from : ℕ → Option ℕ → Sys X (Unit {0})
  unfolding view ◌>>=◌ sleep pure
  wait_from interval none = pure tt
  wait_from interval (some t) = view (λ s. X.now s.machine) >>= λ now.
      if ltb (now - t) interval then sleep (interval - (now - t)) else pure tt

  unfoldable pub note_push : Act (Remote X) (Unit {0})
  unfolding change
  note_push = change (λ s. record s {
    backend = record (s.backend) { last_push = some (X.now s.running.machine) };
  })

  unfoldable pub throttle : Act (Remote X) (Unit {0})
  unfolding view ◌>>=◌ pure on_backend wait_from note_push
  throttle = view (λ s. s.backend.push_interval) >>= λ interval.
      if interval == 0
      then pure tt
      else on_backend (λ b. wait_from interval b.last_push) >> note_push

  unfoldable pub fetch_ref_full : Text → Act (Remote X) (Unit {0})
  unfolding net ◌>>=◌ succeeded refspec
  fetch_ref_full refname =
      net (λ b. codes "fetch" ∷ codes "--quiet" ∷ b.url ∷ refspec refname ∷ []) >>= succeeded

  unfoldable pub fetch_ref_filtered : Text → Act (Remote X) (Unit {0})
  unfolding net ◌>>=◌ succeeded refspec
  fetch_ref_filtered refname =
      net (λ b.
        codes "fetch" ∷ codes "--quiet" ∷ codes "--filter=blob:none" ∷ b.url ∷ refspec refname ∷ [])
      >>= succeeded

  unfoldable pub fetch_blob_by_oid : Text → Act (Remote X) (Unit {0})
  unfolding net ◌>>=◌ succeeded
  fetch_blob_by_oid oid =
      net (λ b. codes "fetch" ∷ codes "--quiet" ∷ codes "--filter=blob:none" ∷ b.url ∷ oid ∷ [])
      >>= succeeded

  unfoldable pub fetch_all_refs : Act (Remote X) (Unit {0})
  unfolding net ◌>>=◌ succeeded
  fetch_all_refs =
      net (λ b.
        codes "fetch" ∷ codes "--quiet" ∷ codes "--force" ∷ b.url ∷ codes "refs/*:refs/*" ∷ [])
      >>= succeeded

  unfoldable pub store_promisor : Promisor → Act (Remote X) (Unit {0})
  unfolding change code_of
  store_promisor p =
      change (λ s. record s { backend = record (s.backend) { promisor = code_of p } })

  -- The verdict of a first fetch.
  unfoldable pub verdict : Result (Unit {0}) → Act (Remote X) Bool
  unfolding store_promisor ◌>>=◌ pure
  verdict (ok _) = store_promisor supported >> pure true
  verdict (err _) = store_promisor unsupported >> pure false

  unfoldable pub probe : Text → Promisor → Act (Remote X) Bool
  unfolding pure try fetch_ref_filtered ◌>>=◌ verdict
  probe refname supported = pure true
  probe refname unsupported = pure false
  probe refname unknown = try (fetch_ref_filtered refname) >>= verdict

  unfoldable pub ensure_promisor_probe : Text → Act (Remote X) Bool
  unfolding view ◌>>=◌ store_promisor pure probe promisor_of
  ensure_promisor_probe refname = view (λ s. s.backend) >>= λ b.
      if b.force_full_fetch
      then store_promisor unsupported >> pure false
      else probe refname (promisor_of b.promisor)
