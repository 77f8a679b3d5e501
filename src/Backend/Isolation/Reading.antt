-- ===== src/Backend/Isolation/Reading.antt =====
-- The reads of a remote backend (src/backend.rs) are isolated.
use git_storage.Prelude.{Bool, false, Option, none, some, List, [], ◌∷◌, ◌++◌, if◌then◌else◌}
use git_storage.Prelude.Text.{Bytes, Text, codes}
use git_storage.Prelude.Result.{Result, ok, err}
use git_storage.Process.{Machine, Act, Output, Sys, pure, lift, try, ◌>>=◌, ◌>>◌}
use git_storage.Process.Steps.{Steps, Steps-pure, Steps-lift, Steps-try, Steps-bind}
use git_storage.Gitrepo
use git_storage.Gitrepo.{Bare, open_bare}
use git_storage.Backend.Remote.{
  RemoteBackend, Remote, on_mirror, or_else, net, fetch_ref_full, fetch_blob_by_oid, fetch_all_refs,
  ensure_promisor_probe, is_ref,
}
use git_storage.Backend.Remote.Serve.{
  ls_remote_args, remote_read_ref, remote_list_refs, local_read, demand, demand_resolved,
  promisor_read, full_read, remote_read_blob_at, remote_rev_list, ensure_ref_local, with_ref_local,
  is_some, to_option, failed,
}
use git_storage.Backend.Remote.Answers.{remote_ref, remote_refs}
use git_storage.Backend.Isolation.{Holds, OnMachine}
use git_storage.Backend.Isolation.OfBare
use git_storage.Backend.Isolation.OfRemote
use git_storage.Backend.Isolation.OfRemote.{OnRemote}

abbrev nothing : Option Bytes
nothing = none

module _ {X : Machine} {R : X.State → X.State → Type 0} (H : Holds X R) where
  abbrev Keeps : {A : Type 0} → Act (Remote X) A → Type 0
  Keeps m = Steps (OnRemote R) m

  pub done-Steps : Keeps (pure (tt {0}))
  done-Steps = Steps-pure (OfRemote.OnRemote-IsPreorder H) (tt {0})

  -- One action, then another.
  pub then-Steps :
      {A : Type 0} (m : Act (Remote X) (Unit {0})) (k : Act (Remote X) A)
      → Keeps m
      → Keeps k
      → Keeps (m >> k)
  then-Steps m k h j = Steps-bind (OfRemote.OnRemote-IsPreorder H) m (λ _. k) h (λ _. j)

  pub mirrored-Steps :
      {A : Type 0} (f : Bare → Sys X A)
      → ((m : Bare) → Steps (OnMachine R) (f m))
      → Keeps (on_mirror f)
  mirrored-Steps f h = OfRemote.on_mirror-Steps H f h

  -- What a network command wrote, read.
  read-Steps :
      {A : Type 0} (args : RemoteBackend → List Text) (f : Output → Result A)
      → Keeps (net args >>= λ out. lift (f out))
  read-Steps args f =
      let P = OfRemote.OnRemote-IsPreorder H in
      Steps-bind P (net args) (λ out. lift (f out)) (OfRemote.net-Steps H args)
        (λ out. Steps-lift P (f out))

  pub read_ref-Steps : (refname : Text) → Keeps (remote_read_ref refname)
  unfolding remote_read_ref
  read_ref-Steps refname = read-Steps (ls_remote_args refname) remote_ref

  pub list_refs-Steps : (prefix : Text) → Keeps (remote_list_refs prefix)
  unfolding remote_list_refs
  list_refs-Steps prefix = read-Steps (ls_remote_args (prefix ++ b'*' ∷ [])) remote_refs

  or_else-Steps : {A : Type 0} (o : Option A) (m : Act (Remote X) A) → Keeps m → Keeps (or_else o m)
  unfolding or_else
  or_else-Steps (some a) m h = Steps-pure (OfRemote.OnRemote-IsPreorder H) a
  or_else-Steps none m h = h

  fetch_full-Steps : (refname : Text) → Keeps (fetch_ref_full refname)
  unfolding fetch_ref_full
  fetch_full-Steps refname = OfRemote.sent-Steps H _

  fetch_blob-Steps : (oid : Text) → Keeps (fetch_blob_by_oid oid)
  unfolding fetch_blob_by_oid
  fetch_blob-Steps oid = OfRemote.sent-Steps H _

  pub fetch_all-Steps : Keeps fetch_all_refs
  unfolding fetch_all_refs
  fetch_all-Steps = OfRemote.sent-Steps H _

  local_read-Steps : (rev path : Text) → Keeps (local_read rev path)
  unfolding local_read
  local_read-Steps rev path =
      let P = OfRemote.OnRemote-IsPreorder H in
      let blob : Act (Remote X) Bytes = on_mirror (λ m. Gitrepo.read_blob_at m rev path) in
      let found : Act (Remote X) (Option Bytes) = try blob >>= λ r. pure (to_option r) in
      Steps-bind P (on_mirror (λ m. Gitrepo.read_ref m rev))
        (λ there. if is_some there then found else pure none)
        (mirrored-Steps (λ m. Gitrepo.read_ref m rev) (λ m. OfBare.read_ref-Steps H m rev))
        (λ there.
          OfRemote.pick-Steps H (is_some there) found (pure none)
            (Steps-bind P (try blob) (λ r. pure (to_option r))
              (Steps-try P blob (
                mirrored-Steps (λ m. Gitrepo.read_blob_at m rev path)
                  (λ m. OfBare.read_blob_at-Steps H m rev path)))
              (λ r. Steps-pure P (to_option r)))
            (Steps-pure P nothing))

  demand-Steps : (oid : Text) → Keeps (demand oid)
  unfolding demand
  demand-Steps oid =
      let blob : Act (Remote X) Bytes = on_mirror (λ m. Gitrepo.read_blob_by_oid m oid) in
      let fetched : Bool → Act (Remote X) (Unit {0}) =
        λ there. if there then pure tt else fetch_blob_by_oid oid in
      Steps-bind (OfRemote.OnRemote-IsPreorder H) (on_mirror (λ m. Gitrepo.has_object m oid))
        (λ there. fetched there >> blob)
        (mirrored-Steps (λ m. Gitrepo.has_object m oid) (λ m. OfBare.has_object-Steps H m oid))
        (λ there.
          then-Steps (fetched there) blob
            (OfRemote.pick-Steps H there (pure tt) (fetch_blob_by_oid oid) done-Steps
              (fetch_blob-Steps oid))
            (mirrored-Steps (λ m. Gitrepo.read_blob_by_oid m oid)
              (λ m. OfBare.read_blob_by_oid-Steps H m oid)))

  resolved-Steps : (r : Result Text) → Keeps (demand_resolved r)
  unfolding demand_resolved
  resolved-Steps (err e) = Steps-pure (OfRemote.OnRemote-IsPreorder H) nothing
  resolved-Steps (ok oid) =
      let P = OfRemote.OnRemote-IsPreorder H in
      Steps-bind P (demand oid) (λ bytes. pure (some bytes)) (demand-Steps oid)
        (λ bytes. Steps-pure P (some bytes))

  promisor-Steps : (rev path : Text) → Keeps (promisor_read rev path)
  unfolding promisor_read
  promisor-Steps rev path =
      let P = OfRemote.OnRemote-IsPreorder H in
      let entry : Act (Remote X) Text = on_mirror (λ m. Gitrepo.tree_entry_oid m rev path) in
      let found : Act (Remote X) (Option Bytes) = try entry >>= demand_resolved in
      Steps-bind P (if is_ref rev then ensure_promisor_probe rev else pure false)
        (λ usable. if usable then found else pure none)
        (OfRemote.pick-Steps H (is_ref rev) (ensure_promisor_probe rev) (pure false)
          (OfRemote.ensure_promisor_probe-Steps H rev) (Steps-pure P false))
        (λ usable.
          OfRemote.pick-Steps H usable found (pure none)
            (Steps-bind P (try entry) demand_resolved
              (Steps-try P entry (
                mirrored-Steps (λ m. Gitrepo.tree_entry_oid m rev path)
                  (λ m. OfBare.tree_entry_oid-Steps H m rev path)))
              resolved-Steps)
            (Steps-pure P nothing))

  -- A step that only a ref name takes, before a call on the mirror.
  guarded-Steps :
      {A : Type 0} (b : Bool) (m : Act (Remote X) (Unit {0})) (f : Bare → Sys X A)
      → Keeps m
      → ((repo : Bare) → Steps (OnMachine R) (f repo))
      → Keeps ((if b then m else pure tt) >> on_mirror f)
  guarded-Steps b m f h k =
      then-Steps (if b then m else pure tt) (on_mirror f)
        (OfRemote.pick-Steps H b m (pure tt) h done-Steps) (OfRemote.on_mirror-Steps H f k)

  full_read-Steps : (rev path : Text) → Keeps (full_read rev path)
  unfolding full_read
  full_read-Steps rev path =
      guarded-Steps (is_ref rev) (fetch_ref_full rev) (λ m. Gitrepo.read_blob_at m rev path)
        (fetch_full-Steps rev) (λ m. OfBare.read_blob_at-Steps H m rev path)

  pub read_blob_at-Steps : (rev path : Text) → Keeps (remote_read_blob_at rev path)
  unfolding remote_read_blob_at
  read_blob_at-Steps rev path =
      let P = OfRemote.OnRemote-IsPreorder H in
      let fallen : Option Bytes → Act (Remote X) Bytes =
        λ found. or_else found (full_read rev path) in
      let far : Act (Remote X) Bytes = promisor_read rev path >>= fallen in
      Steps-bind P (local_read rev path) (λ here. or_else here far) (local_read-Steps rev path)
        (λ here. or_else-Steps here far (
          Steps-bind P (promisor_read rev path) fallen (promisor-Steps rev path)
            (λ found. or_else-Steps found (full_read rev path) (full_read-Steps rev path))))

  pub rev_list-Steps : (tip : Text) → Keeps (remote_rev_list tip)
  unfolding remote_rev_list
  rev_list-Steps tip =
      let P = OfRemote.OnRemote-IsPreorder H in
      let listed : Act (Remote X) (List Text) = on_mirror (λ m. Gitrepo.rev_list m tip) in
      let fetched : Act (Remote X) (Unit {0}) = fetch_ref_full (codes "refs/heads/log") in
      Steps-bind P (try listed) (λ first. (if failed first then fetched else pure tt) >> listed)
        (Steps-try P listed
          (mirrored-Steps (λ m. Gitrepo.rev_list m tip) (λ m. OfBare.rev_list-Steps H m tip)))
        (λ first.
          guarded-Steps (failed first) fetched (λ m. Gitrepo.rev_list m tip)
            (fetch_full-Steps (codes "refs/heads/log")) (λ m. OfBare.rev_list-Steps H m tip))

  ensure_local-Steps : (refname : Text) → Keeps (ensure_ref_local refname)
  unfolding ensure_ref_local
  ensure_local-Steps refname =
      Steps-bind (OfRemote.OnRemote-IsPreorder H) (on_mirror (λ m. Gitrepo.read_ref m refname))
        (λ there. if is_some there then pure tt else fetch_ref_full refname)
        (mirrored-Steps (λ m. Gitrepo.read_ref m refname) (λ m. OfBare.read_ref-Steps H m refname))
        (λ there.
          OfRemote.pick-Steps H (is_some there) (pure tt) (fetch_ref_full refname) done-Steps
            (fetch_full-Steps refname))

  pub with_local-Steps :
      {A : Type 0} (rev : Text) (f : Bare → Sys X A)
      → ((m : Bare) → Steps (OnMachine R) (f m))
      → Keeps (with_ref_local rev f)
  unfolding with_ref_local
  with_local-Steps rev f h =
      guarded-Steps (is_ref rev) (ensure_ref_local rev) f (ensure_local-Steps rev) h
