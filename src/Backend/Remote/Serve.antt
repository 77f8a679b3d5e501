-- ===== src/Backend/Remote/Serve.antt =====
-- `impl Backend for RemoteBackend` (src/backend.rs).
use git_storage.Prelude.{Bool, true, false, Option, none, some, List, [], ◌∷◌, ◌++◌, if◌then◌else◌}
use git_storage.Prelude.Text.{Bytes, Text, codes}
use git_storage.Prelude.Str.{strip_prefix}
use git_storage.Prelude.Result.{Result, ok, err, refuse_destroy}
use git_storage.Process.{Machine, Sys, Act, pure, fail, lift, try, ◌>>=◌, ◌>>◌, on_files, change}
use git_storage.Gitrepo.{Bare, open_bare, old_or_zero}
use git_storage.Gitrepo
use git_storage.Backend.{Backend}
use git_storage.Backend.Network.{mirror_repo}
use git_storage.Backend.Remote.{
  RemoteBackend, Remote, on_backend, on_mirror, or_else, net, succeeded, throttle, fetch_ref_full,
  fetch_blob_by_oid, fetch_all_refs, ensure_promisor_probe, is_ref, promisor_supported, read_note,
}
use git_storage.Backend.Remote.Answers.{remote_ref, remote_refs, pushed}

abbrev pub is_some : Option Text → Bool
is_some none = false
is_some (some _) = true

abbrev pub to_option {ℓ} : {A : Type ℓ} → Result A → Option A
to_option (ok a) = some a
to_option (err e) = none

abbrev pub failed {ℓ} : {A : Type ℓ} → Result A → Bool
failed (ok a) = false
failed (err e) = true

unfoldable pub lease : Text → Option Text → Text
unfolding old_or_zero
lease refname old = codes "--force-with-lease=" ++ refname ++ b':' ∷ old_or_zero old

unfoldable pub ls_remote_args : Text → RemoteBackend → List Text
ls_remote_args pattern b = codes "ls-remote" ∷ b.url ∷ pattern ∷ []

-- A push of one refspec.
unfoldable pub push_args : Text → RemoteBackend → List Text
push_args spec b = codes "push" ∷ codes "--quiet" ∷ b.url ∷ spec ∷ []

unfoldable pub lease_args : Text → Text → Option Text → RemoteBackend → List Text
unfolding lease
lease_args refname new old b =
    codes "push" ∷ codes "--quiet" ∷ lease refname old ∷ b.url ∷ (new ++ b':' ∷ refname) ∷ []

module _ {X : Machine} where
  unfoldable pub remote_set_ref : Text → Text → Act (Remote X) (Unit {0})
  unfolding on_mirror Gitrepo.set_ref throttle net ◌>>=◌ succeeded push_args
  remote_set_ref refname oid =
      on_mirror (λ m. Gitrepo.set_ref m refname oid)
      >> (throttle >> (net (push_args (oid ++ b':' ∷ refname)) >>= succeeded))

  -- The mirror follows a swap that the remote made.
  unfoldable pub follow : Text → Text → Bool → Act (Remote X) Bool
  unfolding on_mirror Gitrepo.set_ref ◌>>=◌ pure
  follow refname new true = on_mirror (λ m. Gitrepo.set_ref m refname new) >> pure true
  follow refname new false = pure false

  unfoldable pub remote_cas_ref : Text → Text → Option Text → Act (Remote X) Bool
  unfolding throttle net ◌>>=◌ lift pushed follow lease_args
  remote_cas_ref refname new old =
      throttle
      >> (net (lease_args refname new old) >>= λ out. lift (pushed out) >>= follow refname new)

  unfoldable pub remote_delete_ref : Text → Act (Remote X) (Unit {0})
  unfolding throttle net ◌>>=◌ succeeded try on_mirror Gitrepo.delete_ref pure push_args
  remote_delete_ref refname =
      throttle
      >> ((net (push_args (b':' ∷ refname)) >>= succeeded)
          >> (try (on_mirror (λ m. Gitrepo.delete_ref m refname)) >>= λ _. pure tt))

  unfoldable pub remote_read_ref : Text → Act (Remote X) (Option Text)
  unfolding net ◌>>=◌ lift remote_ref ls_remote_args
  remote_read_ref refname = net (ls_remote_args refname) >>= λ out. lift (remote_ref out)

  unfoldable pub remote_list_refs : Text → Act (Remote X) (List (Text × Text))
  unfolding net ◌>>=◌ lift remote_refs ls_remote_args
  remote_list_refs prefix =
      net (ls_remote_args (prefix ++ b'*' ∷ [])) >>= λ out. lift (remote_refs out)

  -- The fast path of `read_blob_at`: what the mirror has.
  unfoldable pub local_read : Text → Text → Act (Remote X) (Option Bytes)
  unfolding on_mirror Gitrepo.read_ref Gitrepo.read_blob_at ◌>>=◌ try pure
  local_read rev path = on_mirror (λ m. Gitrepo.read_ref m rev) >>= λ there.
      if is_some there
      then (try (on_mirror (λ m. Gitrepo.read_blob_at m rev path)) >>= λ r. pure (to_option r))
      else pure none

  -- The blob of an identity, fetched where the mirror lacks it.
  unfoldable pub demand : Text → Act (Remote X) Bytes
  unfolding on_mirror Gitrepo.has_object Gitrepo.read_blob_by_oid fetch_blob_by_oid ◌>>=◌ pure
  demand oid = on_mirror (λ m. Gitrepo.has_object m oid) >>= λ there.
      (if there then pure tt else fetch_blob_by_oid oid)
      >> on_mirror (λ m. Gitrepo.read_blob_by_oid m oid)

  unfoldable pub demand_resolved : Result Text → Act (Remote X) (Option Bytes)
  unfolding demand ◌>>=◌ pure
  demand_resolved (err e) = pure none
  demand_resolved (ok oid) = demand oid >>= λ bytes. pure (some bytes)

  unfoldable pub promisor_read : Text → Text → Act (Remote X) (Option Bytes)
  unfolding ensure_promisor_probe on_mirror Gitrepo.tree_entry_oid try demand_resolved ◌>>=◌ pure
  promisor_read rev path =
      (if is_ref rev then ensure_promisor_probe rev else pure false) >>= λ usable.
      if usable
      then (try (on_mirror (λ m. Gitrepo.tree_entry_oid m rev path)) >>= demand_resolved)
      else pure none

  unfoldable pub full_read : Text → Text → Act (Remote X) Bytes
  unfolding fetch_ref_full on_mirror Gitrepo.read_blob_at ◌>>=◌ pure
  full_read rev path =
      (if is_ref rev then fetch_ref_full rev else pure tt)
      >> on_mirror (λ m. Gitrepo.read_blob_at m rev path)

  unfoldable pub remote_read_blob_at : Text → Text → Act (Remote X) Bytes
  unfolding local_read promisor_read full_read or_else ◌>>=◌
  remote_read_blob_at rev path = local_read rev path >>= λ here.
      or_else here (promisor_read rev path >>= λ found. or_else found (full_read rev path))

  unfoldable pub remote_rev_list : Text → Act (Remote X) (List Text)
  unfolding on_mirror Gitrepo.rev_list try fetch_ref_full ◌>>=◌ pure
  remote_rev_list tip = try (on_mirror (λ m. Gitrepo.rev_list m tip)) >>= λ first.
      (if failed first then fetch_ref_full (codes "refs/heads/log") else pure tt)
      >> on_mirror (λ m. Gitrepo.rev_list m tip)

  unfoldable pub ensure_ref_local : Text → Act (Remote X) (Unit {0})
  unfolding on_mirror Gitrepo.read_ref fetch_ref_full ◌>>=◌ pure
  ensure_ref_local refname = on_mirror (λ m. Gitrepo.read_ref m refname) >>= λ there.
      if is_some there then pure tt else fetch_ref_full refname

  unfoldable pub with_ref_local {ℓ} : {A : Type ℓ} → Text → (Bare → Sys X A) → Act (Remote X) A
  unfolding ensure_ref_local on_mirror ◌>>=◌ pure
  with_ref_local rev f = (if is_ref rev then ensure_ref_local rev else pure tt) >> on_mirror f

  -- The directory is that of a `file://` URL.
  unfoldable pub destroy_dir : Text → Option Text → Sys X (Unit {0})
  unfolding on_files ◌>>=◌ fail
  destroy_dir mirror_dir none = fail refuse_destroy
  destroy_dir mirror_dir (some dir) =
      on_files (X.remove_dir_all dir) >> on_files (X.remove_dir_all mirror_dir)

  unfoldable pub remote_destroy : Act (Remote X) (Unit {0})
  unfolding on_backend destroy_dir strip_prefix
  remote_destroy = on_backend (λ b. destroy_dir b.mirror_dir (strip_prefix b.url (codes "file://")))

  unfoldable pub set_mirror : Bare → Act (Remote X) (Unit {0})
  unfolding change
  set_mirror mirror = change (λ s. record s { backend = record (s.backend) { mirror = mirror } })

  unfoldable pub recreate_dir : Text → Option Text → Sys X Bare
  unfolding open_bare ◌>>=◌ fail
  recreate_dir mirror_dir none = fail refuse_destroy
  recreate_dir mirror_dir (some dir) = open_bare dir >>= λ _. open_bare mirror_dir

  unfoldable pub remote_recreate : Act (Remote X) (Unit {0})
  unfolding on_backend recreate_dir strip_prefix ◌>>=◌ set_mirror
  remote_recreate =
      on_backend (λ b. recreate_dir b.mirror_dir (strip_prefix b.url (codes "file://")))
      >>= set_mirror

  unfoldable pub remote_mirror_to : Text → Act (Remote X) (Unit {0})
  unfolding fetch_all_refs ◌>>=◌ on_backend mirror_repo
  remote_mirror_to target_url =
      fetch_all_refs >> on_backend (λ b. mirror_repo b.mirror_dir target_url)

abbrev pub remote : Machine → Backend
remote X = record {
  Repo = Remote X;
  write_blob = λ bytes. on_mirror (λ m. Gitrepo.write_blob m bytes);
  write_tree = λ entries. on_mirror (λ m. Gitrepo.write_tree m entries);
  commit_tree = λ tree parents message. on_mirror (λ m. Gitrepo.commit_tree m tree parents message);
  set_ref = remote_set_ref;
  cas_ref = remote_cas_ref;
  delete_ref = remote_delete_ref;
  read_ref = remote_read_ref;
  list_refs = remote_list_refs;
  read_blob_at = remote_read_blob_at;
  rev_list = remote_rev_list;
  ls_tree_sizes = λ rev. with_ref_local rev (λ m. Gitrepo.ls_tree_sizes m rev);
  commit_time = λ rev. with_ref_local rev (λ m. Gitrepo.commit_time m rev);
  destroy = remote_destroy;
  recreate = remote_recreate;
  mirror_to = remote_mirror_to;
  read_path_note = λ s. some (read_note (promisor_supported s.backend));
}
