-- ===== src/Backend/Isolation/Served.antt =====
-- Every call of a remote backend (src/backend.rs) is isolated.
use git_storage.Prelude.{Bool, true, false, Option, none, some, ◌∷◌, ◌++◌}
use git_storage.Prelude.Text.{Text, codes}
use git_storage.Prelude.Str.{strip_prefix}
use git_storage.Prelude.Result.{refuse_destroy}
use git_storage.Process.{Machine, Act, Output, pure, lift, try, ◌>>=◌, ◌>>◌, on_files, change}
use git_storage.Process.Steps.{Steps, Steps-pure, Steps-fail, Steps-lift, Steps-try, Steps-bind}
use git_storage.Gitrepo
use git_storage.Gitrepo.{Bare, open_bare}
use git_storage.Backend.Calls.{
  Call, write_blob, write_tree, commit_tree, set_ref, cas_ref, delete_ref, read_ref, list_refs,
  read_blob_at, rev_list, ls_tree_sizes, commit_time, destroy, recreate, mirror_to, serve,
}
use git_storage.Backend.Network.{mirror_repo}
use git_storage.Backend.Remote.{
  Remote, on_backend, on_mirror, net, succeeded, throttle, fetch_all_refs,
}
use git_storage.Backend.Remote.Serve.{
  remote, remote_set_ref, follow, push_args, lease_args, remote_cas_ref, remote_delete_ref,
  destroy_dir, remote_destroy, set_mirror, recreate_dir, remote_recreate, remote_mirror_to,
}
use git_storage.Backend.Remote.Answers.{pushed}
use git_storage.Backend.Isolation.{Holds, OnMachine}
use git_storage.Backend.Isolation.Commands
use git_storage.Backend.Isolation.OfBare
use git_storage.Backend.Isolation.OfRemote
use git_storage.Backend.Isolation.Reading
use git_storage.Backend.Isolation.OfRemote.{OnRemote}

module _ {X : Machine} {R : X.State → X.State → Type 0} (H : Holds X R) where
  abbrev Keeps : {A : Type 0} → Act (Remote X) A → Type 0
  Keeps m = Steps (OnRemote R) m

  set_ref-Steps : (refname oid : Text) → Keeps (remote_set_ref refname oid)
  unfolding remote_set_ref
  set_ref-Steps refname oid =
      let push : Act (Remote X) (Unit {0}) =
        net (push_args (oid ++ b':' ∷ refname)) >>= succeeded in
      Reading.then-Steps H (on_mirror (λ m. Gitrepo.set_ref m refname oid)) (throttle >> push)
        (Reading.mirrored-Steps H (λ m. Gitrepo.set_ref m refname oid)
          (λ m. OfBare.set_ref-Steps H m refname oid))
        (Reading.then-Steps H throttle push (OfRemote.throttle-Steps H)
          (OfRemote.sent-Steps H (push_args (oid ++ b':' ∷ refname))))

  follow-Steps : (refname new : Text) (won : Bool) → Keeps (follow refname new won)
  unfolding follow
  follow-Steps refname new true =
      Reading.then-Steps H (on_mirror (λ m. Gitrepo.set_ref m refname new)) (pure true)
        (Reading.mirrored-Steps H (λ m. Gitrepo.set_ref m refname new)
          (λ m. OfBare.set_ref-Steps H m refname new))
        (Steps-pure (OfRemote.OnRemote-IsPreorder H) true)
  follow-Steps refname new false = Steps-pure (OfRemote.OnRemote-IsPreorder H) false

  cas_ref-Steps : (refname new : Text) (old : Option Text) → Keeps (remote_cas_ref refname new old)
  unfolding remote_cas_ref
  cas_ref-Steps refname new old =
      let P = OfRemote.OnRemote-IsPreorder H in
      let push = net (lease_args refname new old) in
      let answered : Output → Act (Remote X) Bool =
        λ out. lift (pushed out) >>= follow refname new in
      Reading.then-Steps H throttle (push >>= answered) (OfRemote.throttle-Steps H) (
        Steps-bind P push answered (OfRemote.net-Steps H (lease_args refname new old)) (λ out.
          Steps-bind P (lift (pushed out)) (follow refname new) (Steps-lift P (pushed out))
            (follow-Steps refname new)))

  delete_ref-Steps : (refname : Text) → Keeps (remote_delete_ref refname)
  unfolding remote_delete_ref
  delete_ref-Steps refname =
      let P = OfRemote.OnRemote-IsPreorder H in
      let dropped : Act (Remote X) (Unit {0}) = on_mirror (λ m. Gitrepo.delete_ref m refname) in
      let push : Act (Remote X) (Unit {0}) = net (push_args (b':' ∷ refname)) >>= succeeded in
      let cleaned : Act (Remote X) (Unit {0}) = try dropped >>= λ _. pure tt in
      Reading.then-Steps H throttle (push >> cleaned) (OfRemote.throttle-Steps H) (
        Reading.then-Steps H push cleaned (OfRemote.sent-Steps H (push_args (b':' ∷ refname))) (
          Steps-bind P (try dropped) (λ _. pure (tt {0}))
            (Steps-try P dropped (
              Reading.mirrored-Steps H (λ m. Gitrepo.delete_ref m refname)
                (λ m. OfBare.delete_ref-Steps H m refname)))
            (λ _. Reading.done-Steps H)))

  destroy_dir-Steps :
      (dir : Text) (o : Option Text) → Steps (OnMachine R) (destroy_dir {X = X} dir o)
  unfolding destroy_dir
  destroy_dir-Steps dir none =
      Steps-fail (Commands.OnMachine-IsPreorder H) (Unit {0}) refuse_destroy
  destroy_dir-Steps dir (some d) =
      Steps-bind (Commands.OnMachine-IsPreorder H) (on_files (X.remove_dir_all d))
        (λ _. on_files (X.remove_dir_all dir))
        (Commands.files-Steps H (X.remove_dir_all d) (H.remove_dir_all d))
        (λ _. Commands.files-Steps H (X.remove_dir_all dir) (H.remove_dir_all dir))

  destroy-Steps : Keeps remote_destroy
  unfolding remote_destroy
  destroy-Steps =
      OfRemote.on_backend-Steps H
        (λ b. destroy_dir b.mirror_dir (strip_prefix b.url (codes "file://")))
        (λ b. destroy_dir-Steps b.mirror_dir (strip_prefix b.url (codes "file://")))

  recreate_dir-Steps :
      (dir : Text) (o : Option Text) → Steps (OnMachine R) (recreate_dir {X = X} dir o)
  unfolding recreate_dir
  recreate_dir-Steps dir none = Steps-fail (Commands.OnMachine-IsPreorder H) Bare refuse_destroy
  recreate_dir-Steps dir (some d) =
      Steps-bind (Commands.OnMachine-IsPreorder H) (open_bare d) (λ _. open_bare dir)
        (OfBare.open_bare-Steps H d) (λ _. OfBare.open_bare-Steps H dir)

  set_mirror-Steps : (mirror : Bare) → Keeps (set_mirror mirror)
  unfolding set_mirror change
  set_mirror-Steps mirror s = H.preorder.same s.running.machine

  recreate-Steps : Keeps remote_recreate
  unfolding remote_recreate
  recreate-Steps =
      Steps-bind (OfRemote.OnRemote-IsPreorder H)
        (on_backend (λ b. recreate_dir b.mirror_dir (strip_prefix b.url (codes "file://"))))
        set_mirror
        (OfRemote.on_backend-Steps H
          (λ b. recreate_dir b.mirror_dir (strip_prefix b.url (codes "file://")))
          (λ b. recreate_dir-Steps b.mirror_dir (strip_prefix b.url (codes "file://"))))
        set_mirror-Steps

  mirror_to-Steps : (target_url : Text) → Keeps (remote_mirror_to target_url)
  unfolding remote_mirror_to
  mirror_to-Steps target_url =
      Reading.then-Steps H fetch_all_refs (on_backend (λ b. mirror_repo b.mirror_dir target_url))
        (Reading.fetch_all-Steps H)
        (OfRemote.on_backend-Steps H (λ b. mirror_repo b.mirror_dir target_url)
          (λ b. OfBare.mirror_repo-Steps H b.mirror_dir target_url))

  -- Whatever a remote backend is asked for, all that it does to the machine is to run git, isolated
  -- from the user's configuration and credentials, to create and remove files, and to sleep: a
  -- preorder that holds across those holds across the call.
  pub remote-Isolated :
      (call : Call) (s : Remote X) → R s.running.machine (serve (remote X) call s).running.machine
  unfolding serve
  remote-Isolated (write_blob bytes) s =
      Reading.mirrored-Steps H (λ m. Gitrepo.write_blob m bytes)
        (λ m. OfBare.write_blob-Steps H m bytes) s
  remote-Isolated (write_tree entries) s =
      Reading.mirrored-Steps H (λ m. Gitrepo.write_tree m entries)
        (λ m. OfBare.write_tree-Steps H m entries) s
  remote-Isolated (commit_tree tree parents message) s =
      Reading.mirrored-Steps H (λ m. Gitrepo.commit_tree m tree parents message)
        (λ m. OfBare.commit_tree-Steps H m tree parents message) s
  remote-Isolated (set_ref refname oid) s = set_ref-Steps refname oid s
  remote-Isolated (cas_ref refname new old) s = cas_ref-Steps refname new old s
  remote-Isolated (delete_ref refname) s = delete_ref-Steps refname s
  remote-Isolated (read_ref refname) s = Reading.read_ref-Steps H refname s
  remote-Isolated (list_refs prefix) s = Reading.list_refs-Steps H prefix s
  remote-Isolated (read_blob_at rev path) s = Reading.read_blob_at-Steps H rev path s
  remote-Isolated (rev_list tip) s = Reading.rev_list-Steps H tip s
  remote-Isolated (ls_tree_sizes rev) s =
      Reading.with_local-Steps H rev (λ m. Gitrepo.ls_tree_sizes m rev)
        (λ m. OfBare.ls_tree_sizes-Steps H m rev) s
  remote-Isolated (commit_time rev) s =
      Reading.with_local-Steps H rev (λ m. Gitrepo.commit_time m rev)
        (λ m. OfBare.commit_time-Steps H m rev) s
  remote-Isolated destroy s = destroy-Steps s
  remote-Isolated recreate s = recreate-Steps s
  remote-Isolated (mirror_to target_url) s = mirror_to-Steps target_url s
