-- ===== src/Tests/Alone.antt =====
-- The commit loops alone on a log in memory, which answers every call that it should.
use git_storage.Prelude.{
  ◌≡◌, refl, ap, true, Bool-cases, inl, inr, Option, none, some, [], ◌∷◌, ◌++◌, length,
}
use git_storage.Prelude.Text.{Bytes, Text, codes, lessb, eqb, eqb_refl}
use git_storage.Prelude.Result.{ok}
use git_storage.Map.{get}
use git_storage.Map.Order.{text_ord}
use git_storage.Engine.Monad.{World}
use git_storage.Map.{contains_key, insert}
use git_storage.Map.Order.{pair_ord}
use git_storage.Crypto.Keys.{open_manifest}
use git_storage.Manifest.{same_manifest, same_chunk, same_chunks}
use git_storage.Engine.Load.{log_ref}
use git_storage.Engine.Replay.{walk, apply_tail, load_history}
use git_storage.Engine.Txn.{StoreState, empty_state, apply_txn, put_opt, remove_opt, insert_seals}
use git_storage.Engine.Put.{holds, put_txn, checkpoint_due, put_loop}
use git_storage.Engine.Remove.{remove_txn}
use git_storage.Engine.Commit.{Loads, end, more}
use git_storage.Engine.Commit.Returns.{Writes}
use git_storage.Engine.Commit.Alone.{Answers}
use git_storage.Engine.Commit.Uncontended.{
  PutEnds, RemoveEnds, put_loop-PutEnds, remove_file-RemoveEnds,
}
use git_storage.Tests.Fixtures.{plain_crates, plain_crates-IsSound}
use git_storage.Tests.Memory.{
  memory, views, empty, Memory, tree_object, blob_object, commit_object, found, same_tip, cas,
  append,
}
use git_storage.Tests.Memory.Laws.{memory-IsGit, past-older}
use git_storage.Tests.Worlds.{
  file_a, seal_a, small_serde, small_serde-IsFaithful, small_engine, start, start-Steady, put_a,
}

same_tip_refl : (o : Option Text) → same_tip o o ≡ true
same_tip_refl none = refl
same_tip_refl (some a) = eqb_refl a

memory-Answers : Answers views
memory-Answers = record {
  read_ref = λ n r plain branch. (r, refl);
  rev_list = λ c r l there h. (r, ap (λ o. found o r) h);
  read_blob_at = λ c p r b there h. (r, rw (there, h) refl);
  write_blob = λ b r. (length r.objects ∷ [], (append (blob_object b) r).1, refl);
  write_tree =
      λ p o r b name h. (length r.objects ∷ [], (append (tree_object ((p, o) ∷ [])) r).1, refl);
  commit_tree = λ t m tip r es l letters there h. (
    length r.objects ∷ [],
    (append (commit_object t ((length r.objects ∷ []) ∷ l)) r).1,
    rw (past-older r tip, h) refl,
  );
  cas_ref = λ n new r plain branch there.
      ((cas n new r true).1, ap (cas n new r) (same_tip_refl (get n r.refs)));
}

abbrev quiet_start : World memory
quiet_start = record start { rivals = [] }

nothing_logged : Loads plain_crates small_serde views small_engine empty none empty_state
unfolding load_history walk apply_tail
nothing_logged = record { commits = []; txns = []; listed = refl; read = end; built = refl }

nothing_at_tip :
    Loads plain_crates small_serde views small_engine empty (views.ref empty log_ref) empty_state
unfolding get
nothing_at_tip = nothing_logged

put_a-Writes :
    Writes plain_crates small_serde views small_engine
      (put_txn empty_state (codes "a") file_a (seal_a ∷ []) (checkpoint_due empty_state 4))
unfolding put_txn checkpoint_due eqb same_manifest same_chunks same_chunk
put_a-Writes = record { plain = 1 ∷ []; written = refl; sealed = λ nonce long. (1 ∷ [], refl) }

put_loop-PutEnds_example :
    (v : World memory) × (put_loop plain_crates small_serde small_engine 1
        (codes "a")
        file_a
        (seal_a ∷ [])
        quiet_start
      ≡ (ok true, v))
    × PutEnds plain_crates small_serde views small_engine file_a
        (seal_a ∷ [])
        empty_state
        quiet_start
        true
        v
unfolding holds get
put_loop-PutEnds_example =
    put_loop-PutEnds plain_crates small_serde views small_engine plain_crates-IsSound
      small_serde-IsFaithful memory-IsGit memory-Answers 0 file_a (seal_a ∷ []) quiet_start
      empty_state (refl, refl) (start-Steady).0 nothing_at_tip put_a-Writes

-- A log of one commit, which put the file.
abbrev sealed_a : Bytes
sealed_a = codes "a nonce of 24 characters" ++ 1 ∷ []

abbrev logged : Memory
logged = record {
  objects =
      blob_object sealed_a
      ∷ tree_object ((codes "txn", 0 ∷ []) ∷ [])
      ∷ commit_object (1 ∷ []) ((2 ∷ []) ∷ [])
      ∷ [];
  refs = (log_ref, 2 ∷ []) ∷ [];
}

abbrev logged_world : World memory
logged_world = record quiet_start { disks = record { index = logged; volumes = [] } }

abbrev logged_state : StoreState
logged_state = load_history (put_a ∷ [])

logged-IsPlain : views.IsPlain logged
unfolding get
logged-IsPlain n c h = elim (Bool-cases (eqb log_ref n)) [
  | inl e ↦ let g = rw e at h in let is : 2 ∷ [] ≡ c = cc in rw⁻¹ is refl
  | inr e ↦ absurd (let g = rw e at h in cc)
]

put_logged :
    Loads plain_crates small_serde views small_engine logged (views.ref logged log_ref) logged_state
unfolding get eqb open_manifest
put_logged = record {
  commits = (2 ∷ []) ∷ [];
  txns = put_a ∷ [];
  listed = refl;
  read =
      more
        (record { sealed = sealed_a; plain = 1 ∷ []; stored = refl; opened = refl; decoded = refl })
        tt end;
  built = refl;
}

remove_a-Writes :
    Writes plain_crates small_serde views small_engine
      (remove_txn logged_state (codes "a") (checkpoint_due logged_state 4))
unfolding remove_txn checkpoint_due eqb load_history walk apply_tail
remove_a-Writes = record { plain = 2 ∷ []; written = refl; sealed = λ nonce long. (2 ∷ [], refl) }

remove_file-RemoveEnds_example :
    RemoveEnds plain_crates small_serde views small_engine
      (codes "a")
      logged_state
      true
      logged_world
unfolding contains_key get load_history walk apply_tail apply_txn put_opt remove_opt insert
    insert_seals eqb lessb
remove_file-RemoveEnds_example =
    remove_file-RemoveEnds plain_crates small_serde views small_engine plain_crates-IsSound
      small_serde-IsFaithful memory-IsGit memory-Answers (codes "a") logged_world logged_state
      (refl, refl) logged-IsPlain put_logged remove_a-Writes
