-- ===== src/Engine/Commit/Returns.antt =====
-- A put's commit loop (src/engine.rs) that is left alone returns, at its first attempt.
use git_storage.Prelude.{
  ◌≡◌, refl, ap, sym, ◌∙◌, true, Option, none, some, List, [], ◌∷◌, length, ◌++◌,
}
use git_storage.Prelude.Text.{Bytes, Text, codes}
use git_storage.Prelude.Result.{ok_or, bad_payload}
use git_storage.Map.Order.{text_ord}
use git_storage.Backend.{Backend}
use git_storage.Backend.Laws.{
  IsName, Views, Grows, Quiet-trans, Grows-trans, IsGit, Known, AllThere, older, parents,
}
use git_storage.Crypto.Primitives.{Primitives}
use git_storage.Crypto.Keys.{aad, seal_manifest}
use git_storage.Engine.Txn.{Txn, delta, checkpoint, compact, StoreState, empty_state}
use git_storage.Engine.Replay.{Walk, walk, apply_tail, load_history}
use git_storage.Engine.Replay.Transparent.{IsChange}
use git_storage.Engine.Serde.{Serde}
use git_storage.Engine.Config.{Engine}
use git_storage.Engine.Monad.{World, M, on_index, draw, ◌>>=◌}
use git_storage.Engine.Load.{
  log_ref-IsBranch, txn-IsName, log_ref, read_txn, walk_step, walk_commits, load_from,
  load_full_state, build_commit,
}
use git_storage.Engine.Commit.{
  Holds, Reads, end, stop, more, Loads, Calm-trans, Loads-Grows, Holds-Grows, older-Grows,
}
use git_storage.Engine.Commit.Reading.{AllThere-Grows, loaded-walk}
use git_storage.Engine.Commit.Writing.{length-draw}
use git_storage.Engine.Commit.Alone.{
  Alone, Answers, Goes, Goes-bind, Ends, Ends-bind, pure-Goes, lift-Goes, on_index-Goes,
  fill_bytes-Goes, log_tip-Goes, bind-runs, with_index, on_index-runs,
}

abbrev or_nil : Option (List Text) → List Text
or_nil (some l) = l
or_nil none = []

module _ (P : Primitives) (S : Serde) {B : Backend} (V : Views B) (engine : Engine) where
  -- Without commits nothing is read.
  txns-nil :
      {r : B.Repo} {cs : List Text} {ts : List Txn} → Reads P S V engine r cs ts → cs ≡ [] → ts ≡ []
  txns-nil end e = refl
  txns-nil (stop h ends) e = cc
  txns-nil (more h is rest) e = cc

  -- The serializer writes the transaction, and the cipher encrypts it under every nonce.
  pub record Writes (txn : Txn) : Type 0 where
    pub plain : Bytes
    pub written : S.to_vec txn ≡ some plain
    pub sealed :
        (nonce : Bytes)
        → length nonce ≡ 24
        → (c : Bytes) × (P.encrypt engine.keys.manifest_key nonce aad plain ≡ some c)

  module _ (git : IsGit V) (answers : Answers V) where
    read_txn-Goes :
        (c : Text) (t : Txn) (w : World B)
        → Alone w
        → V.is_commit w.disks.index c ≡ true
        → Holds P S V engine w.disks.index c t
        → Goes V (read_txn P S engine c) w t
    unfolding read_txn
    read_txn-Goes c t w alone there h =
        let (s, call) =
          answers.read_blob_at c (codes "txn") w.disks.index h.sealed there h.stored in
        let (quiet, _) = git.read_blob_at-ok c (codes "txn") w.disks.index s h.sealed there call in
        Goes-bind V _ _ w h.sealed t (on_index-Goes V _ w h.sealed s alone call quiet)
          (λ u _ alone₁.
            Goes-bind V _ _ u h.plain t (lift-Goes V _ u h.plain alone₁ h.opened)
              (λ v _ alone₂. lift-Goes V _ v t alone₂ (ap (λ o. ok_or o bad_payload) h.decoded)))

    -- A change joins what the walk found before it.
    walk_step-Goes :
        (t : Txn) (before : M B Walk) (w : World B) (ts : List Txn)
        → IsChange t
        → Goes V before w (walk ts)
        → Goes V (walk_step P S engine t before) w (walk (t ∷ ts))
    unfolding walk_step walk
    walk_step-Goes (checkpoint n s) before w ts is g = absurd is
    walk_step-Goes (delta p d s) before w ts is g =
        Goes-bind V _ _ w (walk ts) _ g (λ v _ alone. pure-Goes V v _ alone)
    walk_step-Goes (compact d s p) before w ts is g =
        Goes-bind V _ _ w (walk ts) _ g (λ v _ alone. pure-Goes V v _ alone)

    -- A checkpoint ends the walk.
    walk_stop-Goes :
        (t : Txn) (before : M B Walk) (w : World B)
        → ¬ IsChange t
        → Alone w
        → Goes V (walk_step P S engine t before) w (walk (t ∷ []))
    unfolding walk_step walk
    walk_stop-Goes (checkpoint n s) before w ends alone = pure-Goes V w _ alone
    walk_stop-Goes (delta p d s) before w ends alone = absurd (ends tt)
    walk_stop-Goes (compact d s p) before w ends alone = absurd (ends tt)

    walk_commits-Goes :
        (r : B.Repo) {cs : List Text} {ts : List Txn} (w : World B)
        → Reads P S V engine r cs ts
        → Grows V r w.disks.index
        → AllThere V w.disks.index cs
        → Alone w
        → Goes V (walk_commits P S engine cs) w (walk ts)
    unfolding walk_commits
    walk_commits-Goes r w end g there alone = unfold walk in pure-Goes V w _ alone
    walk_commits-Goes r w (stop {c = c} {cs = cs} {ns = t} h ends) g (at_c, there) alone =
        Goes-bind V _ _ w t _ (read_txn-Goes c t w alone at_c (Holds-Grows P S V engine g h))
          (λ u _ alone₁. walk_stop-Goes t (walk_commits P S engine cs) u ends alone₁)
    walk_commits-Goes r w (more {c = c} {cs = cs} {t = t} {ts = ts} h is rest) g (at_c, there)
          alone =
        Goes-bind V _ _ w t _ (read_txn-Goes c t w alone at_c (Holds-Grows P S V engine g h))
          (λ u calm alone₁. walk_step-Goes t (walk_commits P S engine cs) u ts is (
            walk_commits-Goes r u rest (Grows-trans V g calm.quiet.grows)
              (AllThere-Grows V cs calm.quiet.grows there) alone₁))

    -- What a tip stands for is loaded from it.
    load_from-Goes :
        (tip : Option Text) (w : World B) (state : StoreState)
        → Alone w
        → Known V w.disks.index tip
        → Loads P S V engine w.disks.index tip state
        → Goes V (load_from P S engine tip) w state
    unfolding load_from
    load_from-Goes none w state alone known l =
        let nothing : l.txns ≡ [] = txns-nil l.read (λ i. or_nil (sym l.listed i)) in
        let is : state ≡ empty_state =
          l.built ∙ (ap load_history nothing ∙ unfold load_history walk apply_tail in refl) in
        rw is (pure-Goes V w empty_state alone)
    load_from-Goes (some tip) w state alone known l =
        let (s, call) = answers.rev_list tip w.disks.index l.commits (known tip refl) l.listed in
        let (quiet, _) = git.rev_list-ok tip w.disks.index s l.commits (known tip refl) call in
        Goes-bind V _ _ w l.commits state (on_index-Goes V _ w l.commits s alone call quiet)
          (λ u calm alone₁.
            let there =
              AllThere-Grows V l.commits calm.quiet.grows
                (git.listed w.disks.index tip l.commits l.listed) in
            Goes-bind V _ _ u (walk l.txns) state
              (walk_commits-Goes w.disks.index u l.read calm.quiet.grows there alone₁)
              (λ v _ alone₂.
                rw (l.built ∙ sym (loaded-walk (walk l.txns) l.txns refl))
                  (pure-Goes V v _ alone₂)))

    head-Known :
        (w : World B) (tip : Option Text)
        → V.IsPlain w.disks.index
        → V.ref w.disks.index log_ref ≡ tip
        → Known V w.disks.index tip
    head-Known w tip plain at c e =
        git.heads log_ref c w.disks.index plain log_ref-IsBranch (at ∙ e)

    Known-Grows : {r s : B.Repo} (tip : Option Text) → Grows V r s → Known V r tip → Known V s tip
    Known-Grows tip g known c e = g.commits c (known c e)

    pub load_now-Goes :
        (tip : Option Text) (w : World B) (state : StoreState)
        → Alone w
        → V.IsPlain w.disks.index
        → V.ref w.disks.index log_ref ≡ tip
        → Loads P S V engine w.disks.index tip state
        → Goes V (load_full_state P S engine none) w state
    unfolding load_full_state
    load_now-Goes tip w state alone plain at l =
        Goes-bind V _ _ w tip state (log_tip-Goes V git answers w tip alone plain at)
          (λ v calm alone₁.
            load_from-Goes tip v state alone₁
              (Known-Grows tip calm.quiet.grows (head-Known w tip plain at))
              (Loads-Grows P S V engine calm.quiet.grows l))

    pub load_full_state-Goes :
        (tip : Option Text) (w : World B) (state : StoreState)
        → Alone w
        → V.IsPlain w.disks.index
        → V.ref w.disks.index log_ref ≡ tip
        → Loads P S V engine w.disks.index tip state
        → Goes V (load_full_state P S engine tip) w state
    unfolding load_full_state
    load_full_state-Goes none w state alone plain at l = load_now-Goes none w state alone plain at l
    load_full_state-Goes (some tip) w state alone plain at l =
        load_from-Goes (some tip) w state alone (head-Known w (some tip) plain at) l

    -- The commit of a transaction that can be written is built.
    commit_blob-Ends :
        (payload : Bytes) (kind : Text) (tip : Option Text) (w : World B) (l : List Text)
        → Alone w
        → IsName kind
        → older V w.disks.index tip ≡ some l
        → Ends V
            (on_index (B.write_blob payload) >>= λ blob.
              on_index (B.write_tree ((codes "txn", blob) ∷ [])) >>= λ tree.
              on_index (B.commit_tree tree (parents tip) kind))
            w
    commit_blob-Ends payload kind tip w l alone letters past =
        let (blob, r, wrote) = answers.write_blob payload w.disks.index in
        let (quiet, at_blob) = git.write_blob-ok payload _ r blob wrote in
        let (tree, s, treed) = answers.write_tree (codes "txn") blob r payload txn-IsName at_blob in
        let (quiet₁, at_tree) =
          git.write_tree-ok (codes "txn") blob payload r s tree txn-IsName at_blob treed in
        let grown = Grows-trans V quiet.grows quiet₁.grows in
        let (c, t, made) =
          answers.commit_tree tree kind tip s ((codes "txn", blob) ∷ []) l letters at_tree
            (older-Grows P S V engine tip l grown past) in
        let (quiet₂, _, _) = git.commit_tree-ok tree kind tip s t c made in
        (
          c,
          record {
            to = with_index w t;
            runs =
                bind-runs _ _ w (with_index w r) blob (on_index-runs _ w blob r wrote)
                ∙ (bind-runs _ _ (with_index w r) (with_index w s) tree
                      (on_index-runs _ (with_index w r) tree s treed)
                    ∙ on_index-runs _ (with_index w s) c t made);
            calm = record {
              quiet = Quiet-trans V quiet (Quiet-trans V quiet₁ quiet₂);
              volumes = refl;
              rivals = refl;
            };
            alone = alone;
          },
        )

    pub build_commit-Ends :
        (txn : Txn) (tip : Option Text) (kind : Text) (w : World B) (l : List Text)
        → Alone w
        → IsName kind
        → Writes txn
        → older V w.disks.index tip ≡ some l
        → Ends V (build_commit P S engine txn tip kind) w
    unfolding build_commit seal_manifest
    build_commit-Ends txn tip kind w l alone letters writes past =
        Ends-bind V _ _ w writes.plain
          (lift-Goes V _ w writes.plain alone (ap (λ o. ok_or o bad_payload) writes.written))
          (λ u calm alone₁.
            let nonce = draw 24 u.drawn u.random in
            let (cipher, encrypted) = writes.sealed nonce (length-draw 24 u.drawn u.random) in
            Ends-bind V _ _ u nonce (fill_bytes-Goes V 24 u alone₁) (λ v calm₁ alone₂.
              Ends-bind V _ _ v (nonce ++ cipher)
                (lift-Goes V _ v (nonce ++ cipher) alone₂ (rw encrypted refl))
                (λ x calm₂ alone₃.
                  let all = Calm-trans V calm (Calm-trans V calm₁ calm₂) in
                  commit_blob-Ends (nonce ++ cipher) kind tip x l alone₃ letters
                    (older-Grows P S V engine tip l all.quiet.grows past))))
