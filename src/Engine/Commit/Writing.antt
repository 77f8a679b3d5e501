-- ===== src/Engine/Commit/Writing.antt =====
-- A commit that was built holds its transaction on top of its tip, and building it changes no ref.
use git_storage.Prelude.{ℕ, zero, suc, ◌+◌, ◌≡◌, refl, ap, Option, some, List, [], ◌∷◌, length}
use mathlib.Core.Path.{subst}
use git_storage.Prelude.Text.{Bytes, Text, codes, eqb}
use git_storage.Prelude.Result.{ok, bad_payload}
use git_storage.Map.{get}
use git_storage.Map.Order.{text_ord}
use git_storage.Backend.{Backend}
use git_storage.Backend.Laws.{Views, Quiet-refl, IsGit, older}
use git_storage.Crypto.Primitives.{Primitives, IsSound}
use git_storage.Crypto.Keys.Laws.{open_manifest-seal_manifest}
use git_storage.Engine.Txn.{Txn}
use git_storage.Engine.Serde.{Serde, IsFaithful}
use git_storage.Engine.Config.{Engine}
use git_storage.Engine.Monad.{World, draw, fill_bytes, bind-ok}
use git_storage.Engine.Load.{txn-IsName, build_commit}
use git_storage.Engine.Commit.{Holds, older-Grows, Calm, Calm-trans, on_index-ok}
use git_storage.Engine.Commit.Reading.{lift-ok, ok_or-ok, Calm-on_index}

pub length-draw : (n from : ℕ) (random : ℕ → ℕ) → length (draw n from random) ≡ n
unfolding draw
length-draw zero from random = refl
length-draw (suc n) from random = ap suc (length-draw n (from + 1) random)

module _ {B : Backend} (V : Views B) where
  fill_bytes-ok :
      (n : ℕ) (w v : World B) (b : Bytes) → fill_bytes n w ≡ (ok b, v) → (length b ≡ n) × Calm V w v
  unfolding fill_bytes
  fill_bytes-ok n w v b h =
      let same : ok (draw n w.drawn w.random) ≡ ok b = λ i. (h i).0 in
      let b_is : b ≡ draw n w.drawn w.random = cc in
      (
        rw b_is (length-draw n w.drawn w.random),
        subst (λ x. Calm V w x) (λ i. (h i).1)
            (record { quiet = Quiet-refl V w.disks.index; volumes = refl; rivals = refl }),
      )

pub txn_entry : (blob : Text) → get (codes "txn") ((codes "txn", blob) ∷ []) ≡ some blob
unfolding get eqb
txn_entry blob = refl

module _ (P : Primitives) (S : Serde) {B : Backend} (V : Views B) (engine : Engine) where
  module _ (sound : IsSound P) (faithful : IsFaithful S) (git : IsGit V) where
    pub build_commit-Holds :
        (txn : Txn) (tip : Option Text) (kind : Text) (w v : World B) (c : Text)
        → build_commit P S engine txn tip kind w ≡ (ok c, v)
        → Calm V w v
          × ((l : List Text)
              → older V w.disks.index tip ≡ some l
              → V.history v.disks.index c ≡ some (c ∷ l))
          × Holds P S V engine v.disks.index c txn
    unfolding build_commit
    build_commit-Holds txn tip kind w v c h =
        let (bytes, w₁, e₁, h₁) = bind-ok _ _ w h in
        let (nonce, w₂, e₂, h₂) = bind-ok _ _ w₁ h₁ in
        let (payload, w₃, e₃, h₃) = bind-ok _ _ w₂ h₂ in
        let (blob, w₄, e₄, h₄) = bind-ok _ _ w₃ h₃ in
        let (tree, w₅, e₅, h₅) = bind-ok _ _ w₄ h₄ in
        let (wrote, same₁) = lift-ok _ w w₁ bytes e₁ in
        let (long, drawn) = fill_bytes-ok V 24 w₁ w₂ nonce e₂ in
        let (sealed, same₃) = lift-ok _ w₂ w₃ payload e₃ in
        let (call₄, vols₄, rivals₄) = on_index-ok V _ w₃ w₄ blob e₄ in
        let (call₅, vols₅, rivals₅) = on_index-ok V _ w₄ w₅ tree e₅ in
        let (call, vols, rivals) = on_index-ok V _ w₅ v c h₅ in
        let (quiet₄, at_blob) = git.write_blob-ok payload _ _ blob call₄ in
        let (quiet₅, at_tree) =
          git.write_tree-ok (codes "txn") blob payload _ _ tree txn-IsName at_blob call₅ in
        let (quiet, at_history, at_file) = git.commit_tree-ok tree kind tip _ _ c call in
        let calm₃ : Calm V w w₃ = rw same₃ (rw same₁ at drawn) in
        let calm₅ = Calm-trans V calm₃ (
          Calm-trans V (Calm-on_index V w₃ w₄ quiet₄ vols₄ rivals₄)
            (Calm-on_index V w₄ w₅ quiet₅ vols₅ rivals₅)) in
        (
          Calm-trans V calm₅ (Calm-on_index V w₅ v quiet vols rivals),
          λ l before. at_history l (older-Grows P S V engine tip l calm₅.quiet.grows before),
          record {
            sealed = payload;
            plain = bytes;
            stored =
                at_file ((codes "txn", blob) ∷ []) (codes "txn") blob payload at_tree
                  (txn_entry blob) (quiet₅.grows.blobs blob payload at_blob);
            opened =
                open_manifest-seal_manifest P sound engine.keys nonce bytes payload long sealed;
            decoded = faithful.from_slice-to_vec txn bytes (ok_or-ok _ bad_payload bytes wrote);
          },
        )
