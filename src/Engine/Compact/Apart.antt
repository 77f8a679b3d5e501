-- ===== src/Engine/Compact/Apart.antt =====
-- What a compaction (src/engine.rs) does to the volumes leaves the index repository alone.
use git_storage.Prelude.{
  ℕ, ◌≡◌, refl, ◌∙◌, Bool, true, false, Option, none, some, List, [], ◌∷◌, if◌then◌else◌,
}
use git_storage.Prelude.Text.{Text}
use git_storage.Prelude.Result.{Result, Error, ok, err}
use git_storage.Map.Order.{text_ord}
use git_storage.Manifest.{ChunkRef, Manifest}
use git_storage.Backend.{Backend}
use git_storage.Crypto.Primitives.{Primitives}
use git_storage.Engine.Monad.{World, M, pure, fail, lift, on_volume, try, continue, slots, ◌>>=◌}
use git_storage.Engine.Put.{write_segment}
use git_storage.Engine.Repoint.{IdSet, Live}
use git_storage.Engine.Compact.{
  read_chunk_ciphertext, rewrite_chunks, rewrite_files, rewrite_new, rewrite_live, rewrite,
  reclaim_rest, delete_refs, reclaim,
}

module _ {B : Backend} where
  -- Whatever its result, the action leaves the index and the other processes as they are.
  abbrev pub Apart {ℓ} : {A : Type ℓ} → M B A → Type 0
  Apart m = (w : World B) → ((m w).1.disks.index ≡ w.disks.index) × ((m w).1.rivals ≡ w.rivals)

  module _ {ℓ} {A : Type ℓ} where
    pure-Apart : (a : A) → Apart (pure a)
    unfolding pure
    pure-Apart a w = (refl, refl)

    lift-Apart : (r : Result A) → Apart (lift r)
    unfolding lift
    lift-Apart r w = (refl, refl)

    on_volume-Apart : (i : ℕ) (f : B.Repo → Result A × B.Repo) → Apart (on_volume i f)
    unfolding on_volume
    on_volume-Apart i f w = (refl, refl)

    try-Apart : (m : M B A) → Apart m → Apart (try m)
    unfolding try
    try-Apart m a w = a w

    if-Apart : (b : Bool) (m k : M B A) → Apart m → Apart k → Apart (if b then m else k)
    if-Apart true m k a c = a
    if-Apart false m k a c = c

  fail-Apart {ℓ} : (A : Type ℓ) (e : Error) → Apart (fail {A = A} e)
  unfolding fail
  fail-Apart A e w = (refl, refl)

  pub slots-Apart : Apart slots
  unfolding slots
  slots-Apart w = (refl, refl)

  module _ {ℓ κ} {A : Type ℓ} {C : Type κ} where
    continue-Apart :
        (r : Result A) (f : A → M B C) (w : World B)
        → ((a : A) → Apart (f a))
        → ((continue r f w).1.disks.index ≡ w.disks.index) × ((continue r f w).1.rivals ≡ w.rivals)
    unfolding continue
    continue-Apart (ok a) f w c = c a w
    continue-Apart (err e) f w c = (refl, refl)

    bind-Apart : (m : M B A) (f : A → M B C) → Apart m → ((a : A) → Apart (f a)) → Apart (m >>= f)
    unfolding ◌>>=◌
    bind-Apart m f a c w =
        let (index, rivals) = continue-Apart (m w).0 f (m w).1 c in
        (index ∙ (a w).0, rivals ∙ (a w).1)

  module _ (P : Primitives) where
    read_chunk_ciphertext-Apart : (vid seg id : Text) → Apart (read_chunk_ciphertext P vid seg id)
    unfolding read_chunk_ciphertext
    read_chunk_ciphertext-Apart vid seg id = bind-Apart slots _ slots-Apart (λ vs.
        bind-Apart (lift _) _ (lift-Apart _) (λ vi. bind-Apart (lift _) _ (lift-Apart _) (λ path.
          bind-Apart (on_volume vi _) _ (on_volume-Apart vi _)
            (λ c. if-Apart _ (pure c) (fail _) (pure-Apart c) (fail-Apart _ _)))))

    rewrite_chunks-Apart :
        (vid : Text) (dest : ℕ) (cs : List ChunkRef) (s : IdSet × List (Text × Text))
        → Apart (rewrite_chunks P vid dest cs s)
    unfolding rewrite_chunks
    rewrite_chunks-Apart vid dest [] s = pure-Apart s
    rewrite_chunks-Apart vid dest (c ∷ cs) (moved, entries) =
        if-Apart _ _ _
          (bind-Apart (read_chunk_ciphertext P vid c.seg c.id) _
            (read_chunk_ciphertext-Apart vid c.seg c.id)
            (λ ciphertext. bind-Apart (on_volume dest _) _ (on_volume-Apart dest _) (λ oid.
              bind-Apart (lift _) _ (lift-Apart _) (λ path. rewrite_chunks-Apart vid dest cs _))))
          (rewrite_chunks-Apart vid dest cs (moved, entries))

    rewrite_files-Apart :
        (vid : Text) (dest : ℕ) (ms : List Manifest) (s : IdSet × List (Text × Text))
        → Apart (rewrite_files P vid dest ms s)
    unfolding rewrite_files
    rewrite_files-Apart vid dest [] s = pure-Apart s
    rewrite_files-Apart vid dest (m ∷ ms) s =
        bind-Apart _ _ (rewrite_chunks-Apart vid dest m.chunks s)
          (λ s'. rewrite_files-Apart vid dest ms s')

  write_segment-Apart :
      (vi : ℕ) (seg message : Text) (entries : List (Text × Text))
      → Apart (write_segment vi seg message entries)
  unfolding write_segment
  write_segment-Apart vi seg message entries =
      bind-Apart (on_volume vi _) _ (on_volume-Apart vi _) (λ tree.
        bind-Apart (on_volume vi _) _ (on_volume-Apart vi _) (λ commit. on_volume-Apart vi _))

  delete_refs-Apart : (vi : ℕ) (refs : List (Text × Text)) → Apart (delete_refs vi refs)
  unfolding delete_refs
  delete_refs-Apart vi [] = pure-Apart tt
  delete_refs-Apart vi ((n, _) ∷ refs) =
      bind-Apart (on_volume vi _) _ (on_volume-Apart vi _) (λ _. delete_refs-Apart vi refs)

  reclaim_rest-Apart : (vi : ℕ) (destroyed : Result (Unit {0})) → Apart (reclaim_rest vi destroyed)
  unfolding reclaim_rest
  reclaim_rest-Apart vi (ok _) = on_volume-Apart vi B.recreate
  reclaim_rest-Apart vi (err _) =
      bind-Apart _ _ (on_volume-Apart vi _) (λ refs. delete_refs-Apart vi refs)

  pub reclaim-Apart : (vi : ℕ) → Apart (reclaim vi)
  unfolding reclaim
  reclaim-Apart vi =
      bind-Apart _ _ (try-Apart _ (on_volume-Apart vi B.destroy)) (reclaim_rest-Apart vi)

  module _ (P : Primitives) (vid : Text) (dest : ℕ) (seg : Text) (l : Live) where
    rewrite_new-Apart : (there : Option Text) → Apart (rewrite_new P vid dest seg l there)
    unfolding rewrite_new
    rewrite_new-Apart (some _) = pure-Apart tt
    rewrite_new-Apart none =
        bind-Apart _ _ (rewrite_files-Apart P vid dest l.affected ([], []))
          (λ s. write_segment-Apart dest seg _ s.1)

    rewrite_live-Apart : (ids : IdSet) → Apart (rewrite_live P vid dest seg l ids)
    unfolding rewrite_live
    rewrite_live-Apart [] = pure-Apart tt
    rewrite_live-Apart (_ ∷ _) = bind-Apart _ _ (on_volume-Apart dest _) rewrite_new-Apart

    pub rewrite-Apart : Apart (rewrite P vid dest seg l)
    unfolding rewrite
    rewrite-Apart = rewrite_live-Apart l.live_ids
