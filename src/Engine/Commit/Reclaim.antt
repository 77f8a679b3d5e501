-- ===== src/Engine/Commit/Reclaim.antt =====
-- `compact_one` of src/engine.rs reclaims a volume only after its retirement is in the log.
use mathlib.Core.Path.{subst}
use git_storage.Prelude.{
  map, ℕ, ◌≡◌, refl, sym, ap, ◌∙◌, Bool, true, false, not, Option, none, some, if◌then◌else◌,
}
use git_storage.Prelude.Text.{Text, codes}
use git_storage.Prelude.Result.{ok, ok_or, panicked}
use git_storage.Backend.{Backend}
use git_storage.Backend.Laws.{Views, IsGit}
use git_storage.Crypto.Primitives.{Primitives, IsSound}
use git_storage.Engine.Txn.{StoreState}
use git_storage.Engine.Serde.{Serde, IsFaithful}
use git_storage.Engine.Config.{Engine}
use git_storage.Engine.Volumes.{Slot, volume_used}
use git_storage.Engine.Monad.{World, M, pure, lift, slots, maybe_crash, ◌>>=◌, ◌>>◌, bind-ok}
use git_storage.Engine.Put.{max_cas_retries}
use git_storage.Engine.Get.{position}
use git_storage.Engine.Repoint.{Live, compact_segment_id}
use git_storage.Engine.Compact.{
  CompactedVolume, compacted, compact_seals, compact_to, reclaim, rewrite,
}
use git_storage.Engine.Compact.Apart.{Apart, rewrite-Apart, reclaim-Apart}
use git_storage.Engine.Commit.{Steady, maybe_crash-same}
use git_storage.Engine.Commit.Done.{CompactDone}
use git_storage.Engine.Commit.Outcome.{commit_compaction-CompactDone}
use git_storage.Engine.Commit.Reading.{lift-ok, pure-ok, ok_or-ok}

module _ {B : Backend} where
  Apart-ok {ℓ} :
      {A : Type ℓ} (m : M B A) (w v : World B) (a : A)
      → Apart m
      → m w ≡ (ok a, v)
      → (v.disks.index ≡ w.disks.index) × (v.rivals ≡ w.rivals)
  Apart-ok m w v a apart h =
      (ap (λ p. p.1.disks.index) (sym h) ∙ (apart w).0, ap (λ p. p.1.rivals) (sym h) ∙ (apart w).1)

module _ (P : Primitives) (S : Serde) {B : Backend} (V : Views B) (engine : Engine) where
  module _ (vid : Text) (base : StoreState) (l : Live) (dest : ℕ) (d : Slot) where
    -- The commit loop of the compaction, between two worlds.
    abbrev Committed : World B → Bool → World B → Type 0
    Committed =
        let seg = compact_segment_id P vid l.live_ids in
        CompactDone P S V engine vid d.id seg l.live_ids (compact_seals d.id seg l)

    -- The live chunks are rewritten, and the index is as it was.
    abbrev Rewritten : World B → World B → Type 0
    Rewritten w u =
        (rewrite P vid dest (compact_segment_id P vid l.live_ids) l w ≡ (ok tt, u))
        × (u.disks.index ≡ w.disks.index)

    -- The volume with this identifier is reclaimed, and the index is as it was.
    abbrev Emptied : World B → World B → Type 0
    Emptied x v =
        (src : ℕ) × (position vid 0 (map (λ v. v.slot) x.disks.volumes) ≡ some src)
        × (reclaim src x ≡ (ok tt, v))
        × (v.disks.index ≡ x.disks.index)

    -- By what a compaction of the volume reports, the phases in their order.
    abbrev pub Reclaimed : World B → Option CompactedVolume → World B → Type 0
    Reclaimed w none v = (u : World B) × Rewritten w u × Committed u false v
    Reclaimed w (some report) v =
        (u : World B) × (x : World B) × Rewritten w u
        × Committed u true x
        × Emptied x v
        × (report ≡ compacted vid d.id (volume_used vid base.seg_index) l)

    after_commit :
        (said : Bool) (w u x v : World B) (report : Option CompactedVolume)
        → (if not said
              then pure none
              else (maybe_crash (codes "compact-before-delete")
                  >> (slots >>= λ vs. lift (ok_or (position vid 0 vs) panicked) >>= λ src.
                      reclaim src
                      >> pure (some (compacted vid d.id (volume_used vid base.seg_index) l)))))
            x
          ≡ (ok report, v)
        → Rewritten w u
        → Committed u said x
        → Reclaimed w report v
    unfolding slots
    after_commit false w u x v report h ran done =
        let (is, same) = pure-ok _ x v report h in rw (is, same) (u, ran, done)
    after_commit true w u x v report h ran done =
        let (y₁, x₁, e₁, h₁) = bind-ok _ _ x h in
        let (vs, x₂, e₂, h₂) = bind-ok _ _ x₁ h₁ in
        let (src, x₃, e₃, h₃) = bind-ok _ _ x₂ h₂ in
        let (y₄, x₄, e₄, h₄) = bind-ok _ _ x₃ h₃ in
        let (is, same) = pure-ok _ x₄ v report h₄ in
        let alive : x₁ ≡ x = maybe_crash-same V (codes "compact-before-delete") x x₁ y₁ e₁ in
        let there : x₂ ≡ x₁ = sym (ap (λ p. p.1) e₂) in
        let found : ok (map (λ v. v.slot) x₁.disks.volumes) ≡ ok vs = ap (λ p. p.0) e₂ in
        let (at_src, lifted) = lift-ok _ x₂ x₃ src e₃ in
        let same_x : x₃ ≡ x = lifted ∙ there ∙ alive in
        let placed : position vid 0 vs ≡ some src = ok_or-ok _ panicked src at_src in
        let listed : map (λ v. v.slot) x₁.disks.volumes ≡ vs = cc in
        let position_is : position vid 0 (map (λ v. v.slot) x.disks.volumes) ≡ some src =
          subst (λ z. position vid 0 (map (λ v. v.slot) z.disks.volumes) ≡ some src) alive
            (rw listed placed) in
        let reclaimed : reclaim src x ≡ (ok tt, x₄) =
          subst (λ z. reclaim src z ≡ (ok tt, x₄)) same_x e₄ in
        let (index, _) = Apart-ok (reclaim src) x x₄ tt (reclaim-Apart src) reclaimed in
        rw (is, same) (u, x, ran, done, (src, position_is, reclaimed, index), refl)

  module _ (sound : IsSound P) (faithful : IsFaithful S) (git : IsGit V) where
    -- With sound crates, a faithful serializer, a git that behaves as it documents, and a log whose
    -- refs are plain, which other processes leave so, only adding objects and never removing the
    -- log: where a compaction of a volume reports that it was done, it first rewrote the live chunks,
    -- which left the index as it was; from there its commit loop said that it committed, and did
    -- what such a loop does; and from there it reclaimed the volume with that identifier, which left
    -- the index as it was. Where it reports nothing, it rewrote the chunks, and from there the process
    -- moved no ref of the index and touched no volume.
    pub compact_to-Reclaimed :
        (vid : Text) (base : StoreState) (l : Live) (dest : ℕ) (d : Slot) (w v : World B)
        (report : Option CompactedVolume)
        → Steady V w
        → compact_to P S engine vid base l dest d w ≡ (ok report, v)
        → Reclaimed vid base l dest d w report v
    unfolding compact_to
    compact_to-Reclaimed vid base l dest d w v report (plain, g) h =
        let seg = compact_segment_id P vid l.live_ids in
        let (x₁, w₁, e₁, h₁) = bind-ok (rewrite P vid dest seg l) _ w h in
        let (x₂, w₂, e₂, h₂) = bind-ok _ _ w₁ h₁ in
        let (said, w₃, e₃, h₃) = bind-ok _ _ w₂ h₂ in
        let (index₁, rivals₁) =
          Apart-ok (rewrite P vid dest seg l) w w₁ x₁ (rewrite-Apart P vid dest seg l) e₁ in
        let alive : w₂ ≡ w₁ = maybe_crash-same V _ w₁ w₂ x₂ e₂ in
        let g₁ : Steady V w₁ = (rw index₁ plain, rw rivals₁ g) in
        let ran = rw alive at e₃ in
        let done =
          commit_compaction-CompactDone P S V engine sound faithful git max_cas_retries vid d.id seg
            l.live_ids (compact_seals d.id seg l) w₁ w₃ said g₁ ran in
        after_commit vid base l dest d said w w₁ w₃ v report h₃ (e₁, index₁) done
