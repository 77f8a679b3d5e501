-- ===== src/Engine/Sweep/Orphans.antt =====
-- `sweep_orphans` of src/engine.rs as a whole: which refs it leaves as they are.
use git_storage.Prelude.{
  ℕ, zero, suc, ◌≡◌, refl, sym, ap, ◌∙◌, ◌||◌, true, none, some, List, [], ◌∷◌, get_elem?, map,
  arith, Bool-cases, inl, inr,
}
use git_storage.Prelude.Text.{Text, eqb, eqb_iff}
use git_storage.Prelude.Str.{strip_prefix}
use git_storage.Prelude.Int.{ℤ}
use git_storage.Prelude.Result.{ok}
use git_storage.Map.{get, insert, contains_key, values}
use git_storage.Map.Order.{Ord, text_ord, pair_ord}
use git_storage.Map.Laws.{get-insert}
use git_storage.Manifest.{ChunkRef, Manifest}
use git_storage.Backend.{Backend}
use git_storage.Backend.Laws.{Views, DeletesOne}
use git_storage.Crypto.Primitives.{Primitives}
use git_storage.Engine.Txn.{StoreState, Namespace}
use git_storage.Engine.Serde.{Serde}
use git_storage.Engine.Config.{Engine}
use git_storage.Engine.Volumes.{Slot}
use git_storage.Engine.Monad.{Volume, World, M, slots, now_secs, ◌>>=◌, continue, bind-ok}
use git_storage.Engine.Load.{load_full_state}
use git_storage.Engine.Get.{segment_ref}
use git_storage.Engine.Sweep.{
  Referenced, refer_chunks, refer_manifests, segment_name, sweep_orphans,
}
use git_storage.Engine.Sweep.Keeps.{Named, Kept, SlotsFrom, sweep_volumes-Kept}

segment_name-segment_ref : (seg : Text) → segment_name (segment_ref seg) ≡ seg
unfolding segment_name segment_ref strip_prefix
segment_name-segment_ref seg = refl

module _ {ℓ} {K : Type ℓ} ⦃o : Ord K⦄ where
  contains_key-insert :
      (k j : K) (m : List (K × Unit {0})) (u : Unit {0})
      → contains_key j (insert k u m) ≡ (o.eqb k j || contains_key j m)
  unfolding contains_key
  contains_key-insert k j m u = ground (arith, get-insert k j u m)

refer_chunks-more :
    (cs : List ChunkRef) (r : Referenced) (key : Text × Text)
    → contains_key key r ≡ true
    → contains_key key (refer_chunks cs r) ≡ true
unfolding refer_chunks
refer_chunks-more [] r key h = h
refer_chunks-more (c ∷ cs) r key h =
    refer_chunks-more cs _ key (ground (arith, contains_key-insert (c.vol, c.seg) key r tt))

refer_chunks-chunk :
    (cs : List ChunkRef) (r : Referenced) (j : ℕ) (c : ChunkRef)
    → get_elem? cs j ≡ some c
    → contains_key (c.vol, c.seg) (refer_chunks cs r) ≡ true
unfolding refer_chunks
refer_chunks-chunk [] r j c h = cc
refer_chunks-chunk (d ∷ cs) r zero c h =
    let same : d ≡ c = cc in
    rw⁻¹ same (
      refer_chunks-more cs _ (d.vol, d.seg)
        (ground (
          arith,
          contains_key-insert (d.vol, d.seg) (d.vol, d.seg) r tt,
          eqb_iff d.vol d.vol,
          eqb_iff d.seg d.seg,
        )))
refer_chunks-chunk (d ∷ cs) r (suc j) c h = refer_chunks-chunk cs _ j c h

refer_manifests-more :
    (ms : List Manifest) (r : Referenced) (key : Text × Text)
    → contains_key key r ≡ true
    → contains_key key (refer_manifests ms r) ≡ true
unfolding refer_manifests
refer_manifests-more [] r key h = h
refer_manifests-more (m ∷ ms) r key h =
    refer_manifests-more ms _ key (refer_chunks-more m.chunks r key h)

-- The chunks of every file are referenced.
refer_manifests-chunk :
    (ns : Namespace) (r : Referenced) (name : Text) (m : Manifest) (j : ℕ) (c : ChunkRef)
    → get name ns ≡ some m
    → get_elem? m.chunks j ≡ some c
    → contains_key (c.vol, c.seg) (refer_manifests (values ns) r) ≡ true
unfolding get values refer_manifests
refer_manifests-chunk [] r name m j c h at_chunk = cc
refer_manifests-chunk ((k, w) ∷ ns) r name m j c h at_chunk = elim (Bool-cases (eqb k name)) [
  | inl e ↦
      let g = rw e at h in
      let same : w ≡ m = cc in
      refer_manifests-more (values ns) _ (c.vol, c.seg)
        (refer_chunks-chunk w.chunks r j c (rw same at_chunk))
  | inr e ↦ refer_manifests-chunk ns _ name m j c (rw e at h) at_chunk
]

module _ {B : Backend} where
  slot_of :
      (vs : List (Volume B)) (j : ℕ) (s : Slot) (v : Volume B)
      → get_elem? (map (λ x. x.slot) vs) j ≡ some s
      → get_elem? vs j ≡ some v
      → v.slot ≡ s
  slot_of [] j s v h k = cc
  slot_of (x ∷ vs) zero s v h k =
      let e : x ≡ v = cc in let f : x.slot ≡ s = cc in ap (λ y. y.slot) (sym e) ∙ f
  slot_of (x ∷ vs) (suc j) s v h k = slot_of vs j s v h k

  at_world :
      (f : ℤ → List Slot → M B ℕ) (u v : World B) (n : ℕ)
      → (now_secs >>= λ now. slots >>= λ vs. f now vs) u ≡ (ok n, v)
      → f u.now (map (λ x. x.slot) u.disks.volumes) u ≡ (ok n, v)
  unfolding now_secs slots ◌>>=◌ continue
  at_world f u v n h = h

module _ (P : Primitives) (S : Serde) {B : Backend} (V : Views B) (engine : Engine)
    (one : DeletesOne V) where
  -- Where the sweep of orphans returns, on any window, the volumes are those that it found, and each
  -- ref of a segment that the loaded state places on the volume is as it was; every chunk of every
  -- file of that state is in such a segment. Only a deletion changes a ref of a volume, its own.
  pub sweep_orphans-Kept :
      (window : ℤ) (w v : World B) (n : ℕ)
      → sweep_orphans P S engine window w ≡ (ok n, v)
      → (state : StoreState) × (u : World B) × (load_full_state P S engine none w ≡ (ok state, u))
        × Kept V (refer_manifests (values state.namespace) []) u.disks.volumes v.disks.volumes
        × ((name : Text) (m : Manifest) (j : ℕ) (c : ChunkRef)
            → get name state.namespace ≡ some m
            → get_elem? m.chunks j ≡ some c
            → Named V (refer_manifests (values state.namespace) []) c.vol (segment_ref c.seg))
  unfolding sweep_orphans
  sweep_orphans-Kept window w v n h =
      let (state, u, e₁, h₁) = bind-ok _ _ w h in
      let placed : SlotsFrom V (refer_manifests (values state.namespace) []) one 0
          (map (λ x. x.slot) u.disks.volumes) u =
        λ j p s e there x at.
          let same : p ≡ j = omega (arith, e) in
          ap (λ y. y.id) (slot_of u.disks.volumes j s x there (rw same at at)) in
      (
        state,
        u,
        e₁,
        sweep_volumes-Kept V (refer_manifests (values state.namespace) []) one u.now window 0
            (map (λ x. x.slot) u.disks.volumes) u v n placed (at_world _ u v n h₁),
        λ name m j c there at_chunk.
            rw (segment_name-segment_ref c.seg)
              (refer_manifests-chunk state.namespace [] name m j c there at_chunk),
      )
