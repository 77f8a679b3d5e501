-- ===== src/Engine/Sweep/Keeps.antt =====
-- `sweep_orphans` of src/engine.rs never deletes a segment that the state names.
use git_storage.Prelude.{
  ℕ, zero, suc, ◌+◌, ◌≡◌, refl, sym, ap, ◌∙◌, Bool, true, false, some, List, [], ◌∷◌, get_elem?,
  arith, Bool-cases, inl, inr, if◌then◌else◌,
}
use mathlib.Core.Path.{subst}
use git_storage.Prelude.Text.{Text, codes}
use git_storage.Prelude.Int.{ℤ, ltb_ℤ, saturating_sub}
use git_storage.Prelude.Result.{Result, ok, err, panicked}
use git_storage.Map.{contains_key}
use git_storage.Map.Order.{pair_ord}
use git_storage.Backend.{Backend}
use git_storage.Backend.Laws.{Views, DeletesOne}
use git_storage.Engine.Volumes.{Slot}
use git_storage.Engine.Monad.{Volume, World, M, pure, on_volume, on_volumes, ◌>>=◌, ◌>>◌, bind-ok}
use git_storage.Engine.Sweep.{Referenced, segment_name, sweep_refs, sweep_volumes}
use git_storage.Engine.Commit.Reading.{pure-ok}

module _ {B : Backend} (V : Views B) (referenced : Referenced) where
  -- A ref of a volume that a referenced segment is under.
  abbrev pub Named : Text → Text → Type 0
  Named id k = contains_key (id, segment_name k) referenced ≡ true

  -- The same volumes, and every ref of a referenced segment as it was.
  abbrev pub Kept : List (Volume B) → List (Volume B) → Type 0
  Kept [] [] = Unit
  Kept (v ∷ vs) (w ∷ ws) =
      (w.slot ≡ v.slot)
      × ((k : Text) → Named v.slot.id k → V.ref w.backend k ≡ V.ref v.backend k)
      × Kept vs ws
  Kept _ _ = ⊥

  Kept-refl : (vs : List (Volume B)) → Kept vs vs
  Kept-refl [] = tt
  Kept-refl (v ∷ vs) = (refl, λ k n. refl, Kept-refl vs)

  Kept-trans : (us vs ws : List (Volume B)) → Kept us vs → Kept vs ws → Kept us ws
  Kept-trans [] [] [] a b = tt
  Kept-trans [] [] (w ∷ ws) a b = absurd b
  Kept-trans [] (v ∷ vs) ws a b = absurd a
  Kept-trans (u ∷ us) [] ws a b = absurd a
  Kept-trans (u ∷ us) (v ∷ vs) [] a b = absurd b
  Kept-trans (u ∷ us) (v ∷ vs) (w ∷ ws) (s, f, a) (t, g, b) =
      (t ∙ s, λ k n. g k (rw s n) ∙ f k n, Kept-trans us vs ws a b)

  -- The volume at a place has this identity.
  abbrev pub IdAt : ℕ → Text → List (Volume B) → Type 0
  IdAt i id vs = (v : Volume B) → get_elem? vs i ≡ some v → v.slot.id ≡ id

  Kept-IdAt :
      (i : ℕ) (id : Text) (vs ws : List (Volume B)) → Kept vs ws → IdAt i id vs → IdAt i id ws
  Kept-IdAt i id [] [] k at w h = at w h
  Kept-IdAt i id [] (w ∷ ws) k at x h = absurd k
  Kept-IdAt i id (v ∷ vs) [] k at x h = absurd k
  Kept-IdAt zero id (v ∷ vs) (w ∷ ws) (s, f, k) at x h =
      let same : w ≡ x = cc in ap (λ y. y.slot.id) (sym same) ∙ ap (λ y. y.id) s ∙ at v refl
  Kept-IdAt (suc i) id (v ∷ vs) (w ∷ ws) (s, f, k) at x h = Kept-IdAt i id vs ws k at x h

  module _ {ℓ} {A : Type ℓ} (f : B.Repo → Result A × B.Repo) (a : A) (id : Text)
      (keeps : (r s : B.Repo)
        → f r ≡ (ok a, s)
        → (k : Text) → Named id k
        → V.ref s k ≡ V.ref r k) where
    on_volumes-Kept :
        (i : ℕ) (vs ws : List (Volume B))
        → IdAt i id vs
        → on_volumes i vs f ≡ (ok a, ws)
        → Kept vs ws
    unfolding on_volumes
    on_volumes-Kept i [] ws at h = absurd (let e : err panicked ≡ ok a = λ i. (h i).0 in cc)
    on_volumes-Kept zero (v ∷ vs) ws at h =
        subst (λ x. Kept (v ∷ vs) x) (λ i. (h i).1)
          (
            refl,
            λ k n.
                keeps v.backend (f v.backend).1 (λ i. ((h i).0, (f v.backend).1)) k
                  (rw⁻¹ (at v refl) n),
            Kept-refl vs,
          )
    on_volumes-Kept (suc i) (v ∷ vs) ws at h =
        subst (λ x. Kept (v ∷ vs) x) (λ i. (h i).1)
          (
            refl,
            λ k n. refl,
            on_volumes-Kept i vs (on_volumes i vs f).1 at (λ j. ((h j).0, (on_volumes i vs f).1)),
          )

    on_volume-Kept :
        (i : ℕ) (w v : World B)
        → IdAt i id w.disks.volumes
        → on_volume i f w ≡ (ok a, v)
        → Kept w.disks.volumes v.disks.volumes
    unfolding on_volume
    on_volume-Kept i w v at h =
        on_volumes-Kept i w.disks.volumes v.disks.volumes at (λ j. ((h j).0, (h j).1.disks.volumes))

  module _ (one : DeletesOne V) where
    -- A deletion of a ref that no referenced segment is under.
    delete_keeps :
        (id n : Text) (r s : B.Repo) (u : Unit {0})
        → contains_key (id, segment_name n) referenced ≡ false
        → B.delete_ref n r ≡ (ok u, s)
        → (k : Text) → Named id k
        → V.ref s k ≡ V.ref r k
    delete_keeps id n r s u free h k named =
        one.delete_ref-ok n r s u h k (λ e.
          let also : contains_key (id, segment_name n) referenced ≡ true = rw e at named in cc)

    abbrev pub KeptBy : World B → World B → Type 0
    KeptBy w v = Kept w.disks.volumes v.disks.volumes

    KeptBy-trans : (u v w : World B) → KeptBy u v → KeptBy v w → KeptBy u w
    KeptBy-trans u v w a b = Kept-trans u.disks.volumes v.disks.volumes w.disks.volumes a b

    KeptBy-IdAt :
        (i : ℕ) (id : Text) (v w : World B)
        → KeptBy v w
        → IdAt i id v.disks.volumes
        → IdAt i id w.disks.volumes
    KeptBy-IdAt i id v w k at = Kept-IdAt i id v.disks.volumes w.disks.volumes k at

    module _ (vi : ℕ) (id : Text) where
      -- The rest of a sweep keeps.
      abbrev Keeps : M B ℕ → Type 0
      Keeps m = (w v : World B) (n : ℕ) → IdAt vi id w.disks.volumes → m w ≡ (ok n, v) → KeptBy w v

      delete-Keeps :
          (name : Text) (rest : M B ℕ)
          → contains_key (id, segment_name name) referenced ≡ false
          → Keeps rest
          → Keeps (on_volume vi (B.delete_ref name) >> (rest >>= λ m. pure (m + 1)))
      delete-Keeps name rest free keeps w v n at h =
          let (u, x, e₁, h₁) = bind-ok _ _ w h in
          let (m, y, e₂, h₂) = bind-ok _ _ x h₁ in
          let (_, same) = pure-ok _ y v n h₂ in
          let first : KeptBy w x =
            on_volume-Kept (B.delete_ref name) u id
              (λ r s call. delete_keeps id name r s u free call) vi w x at e₁ in
          let second : KeptBy x y = keeps x y m (KeptBy-IdAt vi id w x first at) e₂ in
          let both : KeptBy w y = KeptBy-trans w x y first second in rw same both

      timed-Keeps :
          (name : Text) (rest : ℤ → M B ℕ)
          → ((time : ℤ) → Keeps (rest time))
          → Keeps (on_volume vi (B.commit_time name) >>= rest)
      timed-Keeps name rest keeps w v n at h =
          let (time, x, e₁, h₁) = bind-ok _ _ w h in
          let first : KeptBy w x =
            on_volume-Kept (B.commit_time name) time id
              (λ r s call k _. one.commit_time-ok name r s time call k) vi w x at e₁ in
          KeptBy-trans w x v first (keeps time x v n (KeptBy-IdAt vi id w x first at) h₁)

      if-Keeps : (b : Bool) (m k : M B ℕ) → Keeps m → Keeps k → Keeps (if b then m else k)
      if-Keeps true m k a c = a
      if-Keeps false m k a c = c

      sweep_refs-Keeps :
          (now window : ℤ) (refs : List (Text × Text))
          → Keeps (sweep_refs referenced now window vi id refs)
      unfolding sweep_refs
      sweep_refs-Keeps now window [] =
          λ w v n at h. let (_, same) = pure-ok _ w v n h in rw same (Kept-refl w.disks.volumes)
      sweep_refs-Keeps now window ((name, o) ∷ refs) =
          let rest = sweep_refs-Keeps now window refs in
          elim (Bool-cases (contains_key (id, segment_name name) referenced)) [
            | inl named ↦ rw named rest
            | inr free ↦ rw free (
                timed-Keeps name _ (λ time.
                  if-Keeps (ltb_ℤ (saturating_sub now time) window) _ _ rest
                    (delete-Keeps name (sweep_refs referenced now window vi id refs) free rest)))
          ]

    -- The slots of a list are those of the volumes from a place on.
    abbrev pub SlotsFrom : ℕ → List Slot → World B → Type 0
    SlotsFrom i vs w =
        (j p : ℕ) (s : Slot) → p ≡ i + j → get_elem? vs j ≡ some s → IdAt p s.id w.disks.volumes

    pub sweep_volumes-Kept :
        (now window : ℤ) (i : ℕ) (vs : List Slot) (w v : World B) (n : ℕ)
        → SlotsFrom i vs w
        → sweep_volumes referenced now window i vs w ≡ (ok n, v)
        → KeptBy w v
    unfolding sweep_volumes
    sweep_volumes-Kept now window i [] w v n at h =
        let (_, same) = pure-ok _ w v n h in rw same (Kept-refl w.disks.volumes)
    sweep_volumes-Kept now window i (s ∷ vs) w v n at h =
        let (refs, w₁, e₁, h₁) = bind-ok _ _ w h in
        let (here, w₂, e₂, h₂) = bind-ok _ _ w₁ h₁ in
        let (later, w₃, e₃, h₃) = bind-ok _ _ w₂ h₂ in
        let (_, same) = pure-ok _ w₃ v n h₃ in
        let at_i : IdAt i s.id w.disks.volumes = at 0 i s (omega arith) refl in
        let first : KeptBy w w₁ =
          on_volume-Kept (B.list_refs (codes "refs/segments/")) refs s.id
            (λ r t call k _. one.list_refs-ok (codes "refs/segments/") r t refs call k) i w w₁ at_i
            e₁ in
        let second : KeptBy w₁ w₂ =
          sweep_refs-Keeps i s.id now window refs w₁ w₂ here (KeptBy-IdAt i s.id w w₁ first at_i)
            e₂ in
        let both : KeptBy w w₂ = KeptBy-trans w w₁ w₂ first second in
        let next : SlotsFrom (i + 1) vs w₂ =
          λ j p t e there. KeptBy-IdAt p t.id w w₂ both (at (suc j) p t (omega arith) there) in
        let third : KeptBy w₂ w₃ = sweep_volumes-Kept now window (i + 1) vs w₂ w₃ later next e₃ in
        let all : KeptBy w w₃ = KeptBy-trans w w₂ w₃ both third in rw same all
