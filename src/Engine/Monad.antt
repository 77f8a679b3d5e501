-- ===== src/Engine/Monad.antt =====
-- The world that an engine acts on, and actions that may fail. What was written before an error
-- stays written, so the world comes back beside the error too: a crash is such an error.
use git_storage.Prelude.{
  ◌≡◌, refl, ℕ, zero, suc, ◌+◌, Option, none, some, List, [], ◌∷◌, map, if◌then◌else◌,
}
use git_storage.Prelude.Text.{Bytes, Text, codes, eqb}
use git_storage.Prelude.Int.{ℤ}
use git_storage.Prelude.Result.{Result, Error, ok, err, crashed, panicked}
use git_storage.Backend.{Backend}
use git_storage.Engine.Volumes.{Slot}

-- `thread_rng().fill_bytes(&mut [0u8; n])`
unfoldable pub draw : ℕ → ℕ → (ℕ → ℕ) → Bytes
draw zero from random = []
draw (suc n) from random = random from ∷ draw n (from + 1) random

module _ (B : Backend) where
  -- `VolumeHandle`
  pub record Volume : Type 0 where
    pub slot : Slot
    pub backend : B.Repo

  -- What processes share: the index repository and the volumes.
  pub record Disks : Type 0 where
    pub index : B.Repo
    pub volumes : List Volume

  -- `rivals` are the steps that other processes take meanwhile, in their order; `random` is the
  -- stream of `thread_rng`, of which `drawn` bytes are used; `now` is the wall clock; `env` are the
  -- variables of the environment.
  pub record World : Type 0 where
    pub disks : Disks
    pub rivals : List (Disks → Disks)
    pub random : ℕ → ℕ
    pub drawn : ℕ
    pub now : ℤ
    pub env : Text → Option Text

  abbrev pub M {ℓ} : Type ℓ → Type ℓ
  M A = World → Result A × World

module _ {B : Backend} where
  module _ {ℓ} {A : Type ℓ} where
    unfoldable pub pure : A → M B A
    pure a w = (ok a, w)

    unfoldable pub fail : Error → M B A
    fail e w = (err e, w)

    unfoldable pub lift : Result A → M B A
    lift r w = (r, w)

    -- A call on the index repository.
    unfoldable pub on_index : (B.Repo → Result A × B.Repo) → M B A
    on_index f w =
        let (r, index) = f w.disks.index in
        (r, record w { disks = record { index = index; volumes = w.disks.volumes } })

    -- A call on the volume at a place of the list.
    unfoldable pub on_volumes :
        ℕ → List (Volume B) → (B.Repo → Result A × B.Repo) → Result A × List (Volume B)
    on_volumes i [] f = (err panicked, [])
    on_volumes zero (v ∷ vs) f =
        let (r, backend) = f v.backend in (r, record { slot = v.slot; backend = backend } ∷ vs)
    on_volumes (suc i) (v ∷ vs) f = let (r, ws) = on_volumes i vs f in (r, v ∷ ws)

    unfoldable pub on_volume : ℕ → (B.Repo → Result A × B.Repo) → M B A
    unfolding on_volumes
    on_volume i f w =
        let (r, volumes) = on_volumes i w.disks.volumes f in
        (r, record w { disks = record { index = w.disks.index; volumes = volumes } })

    -- A call whose failure the caller looks at.
    unfoldable pub try : M B A → M B (Result A)
    try m w = let (r, w') = m w in (ok r, w')

  module _ {ℓ κ} {A : Type ℓ} {C : Type κ} where
    unfoldable pub continue : Result A → (A → M B C) → M B C
    continue (ok a) f w = f a w
    continue (err e) f w = (err e, w)

    infixl 5 ◌>>=◌
    unfoldable pub ◌>>=◌ : M B A → (A → M B C) → M B C
    unfolding continue
    ◌>>=◌ m f w = let (r, w') = m w in continue r f w'

  infixl 5 ◌>>◌
  abbrev pub ◌>>◌ {κ} : {C : Type κ} → M B (Unit {0}) → M B C → M B C
  m >> k = m >>= λ _. k

  unfoldable pub slots : M B (List Slot)
  slots w = (ok (map (λ v. v.slot) w.disks.volumes), w)

  unfoldable pub now_secs : M B ℤ
  now_secs w = (ok w.now, w)

  unfoldable pub env_vars : M B (Text → Option Text)
  env_vars w = (ok w.env, w)

  -- The next step of another process.
  unfoldable pub meanwhile : M B (Unit {0})
  meanwhile w = elim w.rivals [
    | [] ↦ (ok tt, w)
    | step ∷ rest ↦ (ok tt, record w { disks = step w.disks; rivals = rest })
  ]

  -- `maybe_crash`: the process dies where GITSTORAGE_CRASH names the point.
  unfoldable pub maybe_crash : Text → M B (Unit {0})
  maybe_crash point w = elim (w.env (codes "GITSTORAGE_CRASH")) [
    | none ↦ (ok tt, w)
    | some at ↦ if eqb at point then (err crashed, w) else (ok tt, w)
  ]

  -- `maybe_pause`: a sleep, in which other processes go on.
  unfoldable pub maybe_pause : Text → M B (Unit {0})
  unfolding meanwhile
  maybe_pause point w = elim (w.env (codes "GITSTORAGE_PAUSE")) [
    | none ↦ (ok tt, w)
    | some at ↦ if eqb at point then meanwhile w else (ok tt, w)
  ]

  unfoldable pub fill_bytes : ℕ → M B Bytes
  unfolding draw
  fill_bytes n w = (ok (draw n w.drawn w.random), record w { drawn = w.drawn + n })

  -- An action that succeeds is made of steps that succeed.
  module _ {ℓ κ} {A : Type ℓ} {C : Type κ} where
    pub bind-ok :
        (m : M B A) (f : A → M B C) (w : World B) {c : C} {w' : World B}
        → (m >>= f) w ≡ (ok c, w')
        → (a : A) × (v : World B) × (m w ≡ (ok a, v)) × (f a v ≡ (ok c, w'))
    unfolding ◌>>=◌
    bind-ok m f w h = split (m w) refl h
      where
        split :
            {c : C} {w' : World B} (r : Result A × World B)
            → m w ≡ r
            → continue r.0 f r.1 ≡ (ok c, w')
            → (a : A) × (v : World B) × (m w ≡ (ok a, v)) × (f a v ≡ (ok c, w'))
        split (ok a, v) e h = (a, v, e, h)
        split (err x, v) e h = cc
