-- ===== src/Engine/Volumes/Choice.antt =====
-- The choices of `select_volume` and of `select_compact_dest`.
use git_storage.Prelude.{
  ℕ, ◌+◌, ◌≤◌, ◌≡◌, refl, inl, inr, Bool, true, false, ◌&&◌, ◌||◌, not, Option, none, some, List,
  [], ◌∷◌, ◌++◌, length, get_elem?, get_elem?-middle, arith, length-append, Bool-cases, leb,
}
use mathlib.Core.List.{append_assoc}
use git_storage.Prelude.Text.{Text, eqb}
use git_storage.Prelude.Result.{Result, ok, err, budget_exhausted}
use git_storage.Engine.Txn.{SegIndex}
use git_storage.Engine.Volumes.{
  Slot, volume_used, saturating_add, select_from, chosen, select_volume, dest_from, spare_position,
  spare_first, index_of, select_compact_dest,
}
use git_storage.Engine.Volumes.Select.{CanTake, Best, search, Found, search-Found}

-- `select_volume` excludes the spare.
abbrev pub ordinary : Slot → Bool
ordinary v = v.spare

-- The second search of `select_compact_dest` also excludes the volume that retires.
abbrev pub other_than : Text → Slot → Bool
other_than retiring v = eqb v.id retiring || v.spare

select_from-search :
    (projected : ℕ) (index : SegIndex) (volumes : List Slot) (best : Option (ℕ × ℕ)) (i : ℕ)
    → select_from projected index best i volumes ≡ search ordinary projected index best i volumes
unfolding select_from search
select_from-search projected index [] best i = refl
select_from-search projected index (v ∷ volumes) best i =
    select_from-search projected index volumes _ (i + 1)

dest_from-search :
    (retiring : Text) (live : ℕ) (index : SegIndex) (volumes : List Slot) (best : Option (ℕ × ℕ))
    (i : ℕ)
    → dest_from retiring live index best i volumes
      ≡ search (other_than retiring) live index best i volumes
unfolding dest_from search
dest_from-search retiring live index [] best i = refl
dest_from-search retiring live index (v ∷ volumes) best i =
    dest_from-search retiring live index volumes _ (i + 1)

-- The promise of `select_volume`, by its result.
abbrev pub Selected : List Slot → ℕ → SegIndex → Result ℕ → Type 0
Selected volumes projected index (ok i) = (v : Slot) × Best ordinary projected index volumes i v
Selected volumes projected index (err e) =
    (e ≡ budget_exhausted)
    × ((j : ℕ) (w : Slot) → get_elem? volumes j ≡ some w → ¬ CanTake ordinary projected index w)

chosen-Selected :
    (volumes : List Slot) (projected : ℕ) (index : SegIndex) (best : Option (ℕ × ℕ))
    → Found ordinary projected index volumes best
    → Selected volumes projected index (chosen best)
unfolding chosen
chosen-Selected volumes projected index none f = (refl, f)
chosen-Selected volumes projected index (some (i, headroom)) f = f

-- A write goes to an ordinary volume that it does not take past its threshold: of those the one
-- with the most headroom, and of equals the one that is declared first, whatever its ID. It is
-- refused exactly when there is none.
pub select_volume-Selected :
    (volumes : List Slot) (projected : ℕ) (index : SegIndex)
    → Selected volumes projected index (select_volume volumes projected index)
unfolding select_volume
select_volume-Selected volumes projected index =
    rw (select_from-search projected index volumes none 0) (
      chosen-Selected volumes projected index (search ordinary projected index none 0 volumes)
        (search-Found ordinary projected index volumes))

spare_position-there :
    (retiring : Text) (seen volumes : List Slot) (i : ℕ) (v : Slot)
    → spare_position retiring (length seen) volumes ≡ some (i, v)
    → (get_elem? (seen ++ volumes) i ≡ some v) × (eqb v.id retiring ≡ false) × (v.spare ≡ true)
unfolding spare_position
spare_position-there retiring seen [] i v h = cc
spare_position-there retiring seen (w ∷ volumes) i v h =
    elim (Bool-cases (w.spare && not (eqb w.id retiring))) [
      | inl here ↦
          let h' = rw here at h in
          let at_end : i ≡ length seen = cc in
          let same : v ≡ w = cc in
          (rw (at_end, same) (get_elem?-middle seen w volumes), ground arith, ground arith)
      | inr later ↦
          let h' = rw later at h in
          let n : length seen + 1 ≡ length (seen ++ w ∷ []) =
            omega (arith, length-append seen (w ∷ [])) in
          rw (append_assoc seen (w ∷ []) volumes) at
            (spare_position-there retiring (seen ++ w ∷ []) volumes i v (rw n at h'))
    ]

-- The promise of `select_compact_dest`, by its result.
abbrev pub Destined : List Slot → Text → ℕ → SegIndex → Option ℕ → Type 0
Destined volumes retiring live index (some i) =
    (v : Slot) × (get_elem? volumes i ≡ some v)
    × (eqb v.id retiring ≡ false)
    × (saturating_add (volume_used v.id index) live ≤ v.threshold)
Destined volumes retiring live index none =
    (j : ℕ) (w : Slot) → get_elem? volumes j ≡ some w → ¬ CanTake (other_than retiring) live index w

module _ (volumes : List Slot) (retiring : Text) (live : ℕ) (index : SegIndex) where
  index_of-Destined :
      (best : Option (ℕ × ℕ))
      → Found (other_than retiring) live index volumes best
      → Destined volumes retiring live index (index_of best)
  unfolding index_of
  index_of-Destined none f = f
  index_of-Destined (some (i, headroom)) (v, b) =
      (v, b.there, ground (arith, b.can.allowed), b.can.fits)

  spare_first-Destined :
      (spare : Option (ℕ × Slot)) (other : Option ℕ)
      → spare_position retiring 0 volumes ≡ spare
      → Destined volumes retiring live index other
      → Destined volumes retiring live index (spare_first spare live index other)
  unfolding spare_first
  spare_first-Destined none other e f = f
  spare_first-Destined (some (i, v)) other e f =
      elim (Bool-cases (leb (saturating_add (volume_used v.id index) live) v.threshold)) [
        | inl room ↦
            let (there, apart, _) = spare_position-there retiring [] volumes i v e in
            rw room (v, there, apart, ground arith)
        | inr full ↦ rw full f
      ]

  -- A compaction moves live bytes to a volume that is not the one that retires and that they do not
  -- take past its threshold. Where it finds none, every ordinary volume but the one that retires
  -- is too full.
  pub select_compact_dest-Destined :
      Destined volumes retiring live index (select_compact_dest volumes retiring live index)
  unfolding select_compact_dest
  select_compact_dest-Destined = rw (dest_from-search retiring live index volumes none 0) (
      spare_first-Destined (spare_position retiring 0 volumes) _ refl (
        index_of-Destined (search (other_than retiring) live index none 0 volumes)
          (search-Found (other_than retiring) live index volumes)))
