-- ===== src/Map.antt =====
-- `std::collections::BTreeMap` and `BTreeSet`: lists of entries in the order of their keys.
-- The keys' order is an instance: `Ord Text` for strings, and `Ord (Text × Text)` for the
-- (volume, segment) pairs of the segment index.
pub mod Order
pub mod Laws
pub mod Sorted
use git_storage.Prelude.{Bool, Option, none, some, List, [], ◌∷◌, if◌then◌else◌, true, false}
use Order.{Ord}

abbrev pub Map {ℓ κ} : Type ℓ → Type κ → Type (ℓ ⊔ κ)
Map K V = List (K × V)

module _ {ℓ κ} {K : Type ℓ} {V : Type κ} ⦃o : Ord K⦄ where
  -- `map.get(&k)`
  unfoldable pub get : K → Map K V → Option V
  get k [] = none
  get k ((j, v) ∷ m) = if o.eqb j k then some v else get k m

  -- `map.insert(k, v)`
  unfoldable pub insert : K → V → Map K V → Map K V
  insert k v [] = (k, v) ∷ []
  insert k v ((j, w) ∷ m) =
      if o.ltb k j
      then (k, v) ∷ (j, w) ∷ m
      else if o.eqb j k
      then (k, v) ∷ m
      else (j, w) ∷ insert k v m

  -- `map.retain(|k, _| keep(k))`
  unfoldable pub retain : (K → Bool) → Map K V → Map K V
  retain keep [] = []
  retain keep ((j, w) ∷ m) = let rest = retain keep m in if keep j then (j, w) ∷ rest else rest

  -- `map.remove(&k)`
  unfoldable pub remove : K → Map K V → Map K V
  unfolding retain
  remove k = retain (λ j. if o.eqb j k then false else true)

  -- `map.contains_key(&k)`
  unfoldable pub contains_key : K → Map K V → Bool
  unfolding get
  contains_key k m = elim (get k m) [ none ↦ false | some _ ↦ true ]

  -- `map.values()`, in the order of the keys
  unfoldable pub values : Map K V → List V
  values [] = []
  values ((_, v) ∷ m) = v ∷ values m
