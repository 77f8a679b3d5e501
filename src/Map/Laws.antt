-- ===== src/Map/Laws.antt =====
-- What is read back after each operation of a map. No law asks for the keys to be in order.
use git_storage.Prelude.{◌≡◌, refl, Bool, true, false, none, some, [], ◌∷◌, if◌then◌else◌, arith}
use git_storage.Map.Order.{Ord}
use git_storage.Map.{Map, get, insert, retain, remove}

module _ {ℓ κ} {K : Type ℓ} {V : Type κ} ⦃o : Ord K⦄ where
  pub get-insert :
      (k j : K) (v : V) (m : Map K V)
      → get j (insert k v m) ≡ (if o.eqb k j then some v else get j m)
  unfolding get insert
  get-insert k j v [] = refl
  get-insert k j v ((i, w) ∷ m) =
      ground (arith, o.eqb_iff k j, o.eqb_iff i k, o.eqb_iff i j, get-insert k j v m)

  pub get-retain :
      (keep : K → Bool) (j : K) (m : Map K V)
      → get j (retain keep m) ≡ (if keep j then get j m else none)
  unfolding get retain
  get-retain keep j [] = ground arith
  get-retain keep j ((i, w) ∷ m) = ground (arith, o.eqb_iff i j, get-retain keep j m)

  pub get-remove :
      (k j : K) (m : Map K V) → get j (remove k m) ≡ (if o.eqb j k then none else get j m)
  unfolding remove
  get-remove k j m = ground (arith, get-retain (λ i. if o.eqb i k then false else true) j m)
