-- ===== src/Map/Sorted.antt =====
-- The keys of a map are in order and distinct, and a map in order is known by what it holds.
use git_storage.Prelude.{
  ◌≡◌, refl, inl, inr, Bool, true, false, none, some, [], ◌∷◌, arith, Bool-cases,
}
use git_storage.Map.Order.{Ord}
use git_storage.Map.Laws.{get-insert}
use git_storage.Map.{Map, get, insert, retain}

module _ {ℓ} {K : Type ℓ} ⦃o : Ord K⦄ where
  same_key : (k j : K) → o.ltb k j ≡ false → o.ltb j k ≡ false → k ≡ j
  same_key k j e f = ground (arith, o.eqb_iff k j, o.ltb_total k j)

module _ {ℓ κ} {K : Type ℓ} {V : Type κ} ⦃o : Ord K⦄ where
  -- Every key is past `k`.
  abbrev pub Above : K → Map K V → Type 0
  Above k [] = Unit
  Above k ((j, _) ∷ m) = (o.ltb k j ≡ true) × Above k m

  abbrev pub IsSorted : Map K V → Type 0
  IsSorted [] = Unit
  IsSorted ((k, _) ∷ m) = Above k m × IsSorted m

  Above-insert :
      (i k : K) (v : V) (m : Map K V) → o.ltb i k ≡ true → Above i m → Above i (insert k v m)
  unfolding insert
  Above-insert i k v [] h a = (h, tt)
  Above-insert i k v ((j, w) ∷ m) h a = elim (Bool-cases (o.ltb k j)) [
    | inl e ↦ rw e (h, a)
    | inr e ↦ elim (Bool-cases (o.eqb j k)) [
      | inl p ↦ rw (e, p) (h, a.1)
      | inr p ↦ rw (e, p) (a.0, Above-insert i k v m h a.1)
    ]
  ]

  Above-trans : (i k : K) (m : Map K V) → o.ltb i k ≡ true → Above k m → Above i m
  Above-trans i k [] h a = tt
  Above-trans i k ((j, w) ∷ m) h a = (o.ltb_trans i k j h a.0, Above-trans i k m h a.1)

  pub insert-IsSorted : (k : K) (v : V) (m : Map K V) → IsSorted m → IsSorted (insert k v m)
  unfolding insert
  insert-IsSorted k v [] s = (tt, tt)
  insert-IsSorted k v ((j, w) ∷ m) s = elim (Bool-cases (o.ltb k j)) [
    | inl e ↦ rw e ((e, Above-trans k j m e s.0), s)
    | inr e ↦ elim (Bool-cases (o.eqb j k)) [
      | inl p ↦ rw (e, p) (rw ((o.eqb_iff j k).0 p) at s)
      | inr p ↦
          rw (e, p)
            (
              Above-insert j k v m (ground (arith, o.ltb_total k j, o.eqb_iff j k, o.eqb_iff k j))
                  s.0,
              insert-IsSorted k v m s.1,
            )
    ]
  ]

  Above-retain : (i : K) (keep : K → Bool) (m : Map K V) → Above i m → Above i (retain keep m)
  unfolding retain
  Above-retain i keep [] a = tt
  Above-retain i keep ((j, w) ∷ m) a = elim (Bool-cases (keep j)) [
    | inl e ↦ rw e (a.0, Above-retain i keep m a.1)
    | inr e ↦ rw e (Above-retain i keep m a.1)
  ]

  pub retain-IsSorted : (keep : K → Bool) (m : Map K V) → IsSorted m → IsSorted (retain keep m)
  unfolding retain
  retain-IsSorted keep [] s = tt
  retain-IsSorted keep ((j, w) ∷ m) s = elim (Bool-cases (keep j)) [
    | inl e ↦ rw e (Above-retain j keep m s.0, retain-IsSorted keep m s.1)
    | inr e ↦ rw e (retain-IsSorted keep m s.1)
  ]

  pub get_of_Above : (k : K) (m : Map K V) → Above k m → get k m ≡ none
  unfolding get
  get_of_Above k [] a = refl
  get_of_Above k ((j, w) ∷ m) a =
      ground (arith, o.eqb_iff j k, o.ltb_irrefl k, get_of_Above k m a.1)

  tail_agrees :
      (k i : K) (v : V) (m n : Map K V)
      → Above k m
      → Above k n
      → get i ((k, v) ∷ m) ≡ get i ((k, v) ∷ n)
      → get i m ≡ get i n
  unfolding get
  tail_agrees k i v m n a b h =
      ground (arith, o.eqb_iff k i, get_of_Above k m a, get_of_Above k n b)

  pub get_head : (k : K) (v : V) (m : Map K V) → get k ((k, v) ∷ m) ≡ some v
  unfolding get
  get_head k v m = ground (arith, o.eqb_iff k k)

  get_past :
      (k j : K) (w : V) (m : Map K V) → o.ltb k j ≡ true → Above j m → get k ((j, w) ∷ m) ≡ none
  get_past k j w m h a = get_of_Above k ((j, w) ∷ m) (h, Above-trans k j m h a)

  same_value :
      (k j : K) (v w : V) (m n : Map K V) → k ≡ j → get k ((k, v) ∷ m) ≡ get k ((j, w) ∷ n) → v ≡ w
  unfolding get
  same_value k j v w m n p h = ground (arith, o.eqb_iff k k, o.eqb_iff j k)

  -- Two maps in order that hold the same entries are the same list.
  pub IsSorted-ext :
      (m n : Map K V) → IsSorted m → IsSorted n → ((i : K) → get i m ≡ get i n) → m ≡ n
  IsSorted-ext [] [] s t h = refl
  IsSorted-ext [] ((j, w) ∷ n) s t h = cc (h j, get_head j w n, get_of_Above j [] tt)
  IsSorted-ext ((k, v) ∷ m) [] s t h = cc (h k, get_head k v m, get_of_Above k [] tt)
  IsSorted-ext ((k, v) ∷ m) ((j, w) ∷ n) s t h = elim (Bool-cases (o.ltb k j)) [
    | inl e ↦ absurd (cc (h k, get_head k v m, get_past k j w n e t.0))
    | inr e ↦ elim (Bool-cases (o.ltb j k)) [
      | inl f ↦ absurd (cc (h j, get_head j w n, get_past j k v m f s.0))
      | inr f ↦
          let p : k ≡ j = same_key k j e f in
          let q : v ≡ w = same_value k j v w m n p (h k) in
          let b : Above k n = rw p t.0 in
          let rest : m ≡ n =
            IsSorted-ext m n s.1 t.1 (λ i. tail_agrees k i v m n s.0 b (rw (← p, ← q) at (h i))) in
          cc
    ]
  ]

  -- The entries of one map written into another, in their order.
  unfoldable pub insert_all : Map K V → Map K V → Map K V
  insert_all [] acc = acc
  insert_all ((k, v) ∷ m) acc = insert_all m (insert k v acc)

  pub insert_all-IsSorted : (m acc : Map K V) → IsSorted acc → IsSorted (insert_all m acc)
  unfolding insert_all
  insert_all-IsSorted [] acc s = s
  insert_all-IsSorted ((k, v) ∷ m) acc s =
      insert_all-IsSorted m (insert k v acc) (insert-IsSorted k v acc s)

  get-insert_all :
      (i : K) (m acc : Map K V)
      → IsSorted m
      → get i (insert_all m acc) ≡ elim (get i m) [ none ↦ get i acc | some v ↦ some v ]
  unfolding insert_all get
  get-insert_all i [] acc s = refl
  get-insert_all i ((k, v) ∷ m) acc s = ground (
    arith,
    get-insert_all i m (insert k v acc) s.1,
    get-insert k i v acc,
    o.eqb_iff k i,
    get_of_Above k m s.0,
  )

  -- A map in order, written entry by entry into an empty one, is that map.
  pub insert_all-nil : (m : Map K V) → IsSorted m → insert_all m [] ≡ m
  unfolding get
  insert_all-nil m s =
      IsSorted-ext (insert_all m []) m (insert_all-IsSorted m [] tt) s
        (λ i. ground (arith, get-insert_all i m [] s))
