-- ===== src/Engine/Volumes/Select.antt =====
-- Where a segment may go: the budget wall, and the choice among the volumes that can take it.
use git_storage.Prelude.{
  ℕ, ◌+◌, ◌-◌, ◌≤◌, ◌<◌, ◌≡◌, refl, ◌⊎◌, inl, inr, Bool, false, Option, none, some, List, [], ◌∷◌,
  ◌++◌, length, ltb, leb, get_elem?, get_elem?-snoc, get_elem?-lt, arith, length-append, Bool-cases,
}
use mathlib.Core.List.{append-nil, append_assoc}
use git_storage.Engine.Txn.{SegIndex}
use git_storage.Engine.Volumes.{Slot, volume_used, saturating_add, better, consider}

-- `excluded` is what the search never takes: the spare, and for a compaction the volume that retires.
module _ (excluded : Slot → Bool) (projected : ℕ) (index : SegIndex) where
  -- The volume is not excluded, and the segment does not take it past its threshold.
  pub record CanTake (v : Slot) : Type 0 where
    pub allowed : excluded v ≡ false
    pub fits : saturating_add (volume_used v.id index) projected ≤ v.threshold

  -- The headroom of the best volume of a list, from the left: the first of those with the most.
  -- Its place is in `volumes`; every volume before it that can take the segment has less headroom,
  -- and none after it has more.
  pub record Best (volumes : List Slot) (i : ℕ) (v : Slot) : Type 0 where
    pub there : get_elem? volumes i ≡ some v
    pub can : CanTake v
    pub most :
        (j : ℕ) (w : Slot)
        → get_elem? volumes j ≡ some w
        → CanTake w
        → w.threshold - volume_used w.id index ≤ v.threshold - volume_used v.id index
    pub first :
        (j : ℕ) (w : Slot)
        → get_elem? volumes j ≡ some w
        → CanTake w
        → j < i
        → w.threshold - volume_used w.id index < v.threshold - volume_used v.id index

  -- What the search holds after the volumes of `seen`.
  abbrev BestOf : List Slot → Option (ℕ × ℕ) → Type 0
  BestOf seen none = (j : ℕ) (w : Slot) → get_elem? seen j ≡ some w → ¬ CanTake w
  BestOf seen (some (i, headroom)) =
      (v : Slot) × Best seen i v × (headroom ≡ v.threshold - volume_used v.id index)

  -- A volume at a place of a longer list is an old one or the new one.
  snoc_cases :
      (seen : List Slot) (v w : Slot) (j : ℕ)
      → get_elem? (seen ++ v ∷ []) j ≡ some w
      → ((get_elem? seen j ≡ some w) × (j < length seen)) ⊎ ((v ≡ w) × (j ≡ length seen))
  snoc_cases seen v w j h = ground (arith, get_elem?-snoc seen v j)

  skip :
      (seen : List Slot) (best : Option (ℕ × ℕ)) (v : Slot)
      → (¬ CanTake v)
      → BestOf seen best
      → BestOf (seen ++ v ∷ []) best
  skip seen none v no_room b = λ j w h can. elim (snoc_cases seen v w j h) [
    | inl (old, _) ↦ b j w old can
    | inr (new, _) ↦ no_room (rw new can)
  ]
  skip seen (some (i, headroom)) v no_room (u, b, e) = (
    u,
    record {
      there = rw (get_elem?-snoc seen v i) (ground (arith, b.there, get_elem?-lt seen i b.there));
      can = b.can;
      most = λ j w h can. elim (snoc_cases seen v w j h) [
        | inl (old, _) ↦ b.most j w old can
        | inr (new, _) ↦ absurd (no_room (rw new can))
      ];
      first = λ j w h can lt. elim (snoc_cases seen v w j h) [
        | inl (old, _) ↦ b.first j w old can lt
        | inr (new, _) ↦ absurd (no_room (rw new can))
      ];
    },
    e,
  )

  take_new :
      (seen : List Slot) (v : Slot)
      → CanTake v
      → ((j : ℕ) (w : Slot)
          → get_elem? seen j ≡ some w
          → CanTake w
          → w.threshold - volume_used w.id index < v.threshold - volume_used v.id index)
      → BestOf (seen ++ v ∷ []) (some (length seen, v.threshold - volume_used v.id index))
  take_new seen v can lead = (
    v,
    record {
      there = rw (get_elem?-snoc seen v (length seen)) (ground arith);
      can = can;
      most = λ j w h c. elim (snoc_cases seen v w j h) [
        | inl (old, _) ↦ omega (arith, lead j w old c)
        | inr (new, _) ↦ rw new (omega arith)
      ];
      first = λ j w h c lt. elim (snoc_cases seen v w j h) [
        | inl (old, _) ↦ lead j w old c
        | inr (_, at_end) ↦ absurd (omega arith)
      ];
    },
    refl,
  )

  keep_old :
      (seen : List Slot) (i headroom : ℕ) (v : Slot)
      → v.threshold - volume_used v.id index ≤ headroom
      → BestOf seen (some (i, headroom))
      → BestOf (seen ++ v ∷ []) (some (i, headroom))
  keep_old seen i headroom v le (u, b, e) = (
    u,
    record {
      there = rw (get_elem?-snoc seen v i) (ground (arith, b.there, get_elem?-lt seen i b.there));
      can = b.can;
      most = λ j w h can. elim (snoc_cases seen v w j h) [
        | inl (old, _) ↦ b.most j w old can
        | inr (new, _) ↦ rw (← new) (omega arith)
      ];
      first = λ j w h can lt. elim (snoc_cases seen v w j h) [
        | inl (old, _) ↦ b.first j w old can lt
        | inr (_, at_end) ↦ absurd (omega (arith, get_elem?-lt seen i b.there))
      ];
    },
    e,
  )

  challenge :
      (seen : List Slot) (best : Option (ℕ × ℕ)) (v : Slot)
      → CanTake v
      → BestOf seen best
      → BestOf (seen ++ v ∷ []) (better best (length seen) (v.threshold - volume_used v.id index))
  unfolding better
  challenge seen none v can b = take_new seen v can (λ j w old c. absurd (b j w old c))
  challenge seen (some (i, headroom)) v can b =
      let room = v.threshold - volume_used v.id index in
      elim (Bool-cases (leb room headroom)) [
        | inl le ↦ rw le (keep_old seen i headroom v (ground arith) b)
        | inr gt ↦ rw gt (take_new seen v can (λ j w old c. beaten j w old c (ground arith)))
      ]
    where
      beaten :
          (j : ℕ) (w : Slot)
          → get_elem? seen j ≡ some w
          → CanTake w
          → headroom < v.threshold - volume_used v.id index
          → w.threshold - volume_used w.id index < v.threshold - volume_used v.id index
      beaten j w old c gt = let (u, best, e) = b in omega (arith, best.most j w old c)

  step :
      (seen : List Slot) (best : Option (ℕ × ℕ)) (v : Slot)
      → BestOf seen best
      → BestOf (seen ++ v ∷ []) (consider projected index best (length seen) (excluded v) v)
  unfolding consider
  step seen best v b = elim (Bool-cases (excluded v)) [
    | inl out ↦ rw out (skip seen best v (λ can. cc (can.allowed, out)) b)
    | inr allowed ↦
        elim (Bool-cases (ltb v.threshold (saturating_add (volume_used v.id index) projected))) [
          | inl full ↦
              rw (allowed, full) (skip seen best v (λ can. absurd (ground (arith, can.fits))) b)
          | inr room ↦
              let can : CanTake v = record { allowed = allowed; fits = ground arith } in
              rw (allowed, room) (challenge seen best v can b)
        ]
  ]

  -- The two loops of the source, with what they exclude as a parameter.
  unfoldable pub search : Option (ℕ × ℕ) → ℕ → List Slot → Option (ℕ × ℕ)
  search best i [] = best
  search best i (v ∷ volumes) =
      search (consider projected index best i (excluded v) v) (i + 1) volumes

  search-BestOf :
      (seen volumes : List Slot) (best : Option (ℕ × ℕ))
      → BestOf seen best
      → BestOf (seen ++ volumes) (search best (length seen) volumes)
  unfolding search
  search-BestOf seen [] best b = rw append-nil b
  search-BestOf seen (v ∷ volumes) best b =
      let n : length seen + 1 ≡ length (seen ++ v ∷ []) =
        omega (arith, length-append seen (v ∷ [])) in
      let again = search-BestOf (seen ++ v ∷ []) volumes _ (step seen best v b) in
      rw n (rw (append_assoc seen (v ∷ []) volumes) at again)

  -- What a search that starts from nothing finds: the best volume that can take the segment, or
  -- that none can.
  abbrev pub Found : List Slot → Option (ℕ × ℕ) → Type 0
  Found volumes none = (j : ℕ) (w : Slot) → get_elem? volumes j ≡ some w → ¬ CanTake w
  Found volumes (some (i, _)) = (v : Slot) × Best volumes i v

  pub search-Found : (volumes : List Slot) → Found volumes (search none 0 volumes)
  search-Found volumes =
      found volumes (search none 0 volumes) (search-BestOf [] volumes none (λ j w h. cc))
    where
      found :
          (volumes : List Slot) (best : Option (ℕ × ℕ)) → BestOf volumes best → Found volumes best
      found volumes none b = b
      found volumes (some (i, headroom)) b = (b.0, b.1)
