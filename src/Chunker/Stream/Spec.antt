-- ===== src/Chunker/Stream/Spec.antt =====
-- Where the chunks of a file are, by its bytes alone: their sizes, and that they are the file.
use git_storage.Prelude.{
  ℕ, zero, suc, ◌≤◌, ◌<◌, ◌≡◌, refl, ◌⊎◌, inl, inr, List, [], ◌∷◌, length, take, drop, arith,
  length-drop, length-take-of-le,
}
use git_storage.Prelude.Text.{Bytes}
use git_storage.Prelude.Result.{Result, ok, err, ◌>>=◌}
use git_storage.Chunker.Cut.{FastCdc, cut}
use git_storage.Chunker.Cut.Bounds.{IsOrdered, cut-Cuts}

-- The end of the first chunk of some bytes.
unfoldable pub boundary : FastCdc → Bytes → ℕ
boundary cdc bytes = elim (cut cdc bytes) [ ok e ↦ e | err _ ↦ 0 ]

pub boundary_of_cut :
    (cdc : FastCdc) (bytes : Bytes) (e : ℕ) → cut cdc bytes ≡ ok e → boundary cdc bytes ≡ e
unfolding boundary
boundary_of_cut cdc bytes e h = rw (h, boundary)

-- The chunks of some bytes, on fuel that bounds their number.
unfoldable pub split : FastCdc → ℕ → Bytes → List Bytes
split cdc zero bytes = []
split cdc (suc fuel) [] = []
split cdc (suc fuel) (b ∷ bs) =
    take (boundary cdc (b ∷ bs)) (b ∷ bs) ∷ split cdc fuel (drop (boundary cdc (b ∷ bs)) (b ∷ bs))

-- The callback run on each chunk in turn.
unfoldable pub each {ℓ} : {S : Type ℓ} → (Bytes → S → Result S) → List Bytes → S → Result S
each on_chunk [] s = ok s
each on_chunk (c ∷ cs) s = on_chunk c s >>= each on_chunk cs

pub split-cons :
    (cdc : FastCdc) (fuel b : ℕ) (bs : Bytes) (e : ℕ)
    → cut cdc (b ∷ bs) ≡ ok e
    → split cdc (suc fuel) (b ∷ bs) ≡ take e (b ∷ bs) ∷ split cdc fuel (drop e (b ∷ bs))
unfolding split
split-cons cdc fuel b bs e q = rw (boundary_of_cut cdc (b ∷ bs) e q)

split-nil :
    (cdc : FastCdc) (fuel : ℕ) (bytes : Bytes) → length bytes ≡ 0 → split cdc fuel bytes ≡ []
unfolding split
split-nil cdc zero bytes h = refl
split-nil cdc (suc fuel) [] h = refl
split-nil cdc (suc fuel) (b ∷ bs) h = absurd (omega arith)

-- The sizes that the parameters promise: no chunk is empty or past the maximum, and each but the
-- last is past the minimum.
abbrev pub InBounds : FastCdc → List Bytes → Type 0
InBounds cdc [] = Unit
InBounds cdc (c ∷ []) = (0 < length c) × (length c ≤ cdc.max_size)
InBounds cdc (c ∷ d ∷ cs) =
    (cdc.min_size < length c) × (length c ≤ cdc.max_size) × InBounds cdc (d ∷ cs)

module _ (cdc : FastCdc) (v : IsOrdered cdc) where
  InBounds-cons :
      (c : Bytes) (cs : List Bytes)
      → 0 < length c
      → length c ≤ cdc.max_size
      → (cs ≡ []) ⊎ (cdc.min_size < length c)
      → InBounds cdc cs
      → InBounds cdc (c ∷ cs)
  InBounds-cons c [] p m l r = (p, m)
  InBounds-cons c (d ∷ cs) p m (inl e) r = absurd (cc)
  InBounds-cons c (d ∷ cs) p m (inr l) r = (l, m, r)

  split_tail :
      (fuel e : ℕ) (bytes : Bytes)
      → (e ≡ length bytes) ⊎ (cdc.min_size < e)
      → e ≤ length bytes
      → (split cdc fuel (drop e bytes) ≡ []) ⊎ (cdc.min_size < length (take e bytes))
  split_tail fuel e bytes (inl all) within =
      inl (split-nil cdc fuel (drop e bytes) (omega (arith, length-drop e bytes)))
  split_tail fuel e bytes (inr more) within = inr (omega (arith, length-take-of-le e bytes within))

  -- No chunk of some bytes is empty or past the maximum size, and each but the last is past the
  -- minimum.
  pub split-InBounds : (fuel : ℕ) (bytes : Bytes) → InBounds cdc (split cdc fuel bytes)
  split-InBounds zero bytes = unfold split in tt
  split-InBounds (suc fuel) [] = unfold split in tt
  split-InBounds (suc fuel) (b ∷ bs) =
      let (e, q, c) = cut-Cuts cdc (b ∷ bs) v (omega arith) in
      let n = length-take-of-le e (b ∷ bs) c.within in
      rw (split-cons cdc fuel b bs e q) (
        InBounds-cons (take e (b ∷ bs)) (split cdc fuel (drop e (b ∷ bs)))
          (omega (arith, c.positive)) (omega (arith, c.at_most))
          (split_tail fuel e (b ∷ bs) c.at_least c.within) (split-InBounds fuel (drop e (b ∷ bs))))
