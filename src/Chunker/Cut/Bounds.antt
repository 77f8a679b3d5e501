-- ===== src/Chunker/Cut/Bounds.antt =====
-- Where `cut` cuts: within the bytes at hand, between the minimum and the maximum.
use git_storage.Prelude.{
  ℕ, ◌+◌, ◌-◌, ◌≤◌, ◌<◌, ◌≡◌, refl, ◌⊎◌, inl, inr, false, List, [], ◌∷◌, ◌++◌, length, take, drop,
  min, leb, arith, length-append, length-drop, length-take-of-le, take-append-of-le,
  drop-append-of-le, Bool-cases,
}
use git_storage.Prelude.Text.{Bytes}
use git_storage.Prelude.Result.{ok}
use git_storage.Chunker.Params.{ChunkerParams, IsValid}
use git_storage.Chunker.Cut.{
  FastCdc, new, Scan, hit, miss, roll, scan, slice, easy_end, easy_phase, hard_end, hard_phase, cut,
}

-- The sizes of a chunker are in the order that its slices need.
pub record IsOrdered (cdc : FastCdc) : Type 0 where
  pub min_pos : 0 < cdc.min_size
  pub min_avg : cdc.min_size < cdc.avg_size
  pub avg_max : cdc.avg_size < cdc.max_size

pub new-IsOrdered : (p : ChunkerParams) (seed : ℕ) → IsValid p → IsOrdered (new p seed)
unfolding new
new-IsOrdered p seed v = record { min_pos = v.min_pos; min_avg = v.min_avg; avg_max = v.avg_max }

scan_bound :
    (gear : List ℕ) (mask hash i : ℕ) (bytes : Bytes) (j : ℕ)
    → scan gear mask hash i bytes ≡ hit j
    → (i ≤ j) × (j < i + length bytes)
unfolding scan
scan_bound gear mask hash i [] j h = cc
scan_bound gear mask hash i (b ∷ bytes) j h =
    ground (arith, scan_bound gear mask (roll gear hash b) (i + 1) bytes j)

slice-ok :
    (from to : ℕ) (buf : Bytes)
    → from ≤ to
    → to ≤ length buf
    → slice from to buf ≡ ok (take (to - from) (drop from buf))
unfolding slice
slice-ok from to buf h k = ground arith

length-slice :
    (from to : ℕ) (buf : Bytes)
    → from ≤ to
    → to ≤ length buf
    → length (take (to - from) (drop from buf)) ≡ to - from
length-slice from to buf h k =
    length-take-of-le (to - from) (drop from buf) (omega (arith, length-drop from buf))

slice-append :
    (from to : ℕ) (buf rest : Bytes)
    → from ≤ to
    → to ≤ length buf
    → slice from to (buf ++ rest) ≡ slice from to buf
slice-append from to buf rest h k =
    let d : drop from (buf ++ rest) ≡ drop from buf ++ rest =
      drop-append-of-le from buf rest (omega arith) in
    let t : take (to - from) (drop from buf ++ rest) ≡ take (to - from) (drop from buf) =
      take-append-of-le (to - from) (drop from buf) rest (omega (arith, length-drop from buf)) in
    rw (slice-ok from to (buf ++ rest) h (omega (arith, length-append buf rest)))
      (rw (slice-ok from to buf h k) (rw (d, t)))

-- What a cut promises of its length.
pub record Cuts (cdc : FastCdc) (len e : ℕ) : Type 0 where
  pub positive : 0 < e
  pub within : e ≤ len
  pub at_most : e ≤ cdc.max_size
  pub at_least : (e ≡ len) ⊎ (cdc.min_size < e)

Scan-cases : (s : Scan) → ((i : ℕ) × (s ≡ hit i)) ⊎ ((h : ℕ) × (s ≡ miss h))
Scan-cases (hit i) = inl (i, refl)
Scan-cases (miss h) = inr (h, refl)

module _ (cdc : FastCdc) (buf : Bytes) (normal limit : ℕ) where
  easy_phase-Cuts :
      (hash : ℕ)
      → cdc.min_size < normal
      → normal ≤ limit
      → limit ≤ length buf
      → limit ≤ cdc.max_size
      → (e : ℕ) × (easy_phase cdc buf normal limit hash ≡ ok e) × Cuts cdc (length buf) e
  unfolding easy_phase easy_end
  easy_phase-Cuts hash a b c d =
      let tail = take (limit - normal) (drop normal buf) in
      let s = scan cdc.gear cdc.mask_easy hash 0 tail in
      rw (slice-ok normal limit buf b c) (elim (Scan-cases s) [
        | inl (i, e) ↦
            let (_, bound) = scan_bound cdc.gear cdc.mask_easy hash 0 tail i e in
            let len = length-slice normal limit buf b c in
            (
              normal + i + 1,
              rw e,
              record {
                positive = omega arith;
                within = omega arith;
                at_most = omega arith;
                at_least = inr (omega arith);
              },
            )
        | inr (h, e) ↦ (
          limit,
          rw e,
          record { positive = omega arith; within = c; at_most = d; at_least = inr (omega arith) },
        )
      ])

  hard_phase-Cuts :
      cdc.min_size < normal
      → normal ≤ limit
      → limit ≤ length buf
      → limit ≤ cdc.max_size
      → (e : ℕ) × (hard_phase cdc buf normal limit ≡ ok e) × Cuts cdc (length buf) e
  unfolding hard_phase hard_end
  hard_phase-Cuts a b c d =
      let from = cdc.min_size in
      let head = take (normal - from) (drop from buf) in
      let s = scan cdc.gear cdc.mask_hard 0 0 head in
      rw (slice-ok from normal buf (omega arith) (omega arith)) (elim (Scan-cases s) [
        | inl (i, e) ↦
            let (_, bound) = scan_bound cdc.gear cdc.mask_hard 0 0 head i e in
            let len = length-slice from normal buf (omega arith) (omega arith) in
            (
              from + i + 1,
              rw e,
              record {
                positive = omega arith;
                within = omega arith;
                at_most = omega arith;
                at_least = inr (omega arith);
              },
            )
        | inr (h, e) ↦ rw e (easy_phase-Cuts h a b c d)
      ])

  easy_phase-append :
      (hash : ℕ) (rest : Bytes)
      → normal ≤ limit
      → limit ≤ length buf
      → easy_phase cdc (buf ++ rest) normal limit hash ≡ easy_phase cdc buf normal limit hash
  unfolding easy_phase
  easy_phase-append hash rest b c = rw (slice-append normal limit buf rest b c)

  hard_end-append :
      (s : Scan) (rest : Bytes)
      → normal ≤ limit
      → limit ≤ length buf
      → hard_end cdc (buf ++ rest) normal limit s ≡ hard_end cdc buf normal limit s
  unfolding hard_end
  hard_end-append (hit i) rest b c = refl
  hard_end-append (miss h) rest b c = easy_phase-append h rest b c

  hard_phase-append :
      (rest : Bytes)
      → cdc.min_size ≤ normal
      → normal ≤ limit
      → limit ≤ length buf
      → hard_phase cdc (buf ++ rest) normal limit ≡ hard_phase cdc buf normal limit
  unfolding hard_phase
  hard_phase-append rest a b c =
      let from = cdc.min_size in
      rw
        (
          slice-append from normal buf rest a (omega arith),
          slice-ok from normal buf a (omega arith),
        )
        (hard_end-append _ rest b c)

-- On a buffer that is not empty a cut is made, and is never past the end or the maximum; it is past
-- the minimum unless it takes all that is left.
pub cut-Cuts :
    (cdc : FastCdc) (buf : Bytes)
    → IsOrdered cdc
    → 0 < length buf
    → (e : ℕ) × (cut cdc buf ≡ ok e) × Cuts cdc (length buf) e
unfolding cut
cut-Cuts cdc buf v h =
    let n = length buf in
    elim (Bool-cases (leb n cdc.min_size)) [
      | inl small ↦ (
        n,
        rw small,
        record { positive = h; within = omega arith; at_most = ground arith; at_least = inl refl },
      )
      | inr large ↦
          let limit = min n cdc.max_size in
          let m : cdc.min_size < n = ground arith in
          rw large (
            hard_phase-Cuts cdc buf (min cdc.avg_size limit) limit (omega arith) (omega arith)
              (omega arith) (omega arith))
    ]

-- A buffer that holds the maximum decides its cut: what follows it is not looked at.
pub cut-append :
    (cdc : FastCdc) (buf rest : Bytes)
    → IsOrdered cdc
    → cdc.max_size ≤ length buf
    → cut cdc (buf ++ rest) ≡ cut cdc buf
unfolding cut
cut-append cdc buf rest v h =
    let n = length-append buf rest in
    let small : leb (length buf) cdc.min_size ≡ false = ground arith in
    let small' : leb (length (buf ++ rest)) cdc.min_size ≡ false = ground arith in
    let same : min (length (buf ++ rest)) cdc.max_size ≡ min (length buf) cdc.max_size =
      omega arith in
    rw (small, small', same)
      (hard_phase-append cdc buf _ _ rest (omega arith) (omega arith) (omega arith))
