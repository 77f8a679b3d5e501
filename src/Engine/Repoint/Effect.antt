-- ===== src/Engine/Repoint/Effect.antt =====
-- What a reader sees of a compaction: the same files, off the volume that retires.
use git_storage.Prelude.{
  ℕ, ◌≡◌, ◌≢◌, refl, ap, ◌∙◌, sym, true, false, Option, none, some, List, [], ◌∷◌, arith,
  if◌then◌else◌, Bool, Bool-cases, Option-cases, inl, inr,
}
use mathlib.Core.Path.{subst}
use git_storage.Prelude.Text.{Text, eqb, eq_of_eqb}
use git_storage.Map.{get, insert, retain, values}
use git_storage.Map.Order.{text_ord}
use git_storage.Map.Laws.{get-insert}
use git_storage.Map.Sorted.{IsSorted, get_of_Above}
use git_storage.Manifest.{ChunkRef, Manifest}
use git_storage.Engine.Txn.{
  Namespace, SegIndex, SegRec, compact, insert_manifests, insert_seals, drop_volumes, apply_txn,
}
use git_storage.Engine.Replay.Keyed.{IsKeyed}
use git_storage.Engine.Volumes.{volume_used, sum_used}
use git_storage.Engine.Repoint.{
  IdSet, touches, repoint_chunk, repoint_chunks, all_moved, build_repoint, has_segments,
}

module _ (retired dest seg : Text) where
  -- A file with its chunks at their new places.
  abbrev pub repointed : Manifest → Manifest
  repointed m = record m { chunks = repoint_chunks retired dest seg m.chunks }

  abbrev all_repointed : Option Manifest → Option Manifest
  all_repointed none = none
  all_repointed (some m) = some (repointed m)

  -- Where a chunk is, by whether it was on the volume that retires.
  abbrev pub Placed : Bool → ChunkRef → ChunkRef → Type 0
  Placed true c d = (d.vol ≡ dest) × (d.seg ≡ seg)
  Placed false c d = (d.vol ≡ c.vol) × (d.seg ≡ c.seg)

  -- The same chunks, those of the volume in the new segment and the others where they were.
  abbrev pub AllPlaced : List ChunkRef → List ChunkRef → Type 0
  AllPlaced [] [] = Unit
  AllPlaced (c ∷ cs) (d ∷ ds) =
      (d.id ≡ c.id)
      × (d.plaintext_hash ≡ c.plaintext_hash)
      × (d.len ≡ c.len)
      × (d.clen ≡ c.clen)
      × Placed (eqb c.vol retired) c d
      × AllPlaced cs ds
  AllPlaced _ _ = ⊥

  -- The same file, but for the places of its chunks.
  abbrev pub SameFile : Option Manifest → Option Manifest → Type 0
  SameFile none none = Unit
  SameFile (some m) (some n) =
      (n.name ≡ m.name)
      × (n.size ≡ m.size)
      × (n.avg_chunk_size ≡ m.avg_chunk_size)
      × (n.file_hash ≡ m.file_hash)
      × AllPlaced m.chunks n.chunks
  SameFile _ _ = ⊥

  Placed-repoint_chunk :
      (c : ChunkRef) (is : Bool)
      → eqb c.vol retired ≡ is
      → Placed is c (repoint_chunk retired dest seg c)
  unfolding repoint_chunk
  Placed-repoint_chunk c true e = rw e (refl, refl)
  Placed-repoint_chunk c false e = rw e (refl, refl)

  kept_chunk :
      (c : ChunkRef)
      → ((repoint_chunk retired dest seg c).id ≡ c.id)
        × ((repoint_chunk retired dest seg c).plaintext_hash ≡ c.plaintext_hash)
        × ((repoint_chunk retired dest seg c).len ≡ c.len)
        × ((repoint_chunk retired dest seg c).clen ≡ c.clen)
  unfolding repoint_chunk
  kept_chunk c = elim (Bool-cases (eqb c.vol retired)) [
    | inl e ↦ rw e (refl, refl, refl, refl)
    | inr e ↦ rw e (refl, refl, refl, refl)
  ]

  repoint_chunks-AllPlaced :
      (cs : List ChunkRef) → AllPlaced cs (repoint_chunks retired dest seg cs)
  unfolding repoint_chunks
  repoint_chunks-AllPlaced [] = tt
  repoint_chunks-AllPlaced (c ∷ cs) =
      let (id, hash, len, clen) = kept_chunk c in
      (
        id,
        hash,
        len,
        clen,
        Placed-repoint_chunk c (eqb c.vol retired) refl,
        repoint_chunks-AllPlaced cs,
      )

  all_repointed-SameFile : (o : Option Manifest) → SameFile o (all_repointed o)
  all_repointed-SameFile none = tt
  all_repointed-SameFile (some m) = (refl, refl, refl, refl, repoint_chunks-AllPlaced m.chunks)

  repoint_untouched :
      (cs : List ChunkRef) → touches retired cs ≡ false → repoint_chunks retired dest seg cs ≡ cs
  unfolding touches repoint_chunks repoint_chunk
  repoint_untouched [] h = refl
  repoint_untouched (c ∷ cs) h = elim (Bool-cases (eqb c.vol retired)) [
    | inl e ↦ absurd (let g = rw e at h in cc)
    | inr e ↦ let g = rw e at h in rw (e, repoint_untouched cs g) refl
  ]

  touches-repoint_chunks :
      (cs : List ChunkRef)
      → dest ≢ retired
      → touches retired (repoint_chunks retired dest seg cs) ≡ false
  unfolding touches repoint_chunks repoint_chunk
  touches-repoint_chunks [] n = refl
  touches-repoint_chunks (c ∷ cs) n =
      ground (arith, eq_of_eqb dest retired, touches-repoint_chunks cs n)

  -- What an insertion of the new manifests leaves under a name.
  abbrev replaced : Option Manifest → Option Manifest → Option Manifest
  replaced none before = before
  replaced (some m) before = if touches retired m.chunks then some (repointed m) else before

  module _ (moved : IdSet) where
    build_repoint_cons :
        (m : Manifest) (ms nms : List Manifest)
        → build_repoint retired dest seg moved (m ∷ ms) ≡ some nms
        → (all_moved retired moved m.chunks ≡ true)
          × (rest : List Manifest) × (build_repoint retired dest seg moved ms ≡ some rest)
          × (nms ≡ (if touches retired m.chunks then repointed m ∷ rest else rest))
    unfolding build_repoint
    build_repoint_cons m ms nms h = elim (Option-cases (build_repoint retired dest seg moved ms)) [
      | inl e ↦ absurd (let g = rw e at h in ground arith)
      | inr (rest, e) ↦ let g = rw e at h in (ground arith, rest, e, ground arith)
    ]

    build_repoint_nil :
        (nms : List Manifest) → build_repoint retired dest seg moved [] ≡ some nms → nms ≡ []
    unfolding build_repoint
    build_repoint_nil nms h = cc

    insert-build_repoint :
        (ns : Namespace) (nms : List Manifest) (base : Namespace) (n : Text)
        → IsSorted ns
        → IsKeyed ns
        → build_repoint retired dest seg moved (values ns) ≡ some nms
        → get n (insert_manifests nms base) ≡ replaced (get n ns) (get n base)
    unfolding values get insert_manifests
    insert-build_repoint [] nms base n s k h = rw (build_repoint_nil nms h) refl
    insert-build_repoint ((j, m) ∷ ns) nms base n s k h =
        let (all, rest, e, made) = build_repoint_cons m (values ns) nms h in
        elim (Bool-cases (touches retired m.chunks)) [
          | inl t ↦
              let f = insert-build_repoint ns rest (insert m.name (repointed m) base) n s.1 k.1 e in
              let g = rw t at made in
              let at_name = get-insert m.name n (repointed m) base in
              rw (g, f, at_name, k.0)
                (elim (Bool-cases (eqb j n)) [
                  | inl same ↦
                      let gone : get n ns ≡ none =
                        rw (eq_of_eqb j n same) at (get_of_Above j ns s.0) in
                      rw (same, gone, t) refl
                  | inr other ↦ rw other refl
                ])
          | inr t ↦
              let f = insert-build_repoint ns rest base n s.1 k.1 e in
              let g = rw t at made in
              rw (g, f)
                (elim (Bool-cases (eqb j n)) [
                  | inl same ↦
                      let gone : get n ns ≡ none =
                        rw (eq_of_eqb j n same) at (get_of_Above j ns s.0) in
                      rw (same, gone, t) refl
                  | inr other ↦ rw other refl
                ])
        ]

    all_moved-build_repoint :
        (ns : Namespace) (nms : List Manifest) (n : Text) (m : Manifest)
        → build_repoint retired dest seg moved (values ns) ≡ some nms
        → get n ns ≡ some m
        → all_moved retired moved m.chunks ≡ true
    unfolding values get
    all_moved-build_repoint [] nms n m h there = cc
    all_moved-build_repoint ((j, w) ∷ ns) nms n m h there =
        let (all, rest, e, _) = build_repoint_cons w (values ns) nms h in
        elim (Bool-cases (eqb j n)) [
          | inl same ↦ let g = rw same at there in let p : w ≡ m = cc in rw p at all
          | inr other ↦ all_moved-build_repoint ns rest n m e (rw other at there)
        ]

  replaced_self : (o : Option Manifest) → replaced o o ≡ all_repointed o
  replaced_self none = refl
  replaced_self (some m) = elim (Bool-cases (touches retired m.chunks)) [
    | inl t ↦ rw t refl
    | inr t ↦ rw (t, repoint_untouched m.chunks t) refl
  ]

  sum_used_dropped :
      (index : SegIndex) (acc : ℕ)
      → (has_segments retired (drop_volumes (retired ∷ []) index) ≡ false)
        × (sum_used acc retired (drop_volumes (retired ∷ []) index) ≡ acc)
  unfolding has_segments drop_volumes sum_used retain
  sum_used_dropped [] acc = (refl, refl)
  sum_used_dropped (((v, g), bytes) ∷ index) acc = elim (Bool-cases (eqb v retired)) [
    | inl e ↦ rw e (sum_used_dropped index acc)
    | inr e ↦ rw (e, e) (sum_used_dropped index acc)
  ]

  off_retired :
      (o : Option Manifest) (m : Manifest)
      → dest ≢ retired
      → all_repointed o ≡ some m
      → touches retired m.chunks ≡ false
  off_retired none m apart h = cc
  off_retired (some w) m apart h =
      let same : repointed w ≡ m = cc in
      ap (λ x. touches retired x.chunks) (sym same) ∙ touches-repoint_chunks w.chunks apart

  -- A compaction whose transaction is built from the files of a state, in the order of their names
  -- and each under its own, leaves the same files with the same chunks in the same order: those of
  -- the retired volume are on the new one in the new segment, and the others where they were. If the
  -- new volume is another, the retired one is named nowhere: neither in a file nor in the segment
  -- index, where it has no bytes left. Every chunk that was on it was rewritten.
  pub repoint-apply_txn :
      (moved : IdSet) (ns : Namespace) (index : SegIndex) (seals : List SegRec)
      (nms : List Manifest)
      → dest ≢ retired
      → IsSorted ns
      → IsKeyed ns
      → build_repoint retired dest seg moved (values ns) ≡ some nms
      → let after = apply_txn (compact (retired ∷ []) seals nms) (ns, index) in
        ((n : Text) → SameFile (get n ns) (get n after.0))
        × ((n : Text) (m : Manifest) → get n after.0 ≡ some m → touches retired m.chunks ≡ false)
        × ((n : Text) (m : Manifest) → get n ns ≡ some m → all_moved retired moved m.chunks ≡ true)
        × (has_segments retired after.1 ≡ false)
        × (volume_used retired after.1 ≡ 0)
  unfolding apply_txn volume_used
  repoint-apply_txn moved ns index seals nms apart s k h =
      let at_name : (n : Text) → get n (insert_manifests nms ns) ≡ all_repointed (get n ns) =
        λ n. insert-build_repoint moved ns nms ns n s k h ∙ replaced_self (get n ns) in
      let (gone, empty) = sum_used_dropped (insert_seals seals index) 0 in
      (
        λ n. subst (SameFile (get n ns)) (sym (at_name n)) (all_repointed-SameFile (get n ns)),
        λ n m there. off_retired (get n ns) m apart (sym (at_name n) ∙ there),
        λ n m there. all_moved-build_repoint moved ns nms n m h there,
        gone,
        empty,
      )
