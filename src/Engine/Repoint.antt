-- ===== src/Engine/Repoint.antt =====
-- What a compaction changes in the namespace (src/engine.rs): the live chunks of the volume that
-- retires, and the manifests that name them, with the new placement.
pub mod Effect
use git_storage.Prelude.{
  ℕ, ◌+◌, ◌%◌, ◌^◌, Bool, true, false, not, ◌&&◌, ◌||◌, Option, none, some, List, [], ◌∷◌, ◌++◌,
  take, if◌then◌else◌,
}
use git_storage.Prelude.Text.{Text, codes, eqb}
use git_storage.Map.{Map, insert, contains_key}
use git_storage.Map.Order.{text_ord}
use git_storage.Manifest.{ChunkRef, Manifest}
use git_storage.Crypto.Primitives.{Primitives}
use git_storage.Engine.Txn.{SegIndex}

abbrev pub IdSet : Type 0
IdSet = Map Text (Unit {0})

-- `m.chunks.iter().any(|c| c.vol == vid)`
unfoldable pub touches : Text → List ChunkRef → Bool
touches vid [] = false
touches vid (c ∷ cs) = eqb c.vol vid || touches vid cs

-- The live chunks of a volume, their bytes, and the files that name them.
pub record Live : Type 0 where
  pub live_ids : IdSet
  pub live_bytes : ℕ
  pub affected : List Manifest

unfoldable pub live_chunk : Text → ChunkRef → Live → Live
live_chunk vid c l =
    if eqb c.vol vid && not (contains_key c.id l.live_ids)
    then record l {
      live_ids = insert c.id tt l.live_ids;
      live_bytes = (l.live_bytes + c.clen) % 2 ^ 64;
    }
    else l

unfoldable pub live_chunks : Text → List ChunkRef → Live → Live
unfolding live_chunk
live_chunks vid [] l = l
live_chunks vid (c ∷ cs) l = live_chunks vid cs (live_chunk vid c l)

unfoldable pub live_manifests : Text → List Manifest → Live → Live
unfolding touches live_chunks
live_manifests vid [] l = l
live_manifests vid (m ∷ ms) l =
    let named = record l {
      affected = if touches vid m.chunks then l.affected ++ m ∷ [] else l.affected;
    } in
    live_manifests vid ms (live_chunks vid m.chunks named)

abbrev pub no_live : Live
no_live = record { live_ids = []; live_bytes = 0; affected = [] }

unfoldable pub hash_ids : (P : Primitives) → IdSet → P.Hasher → P.Hasher
hash_ids P [] h = h
hash_ids P ((id, _) ∷ ids) h = hash_ids P ids (P.update (P.update h id) (0 ∷ []))

-- The identity of a rewritten segment: a hash of what is rewritten.
unfoldable pub compact_segment_id : Primitives → Text → IdSet → Text
unfolding hash_ids
compact_segment_id P retiring live_ids =
    let start = P.update P.hasher_new (codes "gitstorage-compact-seg" ++ 0 ∷ []) in
    take 32
      (P.to_hex (P.finalize (hash_ids P live_ids (P.update (P.update start retiring) (0 ∷ [])))))

-- A chunk on the volume that retires, at its new place.
unfoldable pub repoint_chunk : Text → Text → Text → ChunkRef → ChunkRef
repoint_chunk retired dest seg c =
    if eqb c.vol retired then record c { vol = dest; seg = seg } else c

unfoldable pub repoint_chunks : Text → Text → Text → List ChunkRef → List ChunkRef
unfolding repoint_chunk
repoint_chunks retired dest seg [] = []
repoint_chunks retired dest seg (c ∷ cs) =
    repoint_chunk retired dest seg c ∷ repoint_chunks retired dest seg cs

-- Every chunk on the volume that retires was rewritten.
unfoldable pub all_moved : Text → IdSet → List ChunkRef → Bool
all_moved retired moved [] = true
all_moved retired moved (c ∷ cs) =
    if eqb c.vol retired && not (contains_key c.id moved) then false else all_moved retired moved cs

-- The loop of `commit_compaction` over the files: the replacements of those that the volume holds
-- chunks of, or nothing where a chunk was not rewritten.
unfoldable pub build_repoint : Text → Text → Text → IdSet → List Manifest → Option (List Manifest)
unfolding all_moved touches repoint_chunks
build_repoint retired dest seg moved [] = some []
build_repoint retired dest seg moved (m ∷ ms) =
    let rest = build_repoint retired dest seg moved ms in
    if not (all_moved retired moved m.chunks)
    then none
    else if touches retired m.chunks
    then elim rest [
      | none ↦ none
      | some nms ↦ some (record m { chunks = repoint_chunks retired dest seg m.chunks } ∷ nms)
    ]
    else rest

-- `still_referenced`
unfoldable pub any_touches : Text → List Manifest → Bool
unfolding touches
any_touches vid [] = false
any_touches vid (m ∷ ms) = touches vid m.chunks || any_touches vid ms

-- `state.seg_index.keys().any(|(v, _)| v == retired)`
unfoldable pub has_segments : Text → SegIndex → Bool
has_segments vid [] = false
has_segments vid (((v, _), _) ∷ index) = eqb v vid || has_segments vid index
