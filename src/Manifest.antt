-- ===== src/Manifest.antt =====
-- src/manifest.rs: the per-file records that the transaction log carries.
use git_storage.Prelude.{ℕ, ◌≡◌, refl, Bool, true, false, ◌&&◌, List, [], ◌∷◌, ◌==◌, arith}
use git_storage.Prelude.Text.{Text, eqb, eqb_refl, eq_of_eqb}

-- One chunk reference, with its placement.
pub record ChunkRef : Type 0 where
  pub id : Text
  pub plaintext_hash : Text
  pub len : ℕ
  pub clen : ℕ
  pub vol : Text
  pub seg : Text

-- One stored file.
pub record Manifest : Type 0 where
  pub name : Text
  pub size : ℕ
  pub avg_chunk_size : ℕ
  pub file_hash : Text
  pub chunks : List ChunkRef

-- The derived `PartialEq`.
unfoldable pub same_chunk : ChunkRef → ChunkRef → Bool
same_chunk a b =
    eqb a.id b.id
    && (eqb a.plaintext_hash b.plaintext_hash
        && ((a.len == b.len) && ((a.clen == b.clen) && (eqb a.vol b.vol && eqb a.seg b.seg))))

unfoldable pub same_chunks : List ChunkRef → List ChunkRef → Bool
same_chunks [] [] = true
same_chunks [] (_ ∷ _) = false
same_chunks (_ ∷ _) [] = false
same_chunks (a ∷ xs) (b ∷ ys) = same_chunk a b && same_chunks xs ys

unfoldable pub same_manifest : Manifest → Manifest → Bool
same_manifest a b =
    eqb a.name b.name
    && ((a.size == b.size)
        && ((a.avg_chunk_size == b.avg_chunk_size)
            && (eqb a.file_hash b.file_hash && same_chunks a.chunks b.chunks)))

same_chunk_refl : (c : ChunkRef) → same_chunk c c ≡ true
unfolding same_chunk
same_chunk_refl c =
    ground (arith, eqb_refl c.id, eqb_refl c.plaintext_hash, eqb_refl c.vol, eqb_refl c.seg)

same_chunks_refl : (cs : List ChunkRef) → same_chunks cs cs ≡ true
unfolding same_chunks
same_chunks_refl [] = refl
same_chunks_refl (c ∷ cs) = ground (arith, same_chunk_refl c, same_chunks_refl cs)

pub same_manifest_refl : (m : Manifest) → same_manifest m m ≡ true
unfolding same_manifest
same_manifest_refl m =
    ground (arith, eqb_refl m.name, eqb_refl m.file_hash, same_chunks_refl m.chunks)

eq_of_same_chunk : (a b : ChunkRef) → same_chunk a b ≡ true → a ≡ b
unfolding same_chunk
eq_of_same_chunk a b h = ground (
  arith,
  eq_of_eqb a.id b.id,
  eq_of_eqb a.plaintext_hash b.plaintext_hash,
  eq_of_eqb a.vol b.vol,
  eq_of_eqb a.seg b.seg,
)

eq_of_same_chunks : (xs ys : List ChunkRef) → same_chunks xs ys ≡ true → xs ≡ ys
unfolding same_chunks
eq_of_same_chunks [] [] h = refl
eq_of_same_chunks [] (b ∷ ys) h = cc
eq_of_same_chunks (a ∷ xs) [] h = cc
eq_of_same_chunks (a ∷ xs) (b ∷ ys) h =
    ground (arith, eq_of_same_chunk a b, eq_of_same_chunks xs ys)

-- Manifests that the derived equality identifies are equal.
pub eq_of_same_manifest : (a b : Manifest) → same_manifest a b ≡ true → a ≡ b
unfolding same_manifest
eq_of_same_manifest a b h = ground (
  arith,
  eq_of_eqb a.name b.name,
  eq_of_eqb a.file_hash b.file_hash,
  eq_of_same_chunks a.chunks b.chunks,
)
