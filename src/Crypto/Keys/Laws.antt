-- ===== src/Crypto/Keys/Laws.antt =====
-- What is sealed can be opened, and what is opened is what the hash names.
use git_storage.Prelude.{
  ◌≤◌, ◌≡◌, ◌∙◌, ap, false, some, ◌++◌, length, arith, length-append, take_joined, drop_joined, ltb,
  Option-cases, inl, inr,
}
use git_storage.Prelude.Text.{Bytes, Text, eqb, eqb_refl, eq_of_eqb}
use git_storage.Prelude.Int.{ℤ}
use git_storage.Prelude.Result.{ok, ◌>>=◌, ensure, hash_mismatch}
use git_storage.Chunker.Params.{abs_max_chunk}
use git_storage.Crypto.Primitives.{Primitives, IsSound}
use git_storage.Crypto.Keys.{
  Keys, SealedChunk, aad, chunk_key, chunk_nonce, seal_chunk, open_chunk, seal_manifest,
  open_manifest,
}

module _ (P : Primitives) where
  verified :
      (p a plaintext : Bytes)
      → (ensure (eqb (P.hash p) a) hash_mismatch >>= λ _. ok p) ≡ ok plaintext
      → a ≡ P.hash plaintext
  verified p a plaintext g = ground (arith, eq_of_eqb (P.hash p) a)

module _ (P : Primitives) (sound : IsSound P) (keys : Keys) where
  -- The steps of a seal that succeeds.
  record Sealed (plaintext : Bytes) (level : ℤ) (c : SealedChunk) : Type 0 where
    compressed : Bytes
    packed : P.compress plaintext level ≡ some compressed
    encrypted :
        P.encrypt
          (chunk_key P keys (P.hash plaintext))
          (chunk_nonce P keys (P.hash plaintext))
          aad
          compressed
        ≡ some c.ciphertext
    id : c.chunk_id ≡ P.to_hex (P.hash c.ciphertext)
    hash : c.plaintext_hash_hex ≡ P.to_hex (P.hash plaintext)

  seal_chunk-Sealed :
      (plaintext : Bytes) (level : ℤ) (c : SealedChunk)
      → seal_chunk P keys plaintext level ≡ ok c
      → Sealed plaintext level c
  unfolding seal_chunk
  seal_chunk-Sealed plaintext level c h = elim (Option-cases (P.compress plaintext level)) [
    | inl e ↦ absurd (let g = rw e at h in cc)
    | inr (z, e) ↦
        let key = chunk_key P keys (P.hash plaintext) in
        let nonce = chunk_nonce P keys (P.hash plaintext) in
        elim (Option-cases (P.encrypt key nonce aad z)) [
          | inl f ↦ absurd (let g = rw (e, f) at h in cc)
          | inr (w, f) ↦
              let g = rw (e, f) at h in
              record {
                compressed = z;
                packed = e;
                encrypted = ground arith;
                id = ground arith;
                hash = ground arith;
              }
        ]
  ]

  -- A chunk that was sealed opens to its plaintext, under the hash that the manifest records; its
  -- identity is the hash of what is stored.
  pub open_chunk-seal_chunk :
      (plaintext : Bytes) (level : ℤ) (c : SealedChunk)
      → length plaintext ≤ abs_max_chunk
      → seal_chunk P keys plaintext level ≡ ok c
      → (open_chunk P keys c.ciphertext c.plaintext_hash_hex ≡ ok plaintext)
        × (c.chunk_id ≡ P.to_hex (P.hash c.ciphertext))
        × (c.plaintext_hash_hex ≡ P.to_hex (P.hash plaintext))
  unfolding open_chunk
  open_chunk-seal_chunk plaintext level c fits h =
      let s = seal_chunk-Sealed plaintext level c h in
      let key = chunk_key P keys (P.hash plaintext) in
      let nonce = chunk_nonce P keys (P.hash plaintext) in
      (
        rw (
          s.hash,
          sound.from_hex-to_hex plaintext,
          sound.decrypt-encrypt key nonce aad s.compressed c.ciphertext s.encrypted,
          sound.decompress-compress plaintext s.compressed level abs_max_chunk s.packed fits,
          eqb_refl (P.hash plaintext),
        ),
        s.id,
        s.hash,
      )

  -- What is opened has the hash that was asked for: no other plaintext comes out.
  pub hash-open_chunk :
      (ciphertext : Bytes) (hex : Text) (plaintext : Bytes)
      → open_chunk P keys ciphertext hex ≡ ok plaintext
      → P.from_hex hex ≡ some (P.hash plaintext)
  unfolding open_chunk
  hash-open_chunk ciphertext hex plaintext h = elim (Option-cases (P.from_hex hex)) [
    | inl e ↦ absurd (let g = rw e at h in cc)
    | inr (a, e) ↦
        let key = chunk_key P keys a in
        let nonce = chunk_nonce P keys a in
        elim (Option-cases (P.decrypt key nonce aad ciphertext)) [
          | inl f ↦ absurd (let g = rw (e, f) at h in cc)
          | inr (z, f) ↦ elim (Option-cases (P.decompress z abs_max_chunk)) [
            | inl d ↦ absurd (let g = rw (e, f, d) at h in cc)
            | inr (p, d) ↦ let g = rw (e, f, d) at h in e ∙ ap some (verified P p a plaintext g)
          ]
        ]
  ]

  -- A sealed manifest opens, whatever the nonce of 24 bytes.
  pub open_manifest-seal_manifest :
      (nonce plaintext sealed : Bytes)
      → length nonce ≡ 24
      → seal_manifest P keys nonce plaintext ≡ ok sealed
      → open_manifest P keys sealed ≡ ok plaintext
  unfolding seal_manifest open_manifest
  open_manifest-seal_manifest nonce plaintext sealed n h =
      elim (Option-cases (P.encrypt keys.manifest_key nonce aad plaintext)) [
        | inl e ↦ absurd (let g = rw e at h in cc)
        | inr (c, e) ↦
            let g : sealed ≡ nonce ++ c = let g' = rw e at h in cc in
            let long : ltb (length (nonce ++ c)) 24 ≡ false =
              ground (arith, length-append nonce c) in
            rw (
              g,
              long,
              take_joined 24 nonce c n,
              drop_joined 24 nonce c n,
              sound.decrypt-encrypt keys.manifest_key nonce aad plaintext c e,
            )
      ]
