-- ===== src/Engine/Get/Verified.antt =====
-- What `get` of src/engine.rs writes is what the manifest promises, whatever the volumes hold.
use git_storage.Prelude.{
  ℕ, ◌≡◌, refl, sym, ap, ◌∙◌, not, Option, some, List, [], ◌∷◌, ◌++◌, length, ◌==◌, ==_iff,
  Bool-cases, inl, inr,
}
use mathlib.Core.List.{append_assoc, append-nil}
use git_storage.Prelude.Text.{Bytes, Text, eqb, eq_of_eqb}
use git_storage.Prelude.Result.{
  Error, ok, err, hash_mismatch, length_mismatch, file_hash_mismatch, no_such_file,
}
use git_storage.Map.{get}
use git_storage.Map.Order.{text_ord}
use git_storage.Manifest.{ChunkRef, Manifest}
use git_storage.Backend.{Backend}
use git_storage.Crypto.Primitives.{Primitives, IsSound}
use git_storage.Crypto.Keys.Laws.{hash-open_chunk}
use git_storage.Engine.Txn.{StoreState}
use git_storage.Engine.Serde.{Serde}
use git_storage.Engine.Config.{Engine}
use git_storage.Engine.Monad.{World, fail, bind-ok}
use git_storage.Engine.Load.{load_full_state}
use git_storage.Engine.Get.{Output, read_chunk, read_chunks, get_file}
use git_storage.Engine.Commit.Reading.{lift-ok, pure-ok, ok_or-ok}

module _ (P : Primitives) where
  -- The bytes are made of a piece for each chunk, of the chunk's length and plaintext hash.
  abbrev pub Pieces : List ChunkRef → Bytes → Type 0
  Pieces [] out = out ≡ []
  Pieces (c ∷ cs) out =
      (piece : Bytes) × (rest : Bytes) × (out ≡ piece ++ rest)
      × (P.from_hex c.plaintext_hash ≡ some (P.hash piece))
      × (length piece ≡ c.len)
      × Pieces cs rest

module _ (P : Primitives) (S : Serde) {B : Backend} (engine : Engine) (sound : IsSound P) where
  fail-ok {ℓ} : {A : Type ℓ} (e : Error) (w v : World B) (a : A) → fail e w ≡ (ok a, v) → ⊥
  unfolding fail
  fail-ok e w v a h = let g : err e ≡ ok a = λ i. (h i).0 in cc

  read_chunk-ok :
      (c : ChunkRef) (w v : World B) (piece : Bytes)
      → read_chunk P S engine c w ≡ (ok piece, v)
      → (P.from_hex c.plaintext_hash ≡ some (P.hash piece)) × (length piece ≡ c.len)
  unfolding read_chunk
  read_chunk-ok c w v piece h =
      let (ciphertext, w₁, e₁, h₁) = bind-ok _ _ w h in
      elim (Bool-cases (not (eqb (P.to_hex (P.hash ciphertext)) c.id))) [
        | inl bad ↦ absurd (fail-ok hash_mismatch w₁ v piece (rw bad at h₁))
        | inr good ↦
            let (plaintext, w₂, e₂, h₂) = bind-ok _ _ w₁ (rw good at h₁) in
            let (opened, _) = lift-ok _ w₁ w₂ plaintext e₂ in
            let hashed =
              hash-open_chunk P sound engine.keys ciphertext c.plaintext_hash plaintext opened in
            elim (Bool-cases (length plaintext == c.len)) [
              | inl fits ↦
                  let (same, _) = pure-ok _ w₂ v piece (rw fits at h₂) in
                  rw same (hashed, (==_iff (length plaintext) c.len).0 fits)
              | inr short ↦ absurd (fail-ok length_mismatch w₂ v piece (rw short at h₂))
            ]
      ]

  read_chunks-Pieces :
      (cs : List ChunkRef) (out : Output P) (w v : World B) (done : Output P)
      → read_chunks P S engine cs out w ≡ (ok done, v)
      → (body : Bytes) × Pieces P cs body
        × (done.written ≡ out.written ++ body)
        × (done.file_hasher ≡ P.update out.file_hasher body)
  unfolding read_chunks
  read_chunks-Pieces [] out w v done h =
      let (same, _) = pure-ok _ w v done h in
      rw same ([], refl, sym (append-nil out.written), sym (sound.update-nil out.file_hasher))
  read_chunks-Pieces (c ∷ cs) out w v done h =
      let (piece, w₁, e₁, h₁) = bind-ok _ _ w h in
      let (hashed, long) = read_chunk-ok c w w₁ piece e₁ in
      let (rest, pieces, wrote, fed) = read_chunks-Pieces cs _ w₁ v done h₁ in
      (
        piece ++ rest,
        (piece, rest, refl, hashed, long, pieces),
        wrote ∙ append_assoc out.written piece rest,
        fed ∙ sound.update-update out.file_hasher piece rest,
      )

  -- Where `get` returns, what it wrote is a piece for each chunk of the manifest that the state has
  -- under the name, in order, each of the recorded length and plaintext hash; the whole has the
  -- recorded file hash, and the size returned is the recorded one. The crates are sound.
  pub get_file-Pieces :
      (name : Text) (at : Option Text) (w v : World B) (size : ℕ) (out : Bytes)
      → get_file P S engine name at w ≡ (ok (size, out), v)
      → (state : StoreState) × (m : Manifest) × (u : World B) × (load_full_state P S engine at w
          ≡ (ok state, u))
        × (get name state.namespace ≡ some m)
        × (size ≡ m.size)
        × (P.to_hex (P.hash out) ≡ m.file_hash)
        × Pieces P m.chunks out
  unfolding get_file
  get_file-Pieces name at w v size out h =
      let (state, w₁, e₁, h₁) = bind-ok _ _ w h in
      let (m, w₂, e₂, h₂) = bind-ok _ _ w₁ h₁ in
      let (found, _) = lift-ok _ w₁ w₂ m e₂ in
      let (done, w₃, e₃, h₃) = bind-ok _ _ w₂ h₂ in
      let (body, pieces, wrote, fed) = read_chunks-Pieces m.chunks _ w₂ w₃ done e₃ in
      elim (Bool-cases (eqb (P.to_hex (P.finalize done.file_hasher)) m.file_hash)) [
        | inr bad ↦ absurd (fail-ok file_hash_mismatch w₃ v (size, out) (rw bad at h₃))
        | inl good ↦
            let (same, _) = pure-ok _ w₃ v (size, out) (rw good at h₃) in
            let body_is : body ≡ out = sym wrote ∙ sym (ap (λ p. p.1) same) in
            let hash_is : P.finalize done.file_hasher ≡ P.hash body =
              ap P.finalize fed ∙ sound.finalize-update body in
            (
              state,
              m,
              w₁,
              e₁,
              ok_or-ok _ no_such_file m found,
              ap (λ p. p.0) same,
              ap (λ b. P.to_hex (P.hash b)) (sym body_is)
                  ∙ ap P.to_hex (sym hash_is)
                  ∙ eq_of_eqb (P.to_hex (P.finalize done.file_hasher)) m.file_hash good,
              rw body_is at pieces,
            )
      ]
