-- ===== src/Chunker/Stream/Refill.antt =====
-- The inner loop of `stream_chunks`: a refilled window holds all that `cut` looks at, and no byte is
-- lost, repeated or left out of the hash.
use git_storage.Prelude.{
  ℕ, ◌≤◌, ◌≡◌, refl, ◌∙◌, ◌⊎◌, inl, inr, Bool, true, false, [], ◌∷◌, ◌++◌, length, ltb,
  if◌then◌else◌, arith, Bool-cases,
}
use mathlib.Core.List.{append_assoc}
use git_storage.Prelude.Text.{Bytes}
use git_storage.Prelude.Result.{ok, err}
use git_storage.Crypto.Primitives.{Primitives, IsSound}
use git_storage.Chunker.Stream.{Reader, Window, fill, refill, contents}

-- No read fails.
abbrev pub IsClean : Reader → Type 0
IsClean [] = Unit
IsClean (ok _ ∷ reader) = IsClean reader
IsClean (err _ ∷ reader) = ⊥

module _ (P : Primitives) (sound : IsSound P) where
  -- What a window has still to hand over.
  abbrev pub pending : Window P → Bytes
  pending w = if w.eof then [] else contents w.reader

  -- A window after a refill, against what was there before it.
  pub record Filled (max_size : ℕ) (reader : Reader) (buf : Bytes) (h : P.Hasher) (w : Window P)
      : Type 0 where
    pub clean : IsClean w.reader
    pub same : w.buf ++ pending w ≡ buf ++ contents reader
    pub hashed : P.update w.file_hasher (pending w) ≡ P.update h (contents reader)
    pub full : (pending w ≡ []) ⊎ (max_size ≤ length w.buf)

  abbrev window : Reader → Bytes → Bool → P.Hasher → Window P
  window reader buf eof h = record { reader = reader; buf = buf; eof = eof; file_hasher = h }

  stopped-Filled :
      (max_size : ℕ) (reader : Reader) (buf : Bytes) (h : P.Hasher)
      → IsClean reader
      → ltb (length buf) max_size ≡ false
      → Filled max_size reader buf h (window reader buf false h)
  stopped-Filled max_size reader buf h c done = record {
    clean = c;
    same = refl;
    hashed = refl;
    full = inr (ground arith);
  }

  ended-Filled :
      (max_size : ℕ) (reader rest : Reader) (buf : Bytes) (h : P.Hasher)
      → IsClean rest
      → contents reader ≡ []
      → Filled max_size reader buf h (window rest buf true h)
  ended-Filled max_size reader rest buf h c e = record {
    clean = c;
    same = rw e;
    hashed = rw e;
    full = inl refl;
  }

  fill-Filled :
      (max_size : ℕ) (reader : Reader) (buf : Bytes) (h : P.Hasher)
      → IsClean reader
      → (w : Window P) × (fill P max_size reader buf h ≡ ok w) × Filled max_size reader buf h w
  unfolding fill contents
  fill-Filled max_size [] buf h c = elim (Bool-cases (ltb (length buf) max_size)) [
    | inl more ↦ (window [] buf true h, rw more, ended-Filled max_size [] [] buf h tt refl)
    | inr done ↦ (window [] buf false h, rw done, stopped-Filled max_size [] buf h tt done)
  ]
  fill-Filled max_size (err e ∷ reader) buf h c = absurd c
  fill-Filled max_size (ok [] ∷ reader) buf h c = elim (Bool-cases (ltb (length buf) max_size)) [
    | inl more ↦ (
      window reader buf true h,
      rw more,
      ended-Filled max_size (ok [] ∷ reader) reader buf h c refl,
    )
    | inr done ↦ (
      window (ok [] ∷ reader) buf false h,
      rw done,
      stopped-Filled max_size (ok [] ∷ reader) buf h c done,
    )
  ]
  fill-Filled max_size (ok (b ∷ bs) ∷ reader) buf h c =
      elim (Bool-cases (ltb (length buf) max_size)) [
        | inl more ↦
            let (w, e, f) = fill-Filled max_size reader (buf ++ b ∷ bs) (P.update h (b ∷ bs)) c in
            (
              w,
              rw more e,
              record {
                clean = f.clean;
                same = f.same ∙ append_assoc buf (b ∷ bs) (contents reader);
                hashed = f.hashed ∙ sound.update-update h (b ∷ bs) (contents reader);
                full = f.full;
              },
            )
        | inr done ↦ (
          window (ok (b ∷ bs) ∷ reader) buf false h,
          rw done,
          stopped-Filled max_size (ok (b ∷ bs) ∷ reader) buf h c done,
        )
      ]

  -- A window after a refill: as many bytes as `cut` looks at, or all.
  pub record Refilled (max_size : ℕ) (w w' : Window P) : Type 0 where
    pub clean : IsClean w'.reader
    pub same : w'.buf ++ pending w' ≡ w.buf ++ pending w
    pub hashed : P.update w'.file_hasher (pending w') ≡ P.update w.file_hasher (pending w)
    pub full : (pending w' ≡ []) ⊎ (max_size ≤ length w'.buf)

  pub refill-Refilled :
      (max_size : ℕ) (w : Window P)
      → IsClean w.reader
      → (w' : Window P) × (refill P max_size w ≡ ok w') × Refilled max_size w w'
  unfolding refill
  refill-Refilled max_size w c = elim (Bool-cases w.eof) [
    | inl e ↦ (w, rw e, record { clean = c; same = refl; hashed = refl; full = inl (rw e) })
    | inr e ↦
        let (w', q, f) = fill-Filled max_size w.reader w.buf w.file_hasher c in
        (
          w',
          rw e q,
          record { clean = f.clean; same = rw e f.same; hashed = rw e f.hashed; full = f.full },
        )
  ]
