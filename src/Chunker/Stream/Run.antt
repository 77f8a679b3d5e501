-- ===== src/Chunker/Stream/Run.antt =====
-- `stream_chunks` finds the chunks that the bytes determine, however the reader cuts them up.
use git_storage.Prelude.{
  ℕ, zero, suc, ◌≤◌, ◌<◌, ◌≡◌, refl, ap, ◌∙◌, ◌⊎◌, inl, inr, [], ◌∷◌, ◌++◌, length, take, drop,
  arith, length-append, length-drop, take-append-of-le, drop-append-of-le,
}
use mathlib.Core.List.{append-nil}
use git_storage.Prelude.Text.{Bytes}
use git_storage.Prelude.Result.{Result, ok, ◌>>=◌, bind_assoc, bind_ext}
use git_storage.Crypto.Primitives.{Primitives, IsSound}
use git_storage.Chunker.Params.{ChunkerParams}
use git_storage.Chunker.Cut.{FastCdc, new, cut}
use git_storage.Chunker.Cut.Bounds.{IsOrdered, cut-Cuts, cut-append}
use git_storage.Chunker.Stream.{Reader, Window, window_new, emit, loop, contents, stream_chunks}
use git_storage.Chunker.Stream.Spec.{split, boundary_of_cut, each}
use git_storage.Chunker.Stream.Refill.{IsClean, pending, refill-Refilled}

module _ (P : Primitives) (sound : IsSound P) where
  module _ {ℓ} {S : Type ℓ} (cdc : FastCdc) (on_chunk : Bytes → S → Result S) where
    -- What a run gives: the callback on the chunks of the bytes left, and the hash of all.
    abbrev run : ℕ → Bytes → P.Hasher → S → Result (P.Hasher × S)
    run fuel left h s = each on_chunk (split cdc fuel left) s >>= λ s'. ok (h, s')

    abbrev outcome : ℕ → Window P → S → Result (P.Hasher × S)
    outcome fuel w s =
        run fuel (w.buf ++ pending P sound w) (P.update w.file_hasher (pending P sound w)) s

    run-cons :
        (fuel : ℕ) (b : ℕ) (bs : Bytes) (h : P.Hasher) (s : S) (e : ℕ)
        → cut cdc (b ∷ bs) ≡ ok e
        → run (suc fuel) (b ∷ bs) h s
          ≡ (on_chunk (take e (b ∷ bs)) s >>= λ s'. run fuel (drop e (b ∷ bs)) h s')
    unfolding split each
    run-cons fuel b bs h s e q = rw (boundary_of_cut cdc (b ∷ bs) e q) (
        bind_assoc (on_chunk (take e (b ∷ bs)) s) (each on_chunk (split cdc fuel (drop e (b ∷ bs))))
          _)

    module _ (v : IsOrdered cdc) (fuel : ℕ) (again : Window P → S → Result (P.Hasher × S))
        (ih : (w : Window P) (s : S)
          → IsClean w.reader
          → length (w.buf ++ pending P sound w) < fuel
          → again w s ≡ outcome fuel w s) where
      emit_round :
          (w : Window P) (s : S) (b : ℕ) (bs : Bytes)
          → w.buf ≡ b ∷ bs
          → IsClean w.reader
          → (pending P sound w ≡ []) ⊎ (cdc.max_size ≤ length w.buf)
          → length (w.buf ++ pending P sound w) < suc fuel
          → emit P cdc on_chunk again w s (b ∷ bs) ≡ outcome (suc fuel) w s
      unfolding emit
      emit_round w s b bs q c full h =
          let (e, here, bound) = cut-Cuts cdc (b ∷ bs) v (omega arith) in
          let rest = pending P sound w in
          let there : cut cdc ((b ∷ bs) ++ rest) ≡ ok e =
            ahead (b ∷ bs) rest e here (rw q at full) in
          let t = take-append-of-le e (b ∷ bs) rest bound.within in
          let d = drop-append-of-le e (b ∷ bs) rest bound.within in
          rw (q, here, run-cons fuel b (bs ++ rest) (P.update w.file_hasher rest) s e there, t, d)
            (bind_ext (on_chunk (take e (b ∷ bs)) s) _ _ (λ s'.
              ih (record w { buf = drop e (b ∷ bs) }) s' c (fewer e bound.positive bound.within)))
        where
          fewer :
              (e : ℕ)
              → 0 < e
              → e ≤ length (b ∷ bs)
              → length (drop e (b ∷ bs) ++ pending P sound w) < fuel
          fewer e p within = omega (
            arith,
            length-append (drop e (b ∷ bs)) (pending P sound w),
            length-drop e (b ∷ bs),
            length-append w.buf (pending P sound w),
            ap length q,
          )

          ahead :
              (buf rest : Bytes) (e : ℕ)
              → cut cdc buf ≡ ok e
              → (rest ≡ []) ⊎ (cdc.max_size ≤ length buf)
              → cut cdc (buf ++ rest) ≡ ok e
          ahead buf rest e here (inl none_left) = rw (none_left, append-nil) here
          ahead buf rest e here (inr full) = cut-append cdc buf rest v full ∙ here

      emit-outcome :
          (w : Window P) (s : S) (buf : Bytes)
          → w.buf ≡ buf
          → IsClean w.reader
          → (pending P sound w ≡ []) ⊎ (cdc.max_size ≤ length w.buf)
          → length (w.buf ++ pending P sound w) < suc fuel
          → emit P cdc on_chunk again w s buf ≡ outcome (suc fuel) w s
      emit-outcome w s [] q c (inl e) h = unfold emit split each in rw (q, e, sound.update-nil)
      emit-outcome w s [] q c (inr full) h =
          absurd (let n : length w.buf ≡ 0 = ap length q in omega arith)
      emit-outcome w s (b ∷ bs) q c full h = emit_round w s b bs q c full h

    loop-outcome :
        IsOrdered cdc
        → (fuel : ℕ) (w : Window P) (s : S) → IsClean w.reader
        → length (w.buf ++ pending P sound w) < fuel
        → loop P cdc on_chunk fuel w s ≡ outcome fuel w s
    unfolding loop
    loop-outcome v zero w s c h = absurd (omega arith)
    loop-outcome v (suc fuel) w s c h =
        let (w', e, r) = refill-Refilled P sound cdc.max_size w c in
        rw (e, ← r.same, ← r.hashed)
          (emit-outcome v fuel (loop P cdc on_chunk fuel) (λ w s. loop-outcome v fuel w s) w' s
            w'.buf refl r.clean r.full (rw r.same h))

  -- However the reader cuts its bytes up, `stream_chunks` hands the callback the chunks that the
  -- bytes alone determine, in order, and returns the hash of all the bytes. It never runs out of
  -- rounds, and its only errors are the callback's.
  pub stream_chunks-split {ℓ} :
      {S : Type ℓ} (reader : Reader) (params : ChunkerParams) (seed : ℕ)
      (on_chunk : Bytes → S → Result S) (s : S)
      → IsClean reader
      → IsOrdered (new params seed)
      → stream_chunks P reader params seed on_chunk s ≡ (
          each on_chunk
            (split (new params seed) (suc (length (contents reader))) (contents reader))
            s
          >>= λ s'. ok (P.to_hex (P.hash (contents reader)), s'))
  unfolding stream_chunks
  stream_chunks-split reader params seed on_chunk s c v =
      let n = suc (length (contents reader)) in
      let bytes = contents reader in
      let cdc = new params seed in
      rw (loop-outcome (new params seed) on_chunk v n (window_new P reader) s c (omega arith)) (
        bind_assoc (each on_chunk (split cdc n bytes) s) _ _
        ∙ bind_ext (each on_chunk (split cdc n bytes) s) _ _
            (λ s'. rw (sound.finalize-update bytes)))
