-- ===== src/Chunker/Stream.antt =====
-- `stream_chunks` (src/chunker.rs). The reader is the list of what its `read` calls return; its end
-- is the end of the file. `on_chunk` is the callback, with the variables that it changes.
pub mod Spec
pub mod Refill
pub mod Run
use git_storage.Prelude.{
  ℕ, zero, suc, ◌+◌, Bool, true, false, List, [], ◌∷◌, ◌++◌, length, take, drop, ltb, if◌then◌else◌,
}
use git_storage.Prelude.Text.{Bytes, Text}
use git_storage.Prelude.Result.{Result, ok, err, ◌>>=◌, out_of_fuel}
use git_storage.Crypto.Primitives.{Primitives}
use git_storage.Chunker.Params.{ChunkerParams}
use git_storage.Chunker.Cut.{FastCdc, new, cut}

abbrev pub Reader : Type 0
Reader = List (Result Bytes)

module _ (P : Primitives) where
  -- The local variables of the loop, but for the callback's.
  pub record Window : Type 0 where
    pub reader : Reader
    pub buf : Bytes
    pub eof : Bool
    pub file_hasher : P.Hasher

  abbrev pub window_new : Reader → Window
  window_new reader = record { reader = reader; buf = []; eof = false; file_hasher = P.hasher_new }

  -- The inner loop, `while !eof && buf.len() < cdc.max_size`. A read of no bytes is the end.
  unfoldable pub fill : ℕ → Reader → Bytes → P.Hasher → Result Window
  fill max_size [] buf h =
      ok (record { reader = []; buf = buf; eof = ltb (length buf) max_size; file_hasher = h })
  fill max_size (err e ∷ reader) buf h =
      if ltb (length buf) max_size
      then err e
      else ok (record { reader = err e ∷ reader; buf = buf; eof = false; file_hasher = h })
  fill max_size (ok [] ∷ reader) buf h =
      if ltb (length buf) max_size
      then ok (record { reader = reader; buf = buf; eof = true; file_hasher = h })
      else ok (record { reader = ok [] ∷ reader; buf = buf; eof = false; file_hasher = h })
  fill max_size (ok (b ∷ bs) ∷ reader) buf h =
      let more = fill max_size reader (buf ++ b ∷ bs) (P.update h (b ∷ bs)) in
      if ltb (length buf) max_size
      then more
      else ok (record { reader = ok (b ∷ bs) ∷ reader; buf = buf; eof = false; file_hasher = h })

  unfoldable pub refill : ℕ → Window → Result Window
  unfolding fill
  refill max_size w = if w.eof then ok w else fill max_size w.reader w.buf w.file_hasher

  module _ {ℓ} {S : Type ℓ} (cdc : FastCdc) (on_chunk : Bytes → S → Result S) where
    -- What the loop does with a refilled window; `again` is the next round.
    unfoldable pub emit :
        (Window → S → Result (P.Hasher × S)) → Window → S → Bytes → Result (P.Hasher × S)
    emit again w s [] = ok (w.file_hasher, s)
    emit again w s (b ∷ bs) = do
      end ← cut cdc (b ∷ bs)
      s' ← on_chunk (take end (b ∷ bs)) s
      again (record w { buf = drop end (b ∷ bs) }) s'

    -- The outer loop; a round consumes a byte, so the bytes left and one more bound the rounds.
    unfoldable pub loop : ℕ → Window → S → Result (P.Hasher × S)
    unfolding refill emit
    loop zero w s = err out_of_fuel
    loop (suc fuel) w s = do w' ← refill cdc.max_size w; emit (loop fuel) w' s w'.buf

-- All bytes that a reader hands over before its end.
unfoldable pub contents : Reader → Bytes
contents [] = []
contents (err e ∷ reader) = []
contents (ok [] ∷ reader) = []
contents (ok (b ∷ bs) ∷ reader) = (b ∷ bs) ++ contents reader

unfoldable pub stream_chunks {ℓ} :
    (P : Primitives) {S : Type ℓ}
    → Reader
    → ChunkerParams
    → ℕ
    → (Bytes → S → Result S)
    → S
    → Result (Text × S)
unfolding loop contents
stream_chunks P reader params gear_seed on_chunk s = do
  let cdc = new params gear_seed
  (hasher, s') ← loop P cdc on_chunk (suc (length (contents reader))) (window_new P reader) s
  ok (P.to_hex (P.finalize hasher), s')
