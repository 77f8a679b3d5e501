-- ===== src/Tests/Chunker.antt =====
-- The chunker's theorems at concrete inputs.
use git_storage.Prelude.{ℕ, suc, ◌≤◌, ◌≡◌, refl, List, [], ◌∷◌, ◌++◌, length, arith}
use git_storage.Prelude.Text.{Bytes, codes}
use git_storage.Prelude.Str.{parse_usize, trim}
use git_storage.Prelude.Result.{Result, ok, ◌>>=◌}
use git_storage.Chunker.Params.{
  ChunkerParams, from_avg, parse_chunk_size, IsValid, from_avg-IsValid, parse_chunk_size-from_avg,
  split_suffix, checked_mul, validate_avg_size, abs_max_chunk, min_avg_size, max_avg_size,
}
use git_storage.Chunker.Cut.{FastCdc, new, cut}
use git_storage.Chunker.Cut.Bounds.{IsOrdered, new-IsOrdered, Cuts, cut-Cuts, cut-append}
use git_storage.Chunker.Stream.{Reader, contents, stream_chunks}
use git_storage.Chunker.Stream.Spec.{split, each, InBounds, split-InBounds}
use git_storage.Chunker.Stream.Run.{stream_chunks-split}
use git_storage.Tests.Fixtures.{plain_crates, plain_crates-IsSound}

-- A chunker that cuts between 2 and 8 bytes, at every even byte past the minimum.
abbrev small_cdc : FastCdc
small_cdc = record {
  gear = 1 ∷ 2 ∷ 3 ∷ [];
  mask_easy = 1;
  mask_hard = 3;
  min_size = 2;
  avg_size = 4;
  max_size = 8;
}

small_cdc-IsOrdered : IsOrdered small_cdc
small_cdc-IsOrdered = record { min_pos = omega arith; min_avg = omega arith; avg_max = omega arith }

abbrev ten_bytes : Bytes
ten_bytes = 0 ∷ 1 ∷ 2 ∷ 0 ∷ 1 ∷ 2 ∷ 0 ∷ 1 ∷ 2 ∷ 0 ∷ []

abbrev small_params : ChunkerParams
small_params = record { min_size = 2; avg_size = 4; max_size = 8 }

small_params-IsValid : IsValid small_params
small_params-IsValid = record {
  min_pos = omega arith;
  min_avg = omega arith;
  avg_max = omega arith;
}

abbrev two_reads : Reader
two_reads = ok (0 ∷ 1 ∷ 2 ∷ []) ∷ ok (0 ∷ 1 ∷ 2 ∷ 0 ∷ 1 ∷ []) ∷ []

abbrev collect : Bytes → List Bytes → Result (List Bytes)
collect c cs = ok (c ∷ cs)

cut-Cuts_example : (e : ℕ) × (cut small_cdc ten_bytes ≡ ok e) × Cuts small_cdc 10 e
cut-Cuts_example = cut-Cuts small_cdc ten_bytes small_cdc-IsOrdered (omega arith)

cut-append_example : cut small_cdc (ten_bytes ++ ten_bytes) ≡ cut small_cdc ten_bytes
cut-append_example = cut-append small_cdc ten_bytes ten_bytes small_cdc-IsOrdered (omega arith)

split-InBounds_example : InBounds small_cdc (split small_cdc 10 ten_bytes)
split-InBounds_example = split-InBounds small_cdc small_cdc-IsOrdered 10 ten_bytes

stream_chunks-split_example : stream_chunks plain_crates two_reads small_params 7 collect [] ≡ (
    each collect
      (split (new small_params 7) (suc (length (contents two_reads))) (contents two_reads))
      []
    >>= λ s'. ok (contents two_reads, s'))
stream_chunks-split_example =
    stream_chunks-split plain_crates plain_crates-IsSound two_reads small_params 7 collect [] tt
      (new-IsOrdered small_params 7 small_params-IsValid)

two_kib : from_avg 2048 ≡ ok (record { min_size = 1024; avg_size = 2048; max_size = 8192 })
unfolding from_avg
two_kib = refl

from_avg-IsValid_example :
    IsValid (record { min_size = 1024; avg_size = 2048; max_size = 8192 })
    × (8192 ≤ abs_max_chunk)
    × (min_avg_size ≤ 2048)
    × (2048 ≤ max_avg_size)
from_avg-IsValid_example =
    from_avg-IsValid 2048 (record { min_size = 1024; avg_size = 2048; max_size = 8192 }) two_kib

parsed : parse_chunk_size (codes " 64k") ≡ ok 65536
unfolding parse_chunk_size parse_usize trim split_suffix checked_mul validate_avg_size
parsed = refl

parse_chunk_size-from_avg_example :
    (p : ChunkerParams) × (from_avg 65536 ≡ ok p) × (p.avg_size ≡ 65536) × IsValid p
parse_chunk_size-from_avg_example = parse_chunk_size-from_avg (codes " 64k") 65536 parsed
