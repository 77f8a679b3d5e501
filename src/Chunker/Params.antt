-- ===== src/Chunker/Params.antt =====
-- `ChunkerParams`, its bounds, and the `--chunk-size` argument (src/chunker.rs).
use git_storage.Prelude.{
  ℕ, ◌-◌, ◌*◌, ◌/◌, ◌≤◌, ◌<◌, ◌^◌, ◌≡◌, refl, ◌||◌, Option, none, some, length, take, ltb, leb,
  ◌==◌, if◌then◌else◌, arith,
}
use git_storage.Prelude.Text.{Text}
use git_storage.Prelude.Str.{trim, last, parse_usize}
use git_storage.Prelude.Result.{
  Result, ok, ◌>>=◌, ◌>>◌, ensure, ok_or, invalid_chunk_size, chunk_size_overflow, below_min_avg,
  above_max_avg,
}

abbrev pub min_avg_size : ℕ
min_avg_size = 1024

abbrev pub max_avg_size : ℕ
max_avg_size = 16 * 1024 * 1024

abbrev pub default_avg_size : ℕ
default_avg_size = 1024 * 1024

abbrev pub abs_max_chunk : ℕ
abs_max_chunk = max_avg_size * 4

pub record ChunkerParams : Type 0 where
  pub min_size : ℕ
  pub avg_size : ℕ
  pub max_size : ℕ

unfoldable pub validate_avg_size : ℕ → Result (Unit {0})
validate_avg_size bytes = do
  ensure (leb min_avg_size bytes) below_min_avg
  ensure (leb bytes max_avg_size) above_max_avg

unfoldable pub from_avg : ℕ → Result ChunkerParams
unfolding validate_avg_size
from_avg avg = do
  validate_avg_size avg
  ok (record { min_size = avg / 2; avg_size = avg; max_size = avg * 4 })

-- The number's text and its multiplier, by the last character.
unfoldable pub split_suffix : Text → Text × ℕ
unfolding last
split_suffix s = elim (last s) [
  | none ↦ (s, 1)
  | some c ↦
      if (c == b'k') || (c == b'K')
      then (take (length s - 1) s, 1024)
      else if (c == b'm') || (c == b'M')
      then (take (length s - 1) s, 1024 * 1024)
      else (s, 1)
]

-- `value.checked_mul(mult)` on a 64-bit `usize`
unfoldable pub checked_mul : ℕ → ℕ → Option ℕ
checked_mul a b = if ltb (a * b) (2 ^ 64) then some (a * b) else none

unfoldable pub parse_chunk_size : Text → Result ℕ
parse_chunk_size arg = do
  let (num, mult) = split_suffix (trim arg)
  value ← ok_or (parse_usize (trim num)) invalid_chunk_size
  bytes ← ok_or (checked_mul value mult) chunk_size_overflow
  validate_avg_size bytes
  ok bytes

-- The parameters that the chunker works with.
pub record IsValid (p : ChunkerParams) : Type 0 where
  pub min_pos : 0 < p.min_size
  pub min_avg : p.min_size < p.avg_size
  pub avg_max : p.avg_size < p.max_size

-- An accepted average lies in the bounds, and an average in the bounds is accepted, with a minimum
-- of half and a maximum of four times the average.
pub from_avg-IsValid :
    (avg : ℕ) (p : ChunkerParams)
    → from_avg avg ≡ ok p
    → IsValid p × (p.max_size ≤ abs_max_chunk) × (min_avg_size ≤ avg) × (avg ≤ max_avg_size)
unfolding from_avg
from_avg-IsValid avg p h = ground arith

pub from_avg-total :
    (avg : ℕ)
    → min_avg_size ≤ avg
    → avg ≤ max_avg_size
    → from_avg avg ≡ ok (record { min_size = avg / 2; avg_size = avg; max_size = avg * 4 })
unfolding from_avg
from_avg-total avg h k = ground arith

parse_chunk_size_bounds :
    (arg : Text) (n : ℕ) → parse_chunk_size arg ≡ ok n → (min_avg_size ≤ n) × (n ≤ max_avg_size)
unfolding parse_chunk_size validate_avg_size
parse_chunk_size_bounds arg n h = ground arith

-- What `--chunk-size` accepts is an average in the bounds, and can be turned into parameters that
-- the chunker works with.
pub parse_chunk_size-from_avg :
    (arg : Text) (n : ℕ)
    → parse_chunk_size arg ≡ ok n
    → (p : ChunkerParams) × (from_avg n ≡ ok p) × (p.avg_size ≡ n) × IsValid p
parse_chunk_size-from_avg arg n h =
    let (low, high) = parse_chunk_size_bounds arg n h in
    let made = from_avg-total n low high in (_, made, refl, (from_avg-IsValid n _ made).0)
