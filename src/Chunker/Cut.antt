-- ===== src/Chunker/Cut.antt =====
-- `FastCdc` and its `cut` (src/chunker.rs).
pub mod Bounds
use Prim.Native.Nat.{bit_and, max}
use git_storage.Prelude.{
  ℕ, zero, suc, ◌+◌, ◌-◌, ◌*◌, ◌%◌, ◌≤◌, ◌<◌, ◌≡◌, refl, List, [], ◌∷◌, ◌++◌, length, take, drop,
  min, leb, ltb, ◌==◌, if◌then◌else◌, get_or, arith,
}
use git_storage.Prelude.Text.{Bytes}
use git_storage.Prelude.Result.{Result, ok, err, ◌>>=◌, panicked}
use git_storage.Chunker.Gear.{u64_mod, gear_table, mask, log2_round}
use git_storage.Chunker.Params.{ChunkerParams}

pub record FastCdc : Type 0 where
  pub gear : List ℕ
  pub min_size : ℕ
  pub avg_size : ℕ
  pub max_size : ℕ
  pub mask_hard : ℕ
  pub mask_easy : ℕ

-- `FastCdc::new`
unfoldable pub new : ChunkerParams → ℕ → FastCdc
new params gear_seed =
    let bits = log2_round params.avg_size in
    record {
      gear = gear_table gear_seed;
      min_size = params.min_size;
      avg_size = params.avg_size;
      max_size = params.max_size;
      mask_hard = mask (bits + 2);
      mask_easy = mask (max (bits - 2) 1);
    }

-- `hash = (hash << 1).wrapping_add(self.gear[byte as usize])`
unfoldable pub roll : List ℕ → ℕ → ℕ → ℕ
roll gear hash byte = (hash * 2 % u64_mod + get_or gear byte 0) % u64_mod

-- How a scan ends: at a byte where the hash meets the mask, or with the hash after the last byte.
pub data Scan : Type 0 where
  hit : ℕ → Scan
  miss : ℕ → Scan

-- One of the two loops of `cut`; `i` is the counter of `enumerate`.
unfoldable pub scan : List ℕ → ℕ → ℕ → ℕ → Bytes → Scan
unfolding roll
scan gear mask hash i [] = miss hash
scan gear mask hash i (byte ∷ rest) =
    let h = roll gear hash byte in
    let later = scan gear mask h (i + 1) rest in if bit_and h mask == 0 then hit i else later

-- `buf[from..to]`, which panics where the ends are not in order or in range.
unfoldable pub slice : ℕ → ℕ → Bytes → Result Bytes
slice from to buf =
    if leb from to
    then if leb to (length buf) then ok (take (to - from) (drop from buf)) else err panicked
    else err panicked

-- The end of the second loop: a cut after the byte, or `limit` once all bytes are seen.
unfoldable pub easy_end : ℕ → ℕ → Scan → ℕ
easy_end normal limit (hit i) = normal + i + 1
easy_end normal limit (miss _) = limit

-- The second loop of `cut`, from `normal` on, with the mask that is met more often.
unfoldable pub easy_phase : FastCdc → Bytes → ℕ → ℕ → ℕ → Result ℕ
easy_phase cdc buf normal limit hash = do
  tail ← slice normal limit buf
  ok (easy_end normal limit (scan cdc.gear cdc.mask_easy hash 0 tail))

-- The end of the first loop: a cut after the byte, or the second loop.
unfoldable pub hard_end : FastCdc → Bytes → ℕ → ℕ → Scan → Result ℕ
hard_end cdc buf normal limit (hit i) = ok (cdc.min_size + i + 1)
hard_end cdc buf normal limit (miss hash) = easy_phase cdc buf normal limit hash

-- The first loop, from the minimum on: no cut is made inside the first `min_size` bytes.
unfoldable pub hard_phase : FastCdc → Bytes → ℕ → ℕ → Result ℕ
hard_phase cdc buf normal limit = do
  head ← slice cdc.min_size normal buf
  hard_end cdc buf normal limit (scan cdc.gear cdc.mask_hard 0 0 head)

unfoldable pub cut : FastCdc → Bytes → Result ℕ
unfolding hard_phase hard_end easy_phase easy_end slice scan
cut cdc buf =
    let limit = min (length buf) cdc.max_size in
    if leb (length buf) cdc.min_size
    then ok (length buf)
    else hard_phase cdc buf (min cdc.avg_size limit) limit
