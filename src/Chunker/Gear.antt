-- ===== src/Chunker/Gear.antt =====
-- The gear table and the masks (src/chunker.rs).
use Prim.Native.Nat.{bit_xor}
use git_storage.Prelude.{
  ℕ, zero, suc, ◌+◌, ◌-◌, ◌*◌, ◌/◌, ◌%◌, ◌^◌, List, [], ◌∷◌, if◌then◌else◌, ltb, length, ◌≡◌, refl,
  arith,
}

abbrev pub u64_mod : ℕ
u64_mod = 2 ^ 64

-- The returned number, and the new state.
unfoldable pub splitmix64 : ℕ → ℕ × ℕ
splitmix64 state =
    let s = (state + 0x9E3779B97F4A7C15) % u64_mod in
    let z₁ = bit_xor s (s / 2 ^ 30) * 0xBF58476D1CE4E5B9 % u64_mod in
    let z₂ = bit_xor z₁ (z₁ / 2 ^ 27) * 0x94D049BB133111EB % u64_mod in
    (bit_xor z₂ (z₂ / 2 ^ 31), s)

-- `for entry in table.iter_mut()`, over `n` entries.
unfoldable pub fill_table : ℕ → ℕ → List ℕ
unfolding splitmix64
fill_table zero state = []
fill_table (suc n) state = (splitmix64 state).0 ∷ fill_table n (splitmix64 state).1

unfoldable pub gear_table : ℕ → List ℕ
unfolding fill_table
gear_table seed = fill_table 256 seed

-- `(1u64 << bits) - 1`; the shift amount is taken modulo the width.
unfoldable pub mask : ℕ → ℕ
mask bits = 2 ^ (bits % 64) - 1

-- `(x as f64).log2().round()`: the logarithm rounds up from the square root of two on. `halvings`
-- is its whole part, on fuel that bounds it.
unfoldable pub halvings : ℕ → ℕ → ℕ
halvings zero n = 0
halvings (suc fuel) n = let rest = halvings fuel (n / 2) in if ltb n 2 then 0 else suc rest

unfoldable pub log2_round : ℕ → ℕ
unfolding halvings
log2_round n = let k = halvings 64 n in if ltb (n * n) (2 ^ (2 * k + 1)) then k else k + 1

pub length-fill_table : (n state : ℕ) → length (fill_table n state) ≡ n
unfolding fill_table
length-fill_table zero state = refl
length-fill_table (suc n) state = omega (arith, length-fill_table n (splitmix64 state).1)
