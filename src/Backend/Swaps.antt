-- ===== src/Backend/Swaps.antt =====
-- What the engine relies on of the refs of a backend (src/backend.rs), P2 of the design: a read sees
-- the current value, and a compare-and-swap replaces the value that it expects, or changes nothing.
pub mod OfLocal
use git_storage.Prelude.{
  ℕ, ◌≡◌, ◌≢◌, Bool, true, false, ◌&&◌, ◌||◌, Option, none, some, [], ◌∷◌, length, leb,
}
use git_storage.Prelude.Text.{Text}
use git_storage.Gitrepo.{zero_oid}

-- The refs that a state shows another.
abbrev pub SameRefs : {S : Type 0} → (S → Text → Option Text) → S → S → Type 0
SameRefs ref r s = (k : Text) → ref s k ≡ ref r k

-- One ref is set, and no other changes.
abbrev pub SetsRef : {S : Type 0} → (S → Text → Option Text) → Text → Text → S → S → Type 0
SetsRef ref n new r s = (ref s n ≡ some new) × ((k : Text) → k ≢ n → ref s k ≡ ref r k)

-- What a compare-and-swap that answers has done.
abbrev pub Swapped :
    {S : Type 0} → (S → Text → Option Text) → Text → Text → Option Text → S → S → Bool → Type 0
Swapped ref n new old r s true = (ref r n ≡ old) × SetsRef ref n new r s
Swapped ref n new old r s false = SameRefs ref r s

-- The full identity of an object: 40 hexadecimal digits, which git takes for no other revision, and
-- not the zero identity, which stands for none in the commands of git.
abbrev is_digit : ℕ → Bool
is_digit c = (leb b'0' c && leb c b'9') || (leb b'a' c && leb c b'f')

abbrev pub is_hex : Text → Bool
is_hex [] = true
is_hex (c ∷ s) = is_digit c && is_hex s

abbrev pub IsId : Text → Type 0
IsId oid = (length oid ≡ 40) × (is_hex oid ≡ true) × (oid ≢ zero_oid)

-- A value that a compare-and-swap expects.
abbrev pub Expected : Option Text → Type 0
Expected old = (v : Text) → old ≡ some v → IsId v
