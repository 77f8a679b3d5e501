-- ===== src/Prelude/Result.antt =====
-- `anyhow::Result`: a value or an error, whose message is not modelled beyond its kind.
use mathlib.Core.Path.{◌≡◌, refl}
use mathlib.Core.Bool.{Bool}
use mathlib.Core.Option.{Option, none, some}
use git_storage.Prelude.Tests.{if◌then◌else◌}

-- One constructor for each reason for which the modelled code gives up.
pub data Error : Type 0 where
  invalid_chunk_size chunk_size_overflow below_min_avg above_max_avg : Error
  budget_exhausted cas_exhausted no_such_file unknown_volume missing_blob : Error
  hash_mismatch length_mismatch file_hash_mismatch : Error
  aead_failed zstd_failed bad_hash too_short bad_payload : Error
  no_mirror_target keyfile_missing bad_keyfile : Error
  bad_volume_arg no_volumes bad_url unsupported_scheme foreign_repo token_missing : Error
  unexpected_http create_failed pinned_chunk_size already_initialized : Error
  git_failed backend_failed io_failed refuse_destroy bad_utf8 bad_timestamp : Error
  -- A Rust panic, the exit of a crash hook, and a loop that the model stops.
  panicked crashed out_of_fuel : Error

pub data Result {ℓ} (A : Type ℓ) : Type ℓ where
  ok : A → Result A
  err : Error → Result A

-- `Option::with_context`
abbrev pub ok_or {ℓ} : {A : Type ℓ} → Option A → Error → Result A
ok_or none reason = err reason
ok_or (some value) reason = ok value

module _ {ℓ κ} {A : Type ℓ} {C : Type κ} where
  -- `?`, which hands an error on.
  infixl 5 ◌>>=◌
  abbrev pub ◌>>=◌ : Result A → (A → Result C) → Result C
  ◌>>=◌ (err reason) next = err reason
  ◌>>=◌ (ok value) next = next value

-- `anyhow::ensure!`
abbrev pub ensure : Bool → Error → Result (Unit {0})
ensure holds reason = ok_or (if holds then some tt else none) reason

module _ {ℓ} {C : Type ℓ} where
  infixl 5 ◌>>◌
  abbrev pub ◌>>◌ : Result (Unit {0}) → Result C → Result C
  ◌>>◌ check next = check >>= λ _. next

pub bind_assoc {ℓ κ} :
    {A C : Type ℓ} {D : Type κ} (m : Result A) (f : A → Result C) (g : C → Result D)
    → (m >>= f >>= g) ≡ (m >>= λ a. f a >>= g)
bind_assoc (err reason) f g = refl
bind_assoc (ok value) f g = refl

pub bind_ext {ℓ κ} :
    {A : Type ℓ} {C : Type κ} (m : Result A) (f g : A → Result C)
    → ((a : A) → f a ≡ g a)
    → (m >>= f) ≡ (m >>= g)
bind_ext (err reason) f g h = refl
bind_ext (ok value) f g h = h value
