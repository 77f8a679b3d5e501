-- ===== src/Tests/Fixtures.antt =====
-- A world small enough to compute in: crates that change nothing, a serializer, two volumes and a
-- spare.
use git_storage.Prelude.{ℕ, refl, sym, Bool, true, false, some, List, [], ◌∷◌, ◌++◌}
use mathlib.Core.List.{append_assoc, append-nil}
use git_storage.Prelude.Text.{Bytes, Text, codes}
use git_storage.Crypto.Primitives.{Primitives, IsSound}
use git_storage.Crypto.Keys.{Keys}
use git_storage.Manifest.{ChunkRef, Manifest}
use git_storage.Engine.Volumes.{Slot}
use git_storage.Engine.Txn.{SegIndex}

-- Crates that pass their input on.
abbrev pub plain_crates : Primitives
plain_crates = record {
  derive_key = λ context key. key;
  keyed_hash = λ key input. input;
  hash = λ a. a;
  to_hex = λ a. a;
  from_hex = λ a. some a;
  Hasher = Bytes;
  hasher_new = [];
  update = λ h a. h ++ a;
  finalize = λ h. h;
  compress = λ a level. some a;
  decompress = λ a cap. some a;
  encrypt = λ key nonce aad a. some a;
  decrypt = λ key nonce aad a. some a;
}

pub plain_crates-IsSound : IsSound plain_crates
plain_crates-IsSound = record {
  update-update = λ h a b. append_assoc h a b;
  update-nil = λ h. append-nil h;
  finalize-update = λ a. refl;
  from_hex-to_hex = λ a. refl;
  decompress-compress = λ a c level cap h fits. sym h;
  decrypt-encrypt = λ key nonce aad a c h. sym h;
}

abbrev pub test_keys : Keys
test_keys = record { master = 1 ∷ 2 ∷ []; manifest_key = 1 ∷ 2 ∷ []; gear_seed = 7 }

abbrev pub slot : Text → ℕ → Bool → Slot
slot id threshold spare = record { id = id; threshold = threshold; spare = spare }

abbrev pub three_slots : List Slot
three_slots =
    slot (codes "v0") 100 false ∷ slot (codes "v1") 200 false ∷ slot (codes "v2") 300 true ∷ []

abbrev pub seg_index : SegIndex
seg_index = ((codes "v0", codes "a"), 30) ∷ ((codes "v1", codes "b"), 180) ∷ []

abbrev pub chunk_on : Text → Text → ChunkRef
chunk_on vol id = record {
  id = id;
  plaintext_hash = id;
  len = 4;
  clen = 5;
  vol = vol;
  seg = codes "s";
}

abbrev pub file_of : Text → List ChunkRef → Manifest
file_of name chunks = record {
  name = name;
  size = 3;
  avg_chunk_size = 1024;
  file_hash = name;
  chunks = chunks;
}
