-- ===== src/Tests/Crypto.antt =====
-- The theorems on sealing and on the key file at concrete inputs.
use git_storage.Prelude.{◌≡◌, refl, true, false, none, some, [], ◌∷◌, ◌++◌, arith}
use git_storage.Prelude.Text.{Bytes, eqb}
use git_storage.Prelude.Int.{pos}
use git_storage.Prelude.Result.{ok}
use git_storage.Crypto.Keys.{
  SealedChunk, seal_chunk, open_chunk, seal_manifest, open_manifest, parse_hash,
}
use git_storage.Crypto.Keys.Laws.{
  open_chunk-seal_chunk, hash-open_chunk, open_manifest-seal_manifest,
}
use git_storage.Crypto.Keyfile.{load_or_create}
use git_storage.Crypto.Keyfile.Roundtrip.{load_or_create_again}
use git_storage.Tests.Fixtures.{plain_crates, plain_crates-IsSound, test_keys}

abbrev three : Bytes
three = 9 ∷ 8 ∷ 7 ∷ []

abbrev sealed_three : SealedChunk
sealed_three = record { chunk_id = three; plaintext_hash_hex = three; ciphertext = three }

seals : seal_chunk plain_crates test_keys three (pos 3) ≡ ok sealed_three
unfolding seal_chunk
seals = refl

open_chunk-seal_chunk_example :
    (open_chunk plain_crates test_keys three three ≡ ok three) × (three ≡ three) × (three ≡ three)
open_chunk-seal_chunk_example =
    open_chunk-seal_chunk plain_crates plain_crates-IsSound test_keys three (pos 3) sealed_three
      (omega arith) seals

opens : open_chunk plain_crates test_keys three three ≡ ok three
unfolding open_chunk parse_hash eqb
opens = refl

hash-open_chunk_example : plain_crates.from_hex three ≡ some three
hash-open_chunk_example =
    hash-open_chunk plain_crates plain_crates-IsSound test_keys three three three opens

abbrev nonce : Bytes
nonce =
    0 ∷ 1 ∷ 2 ∷ 3 ∷ 4 ∷ 5 ∷ 6 ∷ 7 ∷ 8 ∷ 9 ∷ 10 ∷ 11 ∷ 12 ∷ 13 ∷ 14 ∷ 15 ∷ 16 ∷ 17 ∷ 18 ∷ 19 ∷ 20
    ∷ 21 ∷ 22 ∷ 23 ∷ []

manifest_sealed : seal_manifest plain_crates test_keys nonce three ≡ ok (nonce ++ three)
unfolding seal_manifest
manifest_sealed = refl

open_manifest-seal_manifest_example :
    open_manifest plain_crates test_keys (nonce ++ three) ≡ ok three
open_manifest-seal_manifest_example =
    open_manifest-seal_manifest plain_crates plain_crates-IsSound test_keys nonce three
      (nonce ++ three) refl manifest_sealed

abbrev key_of_32 : Bytes
key_of_32 = nonce ++ (200 ∷ 201 ∷ 202 ∷ 203 ∷ 204 ∷ 205 ∷ 206 ∷ 255 ∷ [])

load_or_create_again_example :
    let made = load_or_create none true key_of_32 true true in
    (made.0 ≡ ok key_of_32) × (load_or_create made.1 false [] false false ≡ made)
load_or_create_again_example =
    load_or_create_again key_of_32 [] false false false (ground arith) refl
