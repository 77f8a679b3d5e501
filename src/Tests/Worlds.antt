-- ===== src/Tests/Worlds.antt =====
-- A log in memory with one file on a volume, and a serializer for three transactions.
use git_storage.Prelude.{
  ◌++◌, zero, suc, ◌≡◌, refl, ap, sym, Bool, true, false, ◌&&◌, Option, none, some, List, [], ◌∷◌,
  ◌%◌, if◌then◌else◌, ◌==◌, arith, Bool-cases, inl, inr,
}
use git_storage.Prelude.Text.{Text, Bytes, codes, eqb, eq_of_eqb}
use git_storage.Prelude.Int.{pos}
use git_storage.Prelude.Result.{Result, ok}
use git_storage.Map.{get}
use git_storage.Map.Order.{text_ord, pair_ord}
use git_storage.Backend.Laws.{Grows-refl}
use git_storage.Manifest.{Manifest, same_chunk, same_chunks, same_manifest, eq_of_same_manifest}
use git_storage.Engine.Txn.{Txn, delta, checkpoint, compact, SegRec}
use git_storage.Engine.Serde.{Serde, IsFaithful}
use git_storage.Engine.Config.{Engine}
use git_storage.Engine.Monad.{World}
use git_storage.Engine.Put.{put_loop}
use git_storage.Engine.Repoint.{IdSet}
use git_storage.Crypto.Keys.{aad, open_manifest, seal_manifest, to_le_bytes}
use git_storage.Engine.Monad.{
  ◌>>=◌, meanwhile, on_index, pure, lift, fill_bytes, continue, draw, fail, maybe_crash,
}
use git_storage.Engine.Load.{
  log_tip, load_full_state, build_commit, load_from, read_txn, walk_commits, walk_step,
}
use git_storage.Engine.Put.{holds, put_txn, checkpoint_due, commit_put}
use git_storage.Engine.Replay.{apply_tail}
use git_storage.Engine.Txn.{apply_txn}
use git_storage.Engine.Commit.{Steady, RivalsOnly-Onward}
use git_storage.Engine.Commit.Outcome.{put_loop-PutDone}
use git_storage.Tests.Memory.Laws.{memory-IsGit}
use git_storage.Tests.Fixtures.{plain_crates, plain_crates-IsSound, test_keys, chunk_on, file_of}
use git_storage.Tests.Memory.{memory, views, empty}

-- The identity of the segment that a compaction of `v0` makes of the chunk.
abbrev pub seg_t : Text
seg_t = codes "gitstorage-compact-seg" ++ (0 ∷ codes "v0" ++ (0 ∷ codes "cccc" ++ (0 ∷ [])))

abbrev pub file_a : Manifest
file_a = record (file_of (codes "a") (chunk_on (codes "v0") (codes "cccc") ∷ [])) {
  file_hash = codes "cccc";
}

abbrev pub moved_a : Manifest
moved_a = record file_a {
  chunks = record (chunk_on (codes "v0") (codes "cccc")) { vol = codes "v1"; seg = seg_t } ∷ [];
}

abbrev pub seal_a : SegRec
seal_a = record { vol = codes "v0"; seg = codes "s"; bytes = 5 }

abbrev pub seal_t : SegRec
seal_t = record { vol = codes "v1"; seg = seg_t; bytes = 5 }

module _ {ℓ} {A : Type ℓ} (same : A → A → Bool) (eq : (a b : A) → same a b ≡ true → a ≡ b) where
  abbrev pub same_list : List A → List A → Bool
  same_list [] [] = true
  same_list (a ∷ xs) (b ∷ ys) = same a b && same_list xs ys
  same_list _ _ = false

  pub eq_of_same_list : (xs ys : List A) → same_list xs ys ≡ true → xs ≡ ys
  eq_of_same_list [] [] h = refl
  eq_of_same_list [] (b ∷ ys) h = cc
  eq_of_same_list (a ∷ xs) [] h = cc
  eq_of_same_list (a ∷ xs) (b ∷ ys) h = ground (arith, eq a b, eq_of_same_list xs ys)

  abbrev pub same_option : Option A → Option A → Bool
  same_option none none = true
  same_option (some a) (some b) = same a b
  same_option _ _ = false

  pub eq_of_same_option : (xs ys : Option A) → same_option xs ys ≡ true → xs ≡ ys
  eq_of_same_option none none h = refl
  eq_of_same_option none (some b) h = cc
  eq_of_same_option (some a) none h = cc
  eq_of_same_option (some a) (some b) h = ap some (eq a b h)

abbrev pub same_seal : SegRec → SegRec → Bool
same_seal a b = eqb a.vol b.vol && (eqb a.seg b.seg && (a.bytes == b.bytes))

pub eq_of_same_seal : (a b : SegRec) → same_seal a b ≡ true → a ≡ b
eq_of_same_seal a b h = ground (arith, eq_of_eqb a.vol b.vol, eq_of_eqb a.seg b.seg)

-- Equality of transactions.
abbrev pub same_txn : Txn → Txn → Bool
same_txn (delta p r s) (delta q t u) =
    same_option same_manifest eq_of_same_manifest p q
    && (same_option eqb eq_of_eqb r t && same_list same_seal eq_of_same_seal s u)
same_txn (compact r s p) (compact t u q) =
    same_list eqb eq_of_eqb r t
    && (same_list same_seal eq_of_same_seal s u && same_list same_manifest eq_of_same_manifest p q)
same_txn _ _ = false

pub eq_of_same_txn : (a b : Txn) → same_txn a b ≡ true → a ≡ b
eq_of_same_txn (delta p r s) (delta q t u) h = ground (
  arith,
  eq_of_same_option same_manifest eq_of_same_manifest p q,
  eq_of_same_option eqb eq_of_eqb r t,
  eq_of_same_list same_seal eq_of_same_seal s u,
)
eq_of_same_txn (compact r s p) (compact t u q) h = ground (
  arith,
  eq_of_same_list eqb eq_of_eqb r t,
  eq_of_same_list same_seal eq_of_same_seal s u,
  eq_of_same_list same_manifest eq_of_same_manifest p q,
)
eq_of_same_txn (delta p r s) (compact _ _ _) h = cc
eq_of_same_txn (delta p r s) (checkpoint _ _) h = cc
eq_of_same_txn (compact r s p) (delta _ _ _) h = cc
eq_of_same_txn (compact r s p) (checkpoint _ _) h = cc
eq_of_same_txn (checkpoint _ _) b h = cc

abbrev pub put_a : Txn
put_a = delta (some file_a) none (seal_a ∷ [])

abbrev pub remove_a : Txn
remove_a = delta none (some (codes "a")) []

abbrev pub compact_v0 : Txn
compact_v0 = compact (codes "v0" ∷ []) (seal_t ∷ []) (moved_a ∷ [])

-- A serializer for the three transactions of the examples.
abbrev pub to_vec : Txn → Option Bytes
to_vec t =
    if same_txn t put_a
    then some (1 ∷ [])
    else if same_txn t remove_a
    then some (2 ∷ [])
    else if same_txn t compact_v0
    then some (3 ∷ [])
    else none

abbrev pub from_slice : Bytes → Option Txn
from_slice (suc zero ∷ []) = some put_a
from_slice (suc (suc zero) ∷ []) = some remove_a
from_slice (suc (suc (suc zero)) ∷ []) = some compact_v0
from_slice _ = none

pub from_slice-to_vec : (t : Txn) (b : Bytes) → to_vec t ≡ some b → from_slice b ≡ some t
from_slice-to_vec t b h = elim (Bool-cases (same_txn t put_a)) [
  | inl p ↦
      let g = rw p at h in
      let is : 1 ∷ [] ≡ b = cc in rw⁻¹ is (ap some (sym (eq_of_same_txn t put_a p)))
  | inr p ↦ elim (Bool-cases (same_txn t remove_a)) [
    | inl q ↦
        let g = rw (p, q) at h in
        let is : 2 ∷ [] ≡ b = cc in rw⁻¹ is (ap some (sym (eq_of_same_txn t remove_a q)))
    | inr q ↦ elim (Bool-cases (same_txn t compact_v0)) [
      | inl c ↦
          let g = rw (p, q, c) at h in
          let is : 3 ∷ [] ≡ b = cc in rw⁻¹ is (ap some (sym (eq_of_same_txn t compact_v0 c)))
      | inr c ↦ absurd (let g = rw (p, q, c) at h in cc)
    ]
  ]
]

abbrev pub small_serde : Serde
small_serde = record { to_vec = to_vec; from_slice = from_slice }

pub small_serde-IsFaithful : IsFaithful small_serde
small_serde-IsFaithful = record { from_slice-to_vec = from_slice-to_vec }

abbrev pub small_engine : Engine
small_engine = record {
  keys = test_keys;
  config = record {
    version = 1;
    chunker = record { min_size = 1024; avg_size = 2048; max_size = 8192 };
    zstd_level = pos 3;
    checkpoint_interval = 4;
    volumes = none;
    index_url = none;
  };
}

-- Another process runs beside the engine, and changes nothing.
abbrev pub start : World memory
start = record {
  disks = record { index = empty; volumes = [] };
  rivals = (λ d. d) ∷ [];
  random = λ n. n % 256;
  drawn = 0;
  now = pos 0;
  env = λ v. none;
}

pub start-Steady : Steady views start
unfolding get
start-Steady = ((λ n c h. cc), ((λ d. (Grows-refl views d.index, λ h. h)), tt))

abbrev pub after_put : Result Bool × World memory
after_put = put_loop plain_crates small_serde small_engine 1 (codes "a") file_a (seal_a ∷ []) start

pub put_runs : after_put.0 ≡ ok true
unfolding put_loop ◌>>=◌ log_tip meanwhile on_index load_full_state get pure holds build_commit lift
    put_txn checkpoint_due same_manifest eqb same_chunks same_chunk fill_bytes aad open_manifest
    seal_manifest to_le_bytes load_from read_txn walk_commits walk_step continue draw fail
    maybe_crash commit_put apply_tail apply_txn
put_runs = refl

pub after_put-IsPlain : views.IsPlain after_put.1.disks.index
after_put-IsPlain =
    let (old, landed) =
      put_loop-PutDone plain_crates small_serde views small_engine plain_crates-IsSound
        small_serde-IsFaithful memory-IsGit 1 file_a (seal_a ∷ []) start after_put.1 true
        start-Steady (λ i. (put_runs i, after_put.1)) in
    let on = RivalsOnly-Onward views start-Steady landed.since in
    landed.appends.grows.plain (on.grows.plain (start-Steady).0)

abbrev pub moved_ids : IdSet
moved_ids = (codes "cccc", tt) ∷ []
