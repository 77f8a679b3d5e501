-- ===== src/Lib.antt =====
-- The verification library of git-storage, an encrypted, deduplicated file store on git repositories.
--
-- A file is cut into chunks by content (src/chunker.rs), each chunk is compressed and sealed under a
-- key that its own hash determines (src/crypto.rs), and the sealed chunks that are new go as one
-- segment to one of the store's volumes, a git repository each. What the store holds is a log of
-- sealed transactions on the branch `log` of the index repository; a writer appends to it by a
-- compare-and-swap of the branch (src/engine.rs). Paths below are from the repository's root.
--
--   * Prelude: shared names. Prelude/Text, a text or byte string as the list of its code points or
--     bytes; Prelude/Str, the functions of Rust's `str` that the program calls; Prelude/Result,
--     `anyhow::Result` with the kind of the error in place of its message; Prelude/Int, `i64`;
--     Prelude/Utf8, Words and Decimal, `from_utf8`, `lines`, `split_whitespace` and `format!`.
--   * Map: `BTreeMap` and `BTreeSet` as key-sorted association lists. Map/Sorted: order is kept.
--   * Manifest: src/manifest.rs, `ChunkRef` and `Manifest` with their derived equality.
--   * Chunker: src/chunker.rs. Params (`ChunkerParams::from_avg`, `parse_chunk_size`), Gear
--     (`splitmix64`, `gear_table`, `mask`, on 64-bit words with their wrap-around), Cut
--     (`FastCdc::new` and `cut`), Stream (`stream_chunks` over a reader, which is the list of what its
--     reads return). Cut/Bounds, Stream/Spec, Stream/Refill and Stream/Run hold the proofs. The two
--     loops of `stream_chunks` run on fuel: the number of the reads, and one round more than there
--     are bytes; both are proved to be enough.
--   * Crypto: src/crypto.rs. Primitives is the interface of blake3, zstd and XChaCha20-Poly1305,
--     which are parameters; Keys (`Keys` and its methods), Keyfile (`keyfile::load_or_create`).
--   * Process: what the program uses of the machine: subprocesses, files, environment, clocks. A
--     machine is a parameter, and git and curl are programs of it. Process/Steps puts relations of
--     states together, Process/Runs takes successful runs apart.
--   * Gitrepo: src/gitrepo.rs, `Bare`: the git commands that its methods run, and in
--     Gitrepo/Answers what they make of the output; Gitrepo/Listing reads printed listings back.
--   * Backend: the `Backend` trait of src/backend.rs, as a record of operations on a repository state;
--     Backend/Laws, what the engine relies on of git. Backend/Local is `LocalBackend` and
--     Backend/Remote `RemoteBackend` (Retry: `net_git_retrying`; Serve: its `impl Backend`; Answers:
--     what it makes of `ls-remote` and `push`; Pacing and Probed: its throttle and its probe), both as
--     such records over any machine; the state behind a backend is its own fields and a process on a
--     machine. Network is `net_git`, `mirror_repo` and the classification of rate limits, Base64 the
--     authentication header. Isolation: what the calls of a backend run. Swaps: what its
--     compare-and-swap does to the refs that git keeps. Provision: src/backend/provision.rs.
--   * Cli: src/main.rs. Url (`parse_volume_arg`, `owner_name_from_url`), Init (`provision_volume`,
--     `init`, and the targets of `mirror`).
--   * Engine: src/engine.rs. Txn (`Txn`, `apply_txn`, `StoreState`), Replay (`load_full_state` on
--     transactions at hand), Volumes (`open_volumes`, `select_volume`, `select_compact_dest`), Monad
--     (the world that an engine acts on: repositories, the steps of other processes, random bytes,
--     clock, environment; an action returns a result and a world, also where it fails), Config,
--     Load (`load_full_state`, and a transaction's way into a commit), Stage (what `put` buffers), Put,
--     Get (Get/Verified: the checks on the way out),
--     Remove, Log (counts over the log), Mirror, Stats, Repoint and Compact (`compact_one`,
--     `commit_compaction`), Sweep (`sweep_orphans`, `compact`, and in Sweep/Keeps and
--     Sweep/Orphans what a sweep leaves alone). Commit: what a tip of the log
--     stands for (Reading, Writing, Append), what the commit loops do while other processes
--     go on (Landing, Fresh, Done, Outcome, Reclaim), and alone (Alone, Returns, Uncontended).
--   * Tests: the theorems at concrete inputs.
--
-- Bounds: `usize` and `u64` are natural numbers, with the wrap-around, saturation or overflow check
-- of the source where it has one; sums of sizes wrap as in a release build. The retries of the log's
-- compare-and-swap are the 32 of the source, as structural recursion on the attempts left.
--
-- A network command is retried in rounds of which six are given, one more than
-- MAX_RATE_LIMIT_RETRIES, and that is proved to be enough. Durations and instants are in nanoseconds.
--
-- Not modelled: serde_json and TOML text (a parameter with a round-trip law), floating-point
-- arithmetic (a parameter), what git and curl themselves do (programs of a machine, with named
-- hypotheses where a theorem needs them), the parsing of the command line, what commands print, and
-- the commands that only open an engine and print what one operation of it returns. Where a process
-- has several backends, each has its own view of the machine: that two directories are on one disk
-- is not modelled. Output that Rust decodes lossily is taken as bytes, since only ASCII text is looked
-- for in it. The directory of a store is taken to be there: its creation is left out.
pub mod Prelude
pub mod Map
pub mod Manifest
pub mod Process
pub mod Gitrepo
pub mod Backend
pub mod Engine
pub mod Crypto
pub mod Chunker
pub mod Cli
pub mod Tests
