-- ===== src/Engine.antt =====
-- src/engine.rs: the storage engine, a transaction log over sealed segments.
pub mod Txn
pub mod Replay
pub mod Volumes
pub mod Monad
pub mod Serde
pub mod Config
pub mod Load
pub mod Stage
pub mod Put
pub mod Get
pub mod Remove
pub mod Log
pub mod Mirror
pub mod Stats
pub mod Repoint
pub mod Compact
pub mod Sweep
pub mod Commit
