-- ===== src/Tests.antt =====
-- The theorems at concrete inputs.
mod Fixtures
mod Texts
mod Scripted
mod Refs
mod Remotes
mod Hosted
mod Memory
mod Chunker
mod Crypto
mod Engine
mod Worlds
mod Commit
mod Alone
mod Volumes
