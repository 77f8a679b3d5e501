-- ===== src/Chunker.antt =====
-- src/chunker.rs: content-defined chunking (FastCDC).
pub mod Params
pub mod Gear
pub mod Cut
pub mod Stream
