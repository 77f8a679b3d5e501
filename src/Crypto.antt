-- ===== src/Crypto.antt =====
-- src/crypto.rs: the key hierarchy, the sealing of chunks and manifests, and the keyfile.
pub mod Primitives
pub mod Keys
pub mod Keyfile
