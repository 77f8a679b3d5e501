-- ===== src/Cli.antt =====
-- The command line (src/main.rs): the volumes that an operator declares, and `init`.
pub mod Url
pub mod Init
