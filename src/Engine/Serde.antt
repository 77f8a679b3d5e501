-- ===== src/Engine/Serde.antt =====
-- `serde_json` on transactions, as a parameter.
use git_storage.Prelude.{◌≡◌, Option, some}
use git_storage.Prelude.Text.{Bytes}
use git_storage.Engine.Txn.{Txn}

pub record Serde : Type 0 where
  -- `serde_json::to_vec` and `serde_json::from_slice`
  pub to_vec : Txn → Option Bytes
  pub from_slice : Bytes → Option Txn

-- What is written can be read back.
pub record IsFaithful (S : Serde) : Type 0 where
  pub from_slice-to_vec : (t : Txn) (b : Bytes) → S.to_vec t ≡ some b → S.from_slice b ≡ some t
