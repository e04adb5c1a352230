-- ===== src/Storage.antt =====
-- pkg/storage: the interface `Storage` that the chain and the consensus are written against.
-- A write returns whether it succeeded (its error was nil) and the storage that it leaves, which
-- after an error may be partly written. A read changes nothing, and every error of a read is `none`.
-- The methods that no modelled code calls (`GetBlockByHash`, the `Has` methods, `Close`,
-- `GetStats`) stand in the implementation only.
pub mod KeyValue
pub mod LevelDb
mod Tests
use shardmatrix.Prelude.{ℕ, Bool, Option, List}
use shardmatrix.Types.{Block, Transaction, Account, Validator, GenesisBlock, Hash, Address}

pub record Storage (S : Type 0) : Type 0 where
  pub save_block : Block → S → Bool × S
  pub get_block : ℕ → S → Option Block
  pub save_transaction : Transaction → S → Bool × S
  pub get_transaction : Hash → S → Option Transaction
  pub save_account : Account → S → Bool × S
  pub get_account : Address → S → Option Account
  pub save_validator : Validator → S → Bool × S
  pub get_validator : Address → S → Option Validator
  pub get_all_validators : S → Option (List Validator)
  pub get_latest_block_height : S → Option ℕ
  pub update_latest_block_height : ℕ → S → Bool × S
  pub save_genesis_block : GenesisBlock → S → Bool × S
  pub get_genesis_block : S → Option GenesisBlock
