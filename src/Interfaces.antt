-- ===== src/Interfaces.antt =====
-- The Go interfaces between the parts, as records of operations on a state of the part that stands
-- behind them: StateManager, TxPool and NetworkChecker of pkg/blockchain/block_producer.go,
-- ConsensusEngine of pkg/blockchain/three_layer_validator.go, and the parts that fill them. An operation
-- that changes its part returns it; an error is `none`, since the callers look at no error's text.
-- `ValidateBlock` of ConsensusEngine and `GetTransactionCount` of TxPool have no caller that decides anything by them.
pub mod Samples
use shardmatrix.Prelude.{ℕ, Bool, Option, true, none, some, List, Result, ok, err}
use shardmatrix.Primitives.{Primitives}
use shardmatrix.Storage.{Storage}
use shardmatrix.Types.{Hash, Address, Block, Account, Transaction, Validator}
use shardmatrix.Chain
use shardmatrix.Chain.{Manager, ChainError}
use shardmatrix.Chain.Blocks
use shardmatrix.Dpos
use shardmatrix.Dpos.{Dpos}
use shardmatrix.Dpos.Health.{Float64}
use shardmatrix.Dpos.Watch
use shardmatrix.Pool
use shardmatrix.Pool.{TransactionPool, Ranging}

pub record StateManager (M : Type 0) : Type 0 where
  pub get_current_state_root : M → Hash
  pub get_last_block : M → Option Block
  pub get_block_by_height : ℕ → M → Option Block
  pub get_account : Address → M → Option Account × M
  pub process_transactions : List Transaction → M → Option Hash

pub record ConsensusEngine (E : Type 0) : Type 0 where
  pub is_validator : Address → E → Bool
  pub is_current_validator : Address → ℕ → E → Bool
  pub get_validator_set : E → List Validator

pub record NetworkChecker (F N : Type 0) : Type 0 where
  pub is_in_safety_mode : N → Bool
  pub get_active_validator_ratio : N → F
  pub is_current_validator : Address → ℕ → N → Bool

pub record TxPool (P : Type 0) : Type 0 where
  pub get_pending_transactions : ℕ → P → Option (List Transaction)
  pub remove_transactions : List Hash → P → Bool × P

abbrev pub to_option {ℓ} : {E A : Type ℓ} → Result E A → Option A
to_option (ok a) = some a
to_option (err e) = none

-- The chain manager as the state manager.
unfoldable pub chain_state : {S : Type 0} → Storage S → Primitives → StateManager (Manager S)
chain_state st p = record {
  get_current_state_root = Blocks.get_current_state_root p;
  get_last_block = λ m. to_option (Blocks.get_last_block m);
  get_block_by_height = λ height m. st.get_block height m.storage;
  get_account = λ a m. let (acc, m') = Chain.get_account st a m in (some acc, m');
  process_transactions = λ ts m. to_option (Blocks.process_transactions p ts m);
}

-- The DPoS consensus as the consensus engine.
unfoldable pub dpos_engine : {S F : Type 0} → ConsensusEngine (Dpos S F)
dpos_engine = record {
  is_validator = λ a d. Dpos.is_validator d a;
  is_current_validator = λ a height d. Dpos.is_current_validator d a height;
  get_validator_set = λ d. d.validators;
}

-- The DPoS consensus as the network checker.
unfoldable pub dpos_checker : {S F : Type 0} → Float64 F → NetworkChecker F (Dpos S F)
dpos_checker fl = record {
  is_in_safety_mode = Watch.is_in_safety_mode;
  get_active_validator_ratio = Watch.get_active_validator_ratio fl;
  is_current_validator = λ a height d. Dpos.is_current_validator d a height;
}

-- The transaction pool at a time.
unfoldable pub pool_at : ℕ → Primitives → Ranging → TxPool TransactionPool
pool_at now p r = record {
  get_pending_transactions = λ count tp. to_option (Pool.get_pending_transactions count tp);
  remove_transactions = λ hs tp. (true, Pool.remove_transactions p r now hs tp);
}
