-- ===== src/ThreeLayer.antt =====
-- pkg/blockchain/three_layer_validator.go: the validator of received blocks in three layers,
-- structure, consensus and content. The seconds that it reads from the clock are an argument, `now`,
-- and in ValidateSequence a reading for each block. The limits of the configuration are not negative. A nil
-- block, the texts of the errors and GetValidationStats are left out.
pub mod Layers
pub mod Accepts
pub mod Consensus
pub mod Sequences
pub mod Content
mod Tests
use shardmatrix.Prelude.{
  ℕ, zero, suc, ◌+◌, Bool, true, false, not, ◌&&◌, Option, none, some, List, [], ◌∷◌, Result, ok,
  err, ltb, ◌==◌, if◌then◌else◌, map_err, require, ◌>>=◌, ◌>>◌, length,
}
use shardmatrix.Prelude.Words.{add64, sub64, lt_i64}
use shardmatrix.Primitives.{Primitives}
use shardmatrix.Types.{
  Hash, Block, Validator, first_shard, block_seconds, max_block_size, max_tx_per_block, is_zero,
  hash_header, hash_block, calculate_tx_root, empty_tx_root, block_is_empty, block_size,
  get_validator,
}
use shardmatrix.Crypto.{verify_block}
use shardmatrix.TimeControl.{TimeController, block_time_of}
use shardmatrix.Interfaces.{StateManager, ConsensusEngine}

pub data ValidationLevel : Type 0 where
  structure consensus content : ValidationLevel

pub data ValidationCode : Type 0 where
  block_integrity timestamp block_height block_size_limit tx_count : ValidationCode
  validator_permission signature empty_block : ValidationCode
  transaction_legality state_transition gas_compliance : ValidationCode

-- The errors inside a layer.
pub data Fault : Type 0 where
  empty_hash bad_tx_root bad_shard : Fault
  in_future off_schedule no_previous bad_interval : Fault
  no_latest bad_height bad_prev_hash too_large too_many : Fault
  not_registered not_current not_in_set bad_signature : Fault
  unmarked_empty marked_full : Fault
  empty_tx_hash no_state_root over_gas : Fault

-- ValidationError; the field's name follows from the code.
pub record ValidationError : Type 0 where
  pub level : ValidationLevel
  pub code : ValidationCode
  pub message : Fault

pub record ValidationConfig : Type 0 where
  pub enable_structure_validation : Bool
  pub enable_consensus_validation : Bool
  pub enable_content_validation : Bool
  pub strict_time_validation : Bool
  pub max_block_size : ℕ
  pub max_tx_per_block : ℕ
  pub gas_limit_per_block : ℕ
  pub time_tolerance_seconds : ℕ

pub record ThreeLayerValidator (E M C : Type 0) : Type 0 where
  pub consensus_engine : E
  pub state_manager : M
  pub time_controller : Option (TimeController C)
  pub strict_mode : Bool
  pub config : ValidationConfig

abbrev pub default_config : ValidationConfig
default_config = record {
  enable_structure_validation = true;
  enable_consensus_validation = true;
  enable_content_validation = true;
  strict_time_validation = true;
  max_block_size = max_block_size;
  max_tx_per_block = max_tx_per_block;
  gas_limit_per_block = 1000000;
  time_tolerance_seconds = 2;
}

abbrev pub Verdict : Type 0
Verdict = Result Fault (Unit {0})

abbrev pub at_level : ValidationLevel → ValidationCode → Verdict → Result ValidationError (Unit {0})
at_level level code r = map_err (λ fault. record { level = level; code = code; message = fault }) r

-- `if enabled { if err := check; err != nil { return err } }`
abbrev pub when {ℓ} : {E : Type ℓ} → Bool → Result E (Unit {ℓ}) → Result E (Unit {ℓ})
when true check = check
when false check = ok tt

-- The interval between two blocks, in int64.
unfoldable pub check_interval : ℕ → ℕ → Verdict
check_interval before after = require (sub64 after before == block_seconds) bad_interval

unfoldable pub check_hashes : List Hash → Verdict
check_hashes [] = ok tt
check_hashes (h ∷ hs) = let rest = check_hashes hs in if is_zero h then err empty_tx_hash else rest

unfoldable pub gas_used : ℕ → List Hash → ℕ
gas_used total [] = total
gas_used total (_ ∷ hs) = gas_used (add64 total 1000) hs

-- validateTransactionLegality and validateStateTransition
unfoldable pub validate_transaction_legality : Block → Verdict
unfolding check_hashes
validate_transaction_legality b = check_hashes b.transactions

unfoldable pub validate_state_transition : Block → Verdict
validate_state_transition b = require (not (is_zero b.header.state_root)) no_state_root

module _ {E M C : Type 0} where
  -- NewThreeLayerValidator
  unfoldable pub new_three_layer_validator :
      E → M → Option (TimeController C) → ThreeLayerValidator E M C
  new_three_layer_validator engine manager clock = record {
    consensus_engine = engine;
    state_manager = manager;
    time_controller = clock;
    strict_mode = true;
    config = default_config;
  }

  -- SetStrictMode and SetConfig
  unfoldable pub set_strict_mode : Bool → ThreeLayerValidator E M C → ThreeLayerValidator E M C
  set_strict_mode strict tv = record tv { strict_mode = strict }

  unfoldable pub set_config :
      ValidationConfig → ThreeLayerValidator E M C → ThreeLayerValidator E M C
  set_config config tv = record tv { config = config }

  -- validateBlockSize and validateTransactionCount
  unfoldable pub validate_block_size : ThreeLayerValidator E M C → Block → Verdict
  validate_block_size tv b = require (not (ltb tv.config.max_block_size (block_size b))) too_large

  unfoldable pub validate_transaction_count : ThreeLayerValidator E M C → Block → Verdict
  validate_transaction_count tv b =
      require (not (ltb tv.config.max_tx_per_block (length b.transactions))) too_many

  -- validateGasCompliance
  unfoldable pub validate_gas_compliance : ThreeLayerValidator E M C → Block → Verdict
  unfolding gas_used
  validate_gas_compliance tv b =
      require (not (ltb tv.config.gas_limit_per_block (gas_used 0 b.transactions))) over_gas

  -- validateContent
  unfoldable pub validate_content :
      ThreeLayerValidator E M C → Block → Result ValidationError (Unit {0})
  unfolding validate_transaction_legality validate_state_transition validate_gas_compliance
      block_is_empty
  validate_content tv b = if block_is_empty b then ok tt else (do
    at_level content transaction_legality (validate_transaction_legality b)
    at_level content state_transition (validate_state_transition b)
    at_level content gas_compliance (validate_gas_compliance tv b))
