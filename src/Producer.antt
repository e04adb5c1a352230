-- ===== src/Producer.antt =====
-- pkg/blockchain/block_producer.go: the blocks that a validator makes when the time controller calls. The storage,
-- the pool, the state manager and the network checker stand behind their interfaces. The channel of new blocks
-- is the list of what waits in it, the oldest first. `createBlockWithTransactions` calls itself on half of
-- the transactions; it has fuel, and `none` says that it ran out. Printing and the reports are left out.
pub mod Filter
pub mod Making
pub mod Filtering
pub mod Blocks
pub mod Accepted
pub mod Channel
mod Tests
use shardmatrix.Prelude.{
  ℕ, zero, suc, ◌/◌, ◌*◌, ◌^◌, Bool, true, false, not, ◌&&◌, ◌||◌, Option, none, some, List, [],
  ◌∷◌, ◌++◌, Result, ok, err, ltb, ◌==◌, if◌then◌else◌, require, ◌>>=◌, ◌>>◌, length, take, drop,
  map,
}
use shardmatrix.Prelude.Words.{add64, sub64, mul64}
use shardmatrix.Primitives.{Primitives}
use shardmatrix.Storage.{Storage}
use shardmatrix.Types.{
  Hash, Address, Block, BlockHeader, Transaction, GenesisBlock, first_shard, max_block_size,
  max_tx_per_block, is_zero, hash_block, hash_tx, calculate_tx_root, empty_tx_root, block_is_empty,
  block_size,
}
use shardmatrix.Crypto.{KeyPair, sign_block, verify_block}
use shardmatrix.Dpos.Health.{Float64}
use shardmatrix.Interfaces.{StateManager, TxPool, NetworkChecker}

pub data ProducerError : Type 0 where
  already_running not_running no_previous_block not_saved : ProducerError
  not_empty bad_tx_root bad_shard bad_validator bad_signature too_large : ProducerError

pub data EmptyBlockTrigger : Type 0 where
  no_transactions safety_mode network_partition validator_inactive : EmptyBlockTrigger
  transaction_failure : EmptyBlockTrigger

-- The interval is in nanoseconds.
pub record EmptyBlockConfig : Type 0 where
  pub enabled : Bool
  pub max_empty_interval : ℕ
  pub network_partition_mode : Bool
  pub system_validator : Address

pub record BlockProducer (S P M N : Type 0) : Type 0 where
  pub key_pair : KeyPair
  pub storage : S
  pub tx_pool : P
  pub state_manager : M
  pub is_running : Bool
  pub block_ch : List Block
  pub empty_block_config : EmptyBlockConfig
  pub network_checker : Option N

-- make(chan *types.Block, 10)
abbrev pub channel_capacity : ℕ
channel_capacity = 10

-- Sent without a signature.
abbrev pub is_unsigned : EmptyBlockTrigger → Bool
is_unsigned safety_mode = true
is_unsigned network_partition = true
is_unsigned _ = false

-- The header that all the blocks start from.
abbrev pub new_header : ℕ → ℕ → Hash → Hash → Hash → Address → BlockHeader
new_header block_time number prev_hash tx_root state_root validator = record {
  number = number;
  timestamp = block_time;
  prev_hash = prev_hash;
  tx_root = tx_root;
  state_root = state_root;
  validator = validator;
  signature = 0;
  shard_id = first_shard;
  adjacent_hashes = (0, 0, 0);
}

-- The send in ProcessNewBlock: if the channel is full, the oldest block makes room.
unfoldable pub send_block : Block → List Block → List Block
send_block b ch =
    if ltb (length ch) channel_capacity
    then ch ++ b ∷ []
    else elim ch [ [] ↦ [] | _ ∷ rest ↦ rest ++ b ∷ [] ]

module _ {S P M N : Type 0} where
  -- NewBlockProducer
  unfoldable pub new_block_producer : KeyPair → S → P → M → BlockProducer S P M N
  new_block_producer key storage pool manager = record {
    key_pair = key;
    storage = storage;
    tx_pool = pool;
    state_manager = manager;
    is_running = false;
    block_ch = [];
    empty_block_config = record {
      enabled = true;
      max_empty_interval = 30 * 10 ^ 9;
      network_partition_mode = false;
      system_validator = 0;
    };
    network_checker = none;
  }

  -- SetNetworkChecker and SetEmptyBlockConfig
  unfoldable pub set_network_checker : Option N → BlockProducer S P M N → BlockProducer S P M N
  set_network_checker checker bp = record bp { network_checker = checker }

  unfoldable pub set_empty_block_config :
      EmptyBlockConfig → BlockProducer S P M N → BlockProducer S P M N
  set_empty_block_config config bp = record bp { empty_block_config = config }

  -- EnableEmptyBlocks, SetNetworkPartitionMode and SetSystemValidator
  unfoldable pub enable_empty_blocks : Bool → BlockProducer S P M N → BlockProducer S P M N
  enable_empty_blocks enabled bp = record bp {
    empty_block_config = record bp.empty_block_config { enabled = enabled };
  }

  unfoldable pub set_network_partition_mode : Bool → BlockProducer S P M N → BlockProducer S P M N
  set_network_partition_mode enabled bp = record bp {
    empty_block_config = record bp.empty_block_config { network_partition_mode = enabled };
  }

  unfoldable pub set_system_validator : Address → BlockProducer S P M N → BlockProducer S P M N
  set_system_validator a bp = record bp {
    empty_block_config = record bp.empty_block_config { system_validator = a };
  }

  -- Start and Stop
  unfoldable pub start :
      BlockProducer S P M N → Result ProducerError (Unit {0}) × BlockProducer S P M N
  start bp =
      if bp.is_running then (err already_running, bp) else (ok tt, record bp { is_running = true })

  unfoldable pub stop : BlockProducer S P M N → BlockProducer S P M N
  stop bp = record bp { is_running = false }

  -- getValidatorForEmptyBlock
  unfoldable pub get_validator_for_empty_block : BlockProducer S P M N → EmptyBlockTrigger → Address
  get_validator_for_empty_block bp trigger =
      if is_unsigned trigger
      then (if not (is_zero bp.empty_block_config.system_validator)
          then bp.empty_block_config.system_validator
          else 0)
      else bp.key_pair.address

  -- shouldCreateEmptyBlock, `none` for (TriggerNoTransactions, false)
  unfoldable pub should_create_empty_block :
      {F : Type 0}
      → Float64 F
      → NetworkChecker F N
      → BlockProducer S P M N
      → ℕ
      → Option EmptyBlockTrigger
  should_create_empty_block fl nc bp number =
      if not bp.empty_block_config.enabled then none else elim bp.network_checker [
        | none ↦ none
        | some net ↦
            if nc.is_in_safety_mode net
            then some safety_mode
            else if not (nc.is_current_validator bp.key_pair.address number net)
                && fl.lt (nc.get_active_validator_ratio net) (fl.decimal 80)
            then some validator_inactive
            else if bp.empty_block_config.network_partition_mode
            then some network_partition
            else none
      ]
