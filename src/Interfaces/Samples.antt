-- ===== src/Interfaces/Samples.antt =====
-- Data for the runs of the parts that stand on the chain manager and the DPoS consensus: a chain
-- with its genesis block on a storage in memory, and two validators.
use shardmatrix.Prelude.{ℕ, zero, suc, true, some, List, [], ◌∷◌}
use shardmatrix.Primitives.{toy}
use shardmatrix.Storage.{Storage}
use shardmatrix.Storage.KeyValue.{Key, Value, memory, block_key, a_block}
use shardmatrix.Storage.LevelDb.{LevelDb, level_db, new_storage}
use shardmatrix.Types.{
  Address, Account, Block, Transaction, Validator, hash_block, calculate_tx_root,
}
use shardmatrix.Crypto.{KeyPair, public_key_to_address}
use shardmatrix.Chain.{Manager}
use shardmatrix.Chain.Blocks.{genesis_header}
use shardmatrix.Dpos.{Dpos}

abbrev pub Disk : Type 0
Disk = LevelDb (List (Key × Value))

abbrev pub disk : Storage Disk
disk = level_db memory toy

abbrev pub zeros : ℕ → List ℕ
zeros zero = []
zeros (suc n) = 0 ∷ zeros n

abbrev pub private_key : List ℕ
private_key = zeros 64

-- Made from the private key by NewKeyPairFromPrivateKey.
abbrev pub a_key_pair : KeyPair
a_key_pair = record {
  private_key = private_key;
  public_key = zeros 32;
  address = public_key_to_address toy (zeros 32);
}

abbrev pub a_genesis_block : Block
a_genesis_block = record { header = genesis_header 1000 7 8; transactions = [] }

abbrev pub an_account : Address → ℕ → Account
an_account a balance = record { address = a; balance = balance; nonce = 0; staked = 0 }

abbrev pub a_manager : Manager Disk
a_manager = record {
  storage = new_storage ((block_key 0, a_block a_genesis_block) ∷ []);
  current_block = some a_genesis_block;
  current_state = (11, an_account 11 1000) ∷ (22, an_account 22 5) ∷ [];
  genesis_block = some a_genesis_block;
  is_initialized = true;
}

-- The empty block of height 1, without a signature, by a validator.
abbrev pub an_empty_block : Address → Block
an_empty_block a = record {
  header = record (genesis_header 1002 (calculate_tx_root toy []) 8) {
    number = 1;
    prev_hash = hash_block toy a_genesis_block;
    validator = a;
  };
  transactions = [];
}

abbrev pub a_validator : Address → Validator
a_validator a = record {
  address = a;
  public_key = zeros 32;
  stake_amount = 50000;
  delegated_amt = 0;
  vote_power = 50000;
  is_active = true;
  slash_count = 0;
}

abbrev pub an_engine : Dpos Disk (ℕ × ℕ)
an_engine = record {
  storage = new_storage [];
  validators = a_validator 11 ∷ a_validator 22 ∷ [];
  round = 0;
  is_active = true;
  key_pair = a_key_pair;
  node_health = [];
  safety_mode = true;
  last_health_check = 0;
}

abbrev pub a_transfer : Address → Address → ℕ → ℕ → Transaction
a_transfer from to amount nonce = record {
  shard_id = 1;
  from = from;
  to = to;
  amount = amount;
  gas_price = 2;
  gas_limit = 5;
  nonce = nonce;
  payload = [];
  signature = 77;
}
