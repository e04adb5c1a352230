-- ===== src/Node.antt =====
-- pkg/node/node.go: the node. On the calls of its time controller it makes empty blocks and adds them to
-- its chain. The storage is the one that the chain manager holds, so that the node reads it there. What
-- crypto.RandomHash draws, whether the network listens and whether the interface for clients starts are arguments.
-- The key file, the messages' handlers (which do nothing), broadcasting, heartbeats, printing, the reports
-- and closing the storage are left out; a node that NewNode has made has all its parts.
pub mod Running
pub mod Growing
pub mod Restart
pub mod Failing
mod Tests
use shardmatrix.Prelude.{
  ℕ, Bool, true, false, not, Option, none, some, List, [], ◌∷◌, Result, ok, err, ltb, ◌==◌,
  if◌then◌else◌,
}
use shardmatrix.Prelude.Words.{add64, mul64}
use shardmatrix.Primitives.{Primitives}
use shardmatrix.Storage.{Storage}
use shardmatrix.Types.{
  Hash, Block, BlockHeader, Account, Validator, GenesisBlock, first_shard, hash_block,
  empty_tx_root,
}
use shardmatrix.Crypto.{KeyPair, sign_block}
use shardmatrix.Chain.{Manager}
use shardmatrix.Chain
use shardmatrix.Chain.Blocks.{add_block, get_last_block, initialize}
use shardmatrix.TimeControl.{TimeController}
use shardmatrix.Pool.{TransactionPool}

-- The texts of the configuration are left out.
pub record Config : Type 0 where
  pub is_validator : Bool
  pub genesis_time : ℕ

pub record Node (S C : Type 0) : Type 0 where
  pub config : Config
  pub key_pair : KeyPair
  pub time_controller : TimeController C
  pub tx_pool : TransactionPool
  pub blockchain_mgr : Manager S
  pub has_block_producer : Bool
  pub network_running : Bool
  pub has_api_server : Bool
  pub is_running : Bool
  pub is_validator : Bool

-- The genesis block of a node that makes a new chain.
unfoldable pub default_genesis : Config → KeyPair → GenesisBlock
default_genesis config key = record {
  timestamp = config.genesis_time;
  init_accounts = record { address = key.address; balance = 1000000; nonce = 0; staked = 0 } ∷ [];
  validators =
      record {
        address = key.address;
        public_key = key.public_key;
        stake_amount = 100000;
        delegated_amt = 0;
        vote_power = 100000;
        is_active = true;
        slash_count = 0;
      }
      ∷ [];
  chain_id = [];
  config = [];
}

module _ {S C : Type 0} (st : Storage S) (p : Primitives) where
  -- autoInitializeBlockchain. Where a chain is loaded, Initialize is called with nil, which it does not
  -- read.
  unfoldable pub auto_initialize_blockchain :
      Node S C → Result Chain.ChainError (Unit {0}) × Node S C
  unfolding default_genesis
  auto_initialize_blockchain n =
      let (r, m) = initialize st p (default_genesis n.config n.key_pair) n.blockchain_mgr in
      (r, record n { blockchain_mgr = m })

  -- InitializeBlockchain
  unfoldable pub initialize_blockchain :
      GenesisBlock → Node S C → Result Chain.ChainError (Unit {0}) × Node S C
  initialize_blockchain g n =
      let (r, m) = initialize st p g n.blockchain_mgr in
      let n' = record n { blockchain_mgr = m } in
      elim r [
        | err e ↦ (err e, n')
        | ok _ ↦
            (ok tt, if n.config.is_validator then record n' { has_block_producer = true } else n')
      ]

  -- The block of produceEmptyBlock, on a previous hash and a state root.
  abbrev pub empty_header : Node S C → ℕ → ℕ → Hash × Hash → BlockHeader
  empty_header n block_time number base = record {
    number = number;
    timestamp = block_time;
    prev_hash = base.0;
    tx_root = empty_tx_root p;
    state_root = base.1;
    validator = n.key_pair.address;
    signature = 0;
    shard_id = first_shard;
    adjacent_hashes = (0, 0, 0);
  }

  unfoldable pub empty_block : Node S C → ℕ → ℕ → Hash × Hash → Block
  empty_block n block_time number base = record {
    header = sign_block p n.key_pair (empty_header n block_time number base);
    transactions = [];
  }

  -- What a block is put on: the last block, or what is drawn.
  unfoldable pub base_of : Hash × Hash → ℕ → Node S C → Hash × Hash
  base_of random number n =
      if ltb 0 number
      then elim (get_last_block n.blockchain_mgr) [
        | ok last ↦ (hash_block p last, last.header.state_root)
        | err _ ↦ random
      ]
      else random

  -- produceEmptyBlock: the block that is broadcast, if any, and the node.
  unfoldable pub produce_empty_block : Hash × Hash → ℕ → ℕ → Node S C → Option Block × Node S C
  unfolding empty_block base_of
  produce_empty_block random block_time number n =
      let b = empty_block n block_time number (base_of random number n) in
      let (r, m) = add_block st p b n.blockchain_mgr in
      let n' = record n { blockchain_mgr = m } in
      elim r [ err _ ↦ (none, n') | ok _ ↦ (some b, n') ]

  -- onBlockTime, once the last block is known.
  unfoldable pub produce_next : Hash × Hash → ℕ → ℕ → Block → Node S C → Option Block × Node S C
  unfolding produce_empty_block
  produce_next random block_time number last n =
      let expected = add64 last.header.number 1 in
      if number == expected
      then produce_empty_block random block_time number n
      else elim (st.get_block 0 n.blockchain_mgr.storage) [
        | none ↦ produce_empty_block random block_time expected n
        | some genesis ↦
            produce_empty_block random (add64 genesis.header.timestamp (mul64 expected 2)) expected
              n
      ]

  -- onBlockTime
  unfoldable pub on_block_time : Hash × Hash → ℕ → ℕ → Node S C → Option Block × Node S C
  unfolding produce_next
  on_block_time random block_time number n =
      if not n.is_validator then (none, n) else elim (get_last_block n.blockchain_mgr) [
        | err _ ↦ produce_empty_block random block_time number n
        | ok last ↦ produce_next random block_time number last n
      ]
