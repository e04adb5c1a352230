-- ===== src/Producer/Making.antt =====
-- block_producer.go: making, checking and saving blocks.
use shardmatrix.Prelude.{
  ℕ, zero, suc, ◌/◌, not, ◌||◌, Option, none, some, List, [], ◌∷◌, Result, ok, err, ltb, ◌==◌,
  if◌then◌else◌, require, ◌>>◌, length, take, map,
}
use shardmatrix.Prelude.Words.{sub64}
use shardmatrix.Primitives.{Primitives}
use shardmatrix.Storage.{Storage}
use shardmatrix.Types.{
  Hash, Block, Transaction, GenesisBlock, first_shard, max_block_size, max_tx_per_block, is_zero,
  hash_block, hash_tx, calculate_tx_root, empty_tx_root, block_is_empty, block_size,
}
use shardmatrix.Crypto.{sign_block, verify_block}
use shardmatrix.Dpos.Health.{Float64}
use shardmatrix.Interfaces.{StateManager, TxPool, NetworkChecker}
use shardmatrix.Producer.Filter.{filter_valid_transactions}
use shardmatrix.Producer.{
  ProducerError, not_running, no_previous_block, not_saved, not_empty, bad_tx_root, bad_shard,
  bad_validator, bad_signature, too_large, EmptyBlockTrigger, no_transactions, transaction_failure,
  BlockProducer, is_unsigned, new_header, send_block, get_validator_for_empty_block,
  should_create_empty_block,
}

module _ {S P M N : Type 0} (p : Primitives) where
  -- createEmptyBlockWithReason
  unfoldable pub create_empty_block_with_reason :
      BlockProducer S P M N → ℕ → ℕ → Hash → Hash → EmptyBlockTrigger → Block
  unfolding get_validator_for_empty_block
  create_empty_block_with_reason bp block_time number prev_hash state_root trigger =
      let header =
        new_header block_time number prev_hash (empty_tx_root p) state_root
          (get_validator_for_empty_block bp trigger) in
      record {
        header = if is_unsigned trigger then header else sign_block p bp.key_pair header;
        transactions = [];
      }

  -- ValidateEmptyBlock
  unfoldable pub validate_empty_block :
      BlockProducer S P M N → Block → Result ProducerError (Unit {0})
  validate_empty_block bp b = do
    require (block_is_empty b) not_empty
    require (b.header.tx_root == empty_tx_root p) bad_tx_root
    require (b.header.shard_id == first_shard) bad_shard
    require
        (is_zero b.header.validator
          || (b.header.validator == bp.key_pair.address)
          || (b.header.validator == bp.empty_block_config.system_validator))
        bad_validator

  -- ValidateProducedBlock
  unfoldable pub validate_produced_block :
      BlockProducer S P M N → Block → Result ProducerError (Unit {0})
  validate_produced_block bp b = do
    require (verify_block p b.header bp.key_pair.public_key) bad_signature
    require (b.header.validator == bp.key_pair.address) bad_validator
    require (b.header.shard_id == first_shard) bad_shard
    require (b.header.tx_root == calculate_tx_root p b.transactions) bad_tx_root
    require (not (ltb max_block_size (block_size b))) too_large

  -- CreateGenesisBlock
  unfoldable pub create_genesis_block : BlockProducer S P M N → GenesisBlock → Block
  create_genesis_block bp g = record {
    header =
        sign_block p bp.key_pair
          (new_header g.timestamp 0 0 (empty_tx_root p) 0 bp.key_pair.address);
    transactions = [];
  }

  -- The signed block of createBlockWithTransactions, before its size is looked at.
  abbrev pub full_block : BlockProducer S P M N → ℕ → ℕ → Hash → Hash → List Hash → Block
  full_block bp block_time number prev_hash state_root hashes = record {
    header = sign_block p bp.key_pair (
        new_header block_time number prev_hash (calculate_tx_root p hashes) state_root
          bp.key_pair.address);
    transactions = hashes;
  }

  module _ (sm : StateManager M) where
    -- createBlockWithTransactions
    unfoldable pub create_block_with_transactions :
        ℕ → BlockProducer S P M N → ℕ → ℕ → Hash → Hash → List Transaction → Option Block
    unfolding create_empty_block_with_reason
    create_block_with_transactions zero bp block_time number prev_hash state_root txs = none
    create_block_with_transactions (suc fuel) bp block_time number prev_hash state_root txs =
        let empty =
          create_empty_block_with_reason bp block_time number prev_hash state_root
            no_transactions in
        let half = length txs / 2 in
        let smaller =
          create_block_with_transactions fuel bp block_time number prev_hash state_root
            (take half txs) in
        elim (sm.process_transactions txs bp.state_manager) [
          | none ↦ some empty
          | some new_root ↦
              let b = full_block bp block_time number prev_hash new_root (map (hash_tx p) txs) in
              if ltb max_block_size (block_size b)
              then (if ltb 0 half then smaller else some empty)
              else some b
        ]

    module _ (pool : TxPool P) where
      -- ProduceBlock, once the block before is known and no empty block is wanted.
      unfoldable pub produce_from_pool :
          BlockProducer S P M N → ℕ → ℕ → Hash → Hash → Option Block × BlockProducer S P M N
      unfolding create_block_with_transactions filter_valid_transactions
      produce_from_pool bp block_time number prev_hash state_root =
          let empty = create_empty_block_with_reason bp block_time number prev_hash state_root in
          elim (pool.get_pending_transactions max_tx_per_block bp.tx_pool) [
            | none ↦ (some (empty transaction_failure), bp)
            | some [] ↦ (some (empty no_transactions), bp)
            | some (t ∷ ts) ↦
                let (valid, m) = filter_valid_transactions sm (t ∷ ts) bp.state_manager in
                let bp' = record bp { state_manager = m } in
                elim valid [
                  | [] ↦ (some (empty transaction_failure), bp')
                  | u ∷ us ↦ (
                    create_block_with_transactions (suc (length (u ∷ us))) bp' block_time number
                        prev_hash state_root (u ∷ us),
                    bp',
                  )
                ]
          ]

      -- ProduceBlock, once the block before is known.
      unfoldable pub produce_after :
          {F : Type 0}
          → Float64 F
          → NetworkChecker F N
          → BlockProducer S P M N
          → ℕ
          → ℕ
          → Hash
          → Option Block × BlockProducer S P M N
      unfolding produce_from_pool should_create_empty_block
      produce_after fl nc bp block_time number prev_hash =
          let state_root = sm.get_current_state_root bp.state_manager in
          elim (should_create_empty_block fl nc bp number) [
            | some trigger ↦ (
              some (
                  create_empty_block_with_reason bp block_time number prev_hash state_root trigger),
              bp,
            )
            | none ↦ produce_from_pool bp block_time number prev_hash state_root
          ]

      -- ProduceBlock
      unfoldable pub produce_block :
          {F : Type 0}
          → Float64 F
          → NetworkChecker F N
          → BlockProducer S P M N
          → ℕ
          → ℕ
          → Result ProducerError (Option Block) × BlockProducer S P M N
      unfolding produce_after
      produce_block fl nc bp block_time number =
          if not bp.is_running
          then (err not_running, bp)
          else if ltb 0 number
          then elim (sm.get_block_by_height (sub64 number 1) bp.state_manager) [
            | none ↦ (err no_previous_block, bp)
            | some previous ↦
                let (made, bp') =
                  produce_after fl nc bp block_time number (hash_block p previous) in
                (ok made, bp')
          ]
          else let (made, bp') = produce_after fl nc bp block_time number 0 in (ok made, bp')

-- SaveBlock: the error of the pool is dropped.
module _ {S P M N : Type 0} (st : Storage S) (pool : TxPool P) where
  unfoldable pub save_block :
      Block → BlockProducer S P M N → Result ProducerError (Unit {0}) × BlockProducer S P M N
  save_block b bp =
      let (saved, s) = st.save_block b bp.storage in
      let kept = record bp { storage = s } in
      if not saved
      then (err not_saved, kept)
      else if block_is_empty b
      then (ok tt, kept)
      else (ok tt, record kept { tx_pool = (pool.remove_transactions b.transactions bp.tx_pool).1 })

  -- ProcessNewBlock
  unfoldable pub process_new_block :
      Block → BlockProducer S P M N → Result ProducerError (Unit {0}) × BlockProducer S P M N
  unfolding save_block send_block
  process_new_block b bp =
      let (r, bp') = save_block b bp in
      elim r [
        | err e ↦ (err e, bp')
        | ok _ ↦ (ok tt, record bp' { block_ch = send_block b bp'.block_ch })
      ]
