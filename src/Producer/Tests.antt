-- ===== src/Producer/Tests.antt =====
-- Runs of the block producer, and its theorems at concrete inputs.
use shardmatrix.Prelude.{Sifts, ℕ, ◌≡◌, refl, true, some, List, [], ◌∷◌, ok, err, arith}
use shardmatrix.Primitives.{toy}
use shardmatrix.Storage.KeyValue.{memory}
use shardmatrix.Storage.LevelDb.{level_db, new_storage}
use shardmatrix.TimeControl.{TimeController, new_time_controller}
use shardmatrix.Types.{Address, Block, Transaction, hash_block, get_validator}
use shardmatrix.Crypto.{new_key_pair}
use shardmatrix.Chain.{Manager}
use shardmatrix.Chain.Accounts.{account_of}
use shardmatrix.Chain.Blocks
use shardmatrix.Dpos
use shardmatrix.Dpos.{Dpos, not_a_validator}
use shardmatrix.Dpos.Health.{fractions}
use shardmatrix.Dpos.Watch.{is_in_safety_mode}
use shardmatrix.Interfaces.{TxPool, chain_state, dpos_engine, dpos_checker}
use shardmatrix.Interfaces.Samples.{
  Disk, disk, private_key, a_key_pair, a_genesis_block, a_manager, an_engine, a_transfer,
}
use shardmatrix.ThreeLayer.{consensus, validator_permission, not_registered}
use shardmatrix.ThreeLayer.Layers.{validate_consensus}
use shardmatrix.Producer.{BlockProducer, new_block_producer}
use shardmatrix.Producer.Making.{produce_block}
use shardmatrix.Producer.Filter.{filter_valid_transactions}
use shardmatrix.Producer.Filtering.{IsPayable, filter_valid_transactions-Sifts}
use shardmatrix.Producer.Blocks.{IsProposal, produce_block-IsProposal}
use shardmatrix.Producer.Accepted.{produce_block-Follows, safety_block_refused}

-- A pool that holds a list.
abbrev list_pool : TxPool (List Transaction)
list_pool = record {
  get_pending_transactions = λ count ts. some ts;
  remove_transactions = λ hs ts. (true, []);
}

-- Two transfers with one nonce.
abbrev two_pending : List Transaction
two_pending = a_transfer 11 22 300 1 ∷ a_transfer 11 33 200 1 ∷ []

abbrev Producing : Type 0
Producing = BlockProducer Disk (List Transaction) (Manager Disk) (Dpos Disk (ℕ × ℕ))

abbrev a_producer : Producing
a_producer = new_block_producer a_key_pair (new_storage []) two_pending a_manager

abbrev running : Producing
running = record a_producer { is_running = true }

key_pair_made : new_key_pair toy private_key ≡ ok a_key_pair
unfolding new_key_pair toy
key_pair_made = refl

produce_block-IsProposal_example :
    (b : Block) × ((produce_block toy
        (chain_state disk toy)
        list_pool
        fractions
        (dpos_checker fractions)
        running
        1002
        1).0
      ≡ ok (some b))
    × IsProposal toy running 1002 1 (hash_block toy a_genesis_block) b
unfolding new_block_producer chain_state level_db memory
produce_block-IsProposal_example =
    produce_block-IsProposal toy private_key (chain_state disk toy) list_pool fractions
      (dpos_checker fractions) running 1002 1 (hash_block toy a_genesis_block) key_pair_made refl
      refl

produce_block-Follows_example :
    (b : Block) × ((produce_block toy
        (chain_state disk toy)
        list_pool
        fractions
        (dpos_checker fractions)
        running
        1002
        1).0
      ≡ ok (some b))
    × (Blocks.validate_block toy a_genesis_block b ≡ ok tt)
unfolding new_block_producer level_db memory
produce_block-Follows_example =
    produce_block-Follows toy private_key disk list_pool fractions (dpos_checker fractions) running
      a_genesis_block 1002 key_pair_made refl refl refl (omega arith)

abbrev cautious : Producing
cautious = record running { network_checker = some an_engine }

abbrev a_clock : TimeController ℕ
unfolding new_time_controller
a_clock = new_time_controller 1000

safety_block_refused_example :
    (b : Block) × ((produce_block toy
        (chain_state disk toy)
        list_pool
        fractions
        (dpos_checker fractions)
        cautious
        1002
        1).0
      ≡ ok (some b))
    × (b.header.signature ≡ 0)
    × (b.header.validator ≡ 0)
    × (Dpos.validate_block toy (some a_clock) an_engine b ≡ err not_a_validator)
    × (validate_consensus dpos_engine toy an_engine b
        ≡ err (record { level = consensus; code = validator_permission; message = not_registered }))
unfolding new_block_producer chain_state level_db memory is_in_safety_mode get_validator
safety_block_refused_example =
    safety_block_refused toy (some a_clock) (chain_state disk toy) list_pool fractions an_engine
      cautious 1002 1 (hash_block toy a_genesis_block) refl refl refl refl refl refl

-- Both transfers pass, though the first one uses up the nonce of the second.
filter_valid_transactions-Sifts_example :
    let (kept, m') = filter_valid_transactions (chain_state disk toy) two_pending a_manager in
    Sifts (λ t. IsPayable (account_of disk a_manager t.from) t) two_pending kept
    × ((a : Address) → account_of disk m' a ≡ account_of disk a_manager a)
filter_valid_transactions-Sifts_example =
    filter_valid_transactions-Sifts disk toy two_pending a_manager
