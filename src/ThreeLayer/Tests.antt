-- ===== src/ThreeLayer/Tests.antt =====
-- Runs of the three-layer validator, and its theorems at concrete inputs.
use shardmatrix.Prelude.{
  ℕ, ◌*◌, ◌≤◌, ◌≡◌, ◌≢◌, ◌↔◌, refl, true, some, [], ◌∷◌, ok, err, All, arith, length,
}
use shardmatrix.Primitives.{toy}
use shardmatrix.Prelude.Bytes.{le_bytes}
use shardmatrix.Storage.KeyValue.{memory}
use shardmatrix.Storage.LevelDb.{level_db}
use shardmatrix.Types.{
  Block, block_size, get_validator, validator_at, active_of, header_preimage, tx_root_preimage,
  block_is_empty, empty_tx_root, hash_block, hash_header, calculate_tx_root,
}
use shardmatrix.Chain.{Manager}
use shardmatrix.Chain.Blocks
use shardmatrix.Chain.Blocks.{get_last_block}
use shardmatrix.Dpos
use shardmatrix.Dpos.{Dpos, is_validator, is_current_validator, current_validator}
use shardmatrix.TimeControl.{TimeController, block_time_of}
use shardmatrix.Interfaces.{chain_state, dpos_engine}
use shardmatrix.Interfaces.Samples.{Disk, disk, a_manager, an_empty_block, an_engine}
use shardmatrix.ThreeLayer.{
  ThreeLayerValidator, new_three_layer_validator, validate_content, validate_block_size,
  validate_transaction_count, check_interval,
}
use shardmatrix.ThreeLayer.Layers.{
  validate_block, validate_structure, validate_block_integrity, validate_timestamp,
  validate_time_after_previous, validate_block_height, validate_consensus,
  validate_validator_permission, validate_block_signature, validate_empty_block_marker,
  SequenceError, validate_sequence,
}
use shardmatrix.ThreeLayer.Accepts.{Fits, validate_block-Fits}
use shardmatrix.ThreeLayer.Sequences.{validate_sequence-refuses}
use shardmatrix.ThreeLayer.Content.{validate_content_iff}

abbrev a_clock : TimeController ℕ
a_clock = record {
  genesis_time = 1000;
  block_time = 2;
  block_offset = 0;
  started = true;
  callbacks = [];
}

-- NewThreeLayerValidator over two validators and a chain with the genesis block.
abbrev a_checker : ThreeLayerValidator (Dpos Disk (ℕ × ℕ)) (Manager Disk) ℕ
a_checker = new_three_layer_validator an_engine a_manager (some a_clock)

-- At height 1 it is the turn of validator 22.
empty_block_accepted :
    validate_block dpos_engine (chain_state disk toy) toy a_checker 1002 (an_empty_block 22) ≡ ok tt
unfolding new_three_layer_validator validate_block validate_structure validate_block_integrity
    validate_timestamp validate_time_after_previous validate_block_height validate_consensus
    dpos_engine validate_validator_permission validate_block_signature validate_empty_block_marker
    validate_content chain_state is_validator is_current_validator current_validator level_db memory
    toy get_last_block block_time_of hash_block hash_header header_preimage le_bytes
    calculate_tx_root tx_root_preimage block_is_empty empty_tx_root check_interval
    validate_block_size block_size validate_transaction_count get_validator validator_at active_of
empty_block_accepted = refl

validate_block-Fits_example :
    (a : Block) × Fits disk toy a_checker a (an_empty_block 22)
    × (Blocks.validate_block toy a (an_empty_block 22) ≡ ok tt)
unfolding new_three_layer_validator
validate_block-Fits_example =
    validate_block-Fits disk toy dpos_engine a_checker 1002 (an_empty_block 22) refl (omega arith)
      empty_block_accepted

abbrev signed_block : Block
signed_block = record (an_empty_block 22) {
  header = record (an_empty_block 22).header { signature = 5 };
}

abbrev second_block : Block
second_block = record (an_empty_block 11) {
  header = record (an_empty_block 11).header {
    number = 2;
    timestamp = 1004;
    prev_hash = hash_block toy (an_empty_block 22);
  };
}

validate_sequence-refuses_example :
    (e : SequenceError) × (validate_sequence dpos_engine
        (chain_state disk toy)
        toy
        a_checker
        (λ i. 1002)
        (an_empty_block 22 ∷ second_block ∷ [])
      ≡ err e)
unfolding new_three_layer_validator
validate_sequence-refuses_example =
    validate_sequence-refuses dpos_engine (chain_state disk toy) toy a_checker (λ i. 1002)
      (an_empty_block 22) second_block [] refl (omega arith) (omega arith)

abbrev full_block : Block
full_block = record (an_empty_block 22) { transactions = 501 ∷ 502 ∷ [] }

validate_content_iff_example : (validate_content a_checker full_block ≡ ok tt) ↔ (
    All (λ h. h ≢ 0) full_block.transactions
    × (full_block.header.state_root ≢ 0)
    × (1000 * length full_block.transactions ≤ a_checker.config.gas_limit_per_block))
unfolding block_is_empty
validate_content_iff_example = validate_content_iff a_checker full_block refl (omega arith)
