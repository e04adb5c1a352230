-- ===== src/ThreeLayer/Layers.antt =====
-- three_layer_validator.go: the structure and the consensus layer, ValidateBlock and
-- ValidateSequence, over any consensus engine and any state manager.
use shardmatrix.Prelude.{
  ℕ, suc, Bool, true, not, ◌&&◌, Option, none, some, List, [], ◌∷◌, Result, ok, err, ltb, ◌==◌,
  if◌then◌else◌, map_err, require, ◌>>◌,
}
use shardmatrix.Prelude.Words.{add64, sub64, lt_i64}
use shardmatrix.Primitives.{Primitives}
use shardmatrix.Types.{
  Block, first_shard, is_zero, hash_header, hash_block, calculate_tx_root, empty_tx_root,
  block_is_empty, get_validator,
}
use shardmatrix.Crypto.{verify_block}
use shardmatrix.TimeControl.{TimeController, block_time_of}
use shardmatrix.Interfaces.{StateManager, ConsensusEngine}
use shardmatrix.ThreeLayer.{
  ValidationError, ThreeLayerValidator, Verdict, at_level, when, check_interval,
  validate_block_size, validate_transaction_count, validate_content, structure, consensus,
  block_integrity, timestamp, block_height, block_size_limit, tx_count, validator_permission,
  signature, empty_block, empty_hash, bad_tx_root, bad_shard, in_future, off_schedule, no_previous,
  no_latest, bad_height, bad_prev_hash, not_registered, not_current, not_in_set, bad_signature,
  unmarked_empty, marked_full,
}

-- The strict test of a block's time against the schedule, if there is a time controller.
abbrev pub on_schedule : {C : Type 0} → Option (TimeController C) → Block → Bool
on_schedule none b = true
on_schedule (some tc) b = b.header.timestamp == block_time_of tc b.header.number

pub data SequenceError : Type 0 where
  refused : ℕ → ValidationError → SequenceError
  not_continuous chain_broken interval_broken : SequenceError

module _ (p : Primitives) where
  -- The second loop of ValidateSequence, after the block `previous`.
  unfoldable pub check_links : Block → List Block → Result SequenceError (Unit {0})
  unfolding check_interval
  check_links previous [] = ok tt
  check_links previous (b ∷ bs) = do
    require (b.header.number == add64 previous.header.number 1) not_continuous
    require (b.header.prev_hash == hash_block p previous) chain_broken
    map_err (λ _. interval_broken) (check_interval previous.header.timestamp b.header.timestamp)
    check_links b bs

  -- validateBlockIntegrity
  unfoldable pub validate_block_integrity : Block → Verdict
  validate_block_integrity b = do
    require (not (is_zero (hash_header p b.header))) empty_hash
    require (b.header.tx_root == calculate_tx_root p b.transactions) bad_tx_root
    require (b.header.shard_id == first_shard) bad_shard

  -- validateEmptyBlockMarker
  unfoldable pub validate_empty_block_marker : Block → Verdict
  validate_empty_block_marker b =
      let is_empty = block_is_empty b in
      let has_empty_tx_root = b.header.tx_root == empty_tx_root p in
      require (not (is_empty && not has_empty_tx_root)) unmarked_empty
      >> require (not (not is_empty && has_empty_tx_root)) marked_full

module _ {M : Type 0} (sm : StateManager M) where
  -- The part of validateTimestamp that looks at the block before.
  unfoldable pub validate_time_after_previous : M → Block → Verdict
  unfolding check_interval
  validate_time_after_previous m b =
      if ltb 0 b.header.number
      then elim (sm.get_block_by_height (sub64 b.header.number 1) m) [
        | none ↦ err no_previous
        | some previous ↦ check_interval previous.header.timestamp b.header.timestamp
      ]
      else ok tt

  -- validateTimestamp
  unfoldable pub validate_timestamp :
      {E C : Type 0} → ThreeLayerValidator E M C → ℕ → Block → Verdict
  unfolding validate_time_after_previous
  validate_timestamp tv now b = do
    require (not (lt_i64 (add64 now tv.config.time_tolerance_seconds) b.header.timestamp)) in_future
    require (not (tv.config.strict_time_validation && not (on_schedule tv.time_controller b)))
        off_schedule
    validate_time_after_previous tv.state_manager b

  -- validateBlockHeight
  unfoldable pub validate_block_height : Primitives → M → Block → Verdict
  validate_block_height p m b = if b.header.number == 0 then ok tt else elim (sm.get_last_block m) [
    | none ↦ err no_latest
    | some latest ↦
        require (b.header.number == add64 latest.header.number 1) bad_height
        >> require (b.header.prev_hash == hash_block p latest) bad_prev_hash
  ]

  -- validateStructure
  unfoldable pub validate_structure :
      {E C : Type 0}
      → Primitives
      → ThreeLayerValidator E M C
      → ℕ
      → Block
      → Result ValidationError (Unit {0})
  unfolding validate_block_integrity validate_timestamp validate_block_height
  validate_structure p tv now b = do
    at_level structure block_integrity (validate_block_integrity p b)
    at_level structure timestamp (validate_timestamp tv now b)
    at_level structure block_height (validate_block_height p tv.state_manager b)
    at_level structure block_size_limit (validate_block_size tv b)
    at_level structure tx_count (validate_transaction_count tv b)

module _ {E : Type 0} (en : ConsensusEngine E) where
  -- validateValidatorPermission
  unfoldable pub validate_validator_permission : E → Block → Verdict
  validate_validator_permission e b = do
    require (en.is_validator b.header.validator e) not_registered
    require (en.is_current_validator b.header.validator b.header.number e) not_current

  -- validateBlockSignature
  unfoldable pub validate_block_signature : Primitives → E → Block → Verdict
  unfolding block_is_empty
  validate_block_signature p e b =
      if block_is_empty b && is_zero b.header.signature
      then ok tt
      else elim (get_validator b.header.validator (en.get_validator_set e)) [
        | none ↦ err not_in_set
        | some v ↦ require (verify_block p b.header v.public_key) bad_signature
      ]

  -- validateConsensus
  unfoldable pub validate_consensus : Primitives → E → Block → Result ValidationError (Unit {0})
  unfolding validate_validator_permission validate_block_signature validate_empty_block_marker
  validate_consensus p e b = do
    at_level consensus validator_permission (validate_validator_permission e b)
    at_level consensus signature (validate_block_signature p e b)
    at_level consensus empty_block (validate_empty_block_marker p b)

module _ {E M C : Type 0} (en : ConsensusEngine E) (sm : StateManager M) (p : Primitives) where
  -- ValidateBlock
  unfoldable pub validate_block :
      ThreeLayerValidator E M C → ℕ → Block → Result ValidationError (Unit {0})
  validate_block tv now b = do
    when tv.config.enable_structure_validation (validate_structure sm p tv now b)
    when tv.config.enable_consensus_validation (validate_consensus en p tv.consensus_engine b)
    when tv.config.enable_content_validation (validate_content tv b)

  -- The first loop of ValidateSequence, from index i on.
  unfoldable pub validate_each :
      ThreeLayerValidator E M C → (ℕ → ℕ) → ℕ → List Block → Result SequenceError (Unit {0})
  unfolding validate_block
  validate_each tv clock i [] = ok tt
  validate_each tv clock i (b ∷ bs) =
      map_err (refused i) (validate_block tv (clock i) b) >> validate_each tv clock (suc i) bs

  -- ValidateSequence
  unfoldable pub validate_sequence :
      ThreeLayerValidator E M C → (ℕ → ℕ) → List Block → Result SequenceError (Unit {0})
  unfolding validate_each check_links
  validate_sequence tv clock [] = ok tt
  validate_sequence tv clock (b ∷ bs) = validate_each tv clock 0 (b ∷ bs) >> check_links p b bs
