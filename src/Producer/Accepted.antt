-- ===== src/Producer/Accepted.antt =====
-- block_producer.go together with the parts that receive its blocks: the chain manager, the DPoS
-- consensus and the three-layer validator.
use shardmatrix.Prelude.{
  Option, ℕ, ◌+◌, ◌<◌, ◌≡◌, refl, true, none, some, List, ok, err, arith, Option-cases, inl, inr,
  Bool-cases, ltb,
}
use shardmatrix.Prelude.Words.{word, add64, sub64}
use shardmatrix.Primitives.{Primitives}
use shardmatrix.Storage.{Storage}
use shardmatrix.TimeControl.{TimeController}
use shardmatrix.Types.{Block, Hash, hash_block, get_validator}
use shardmatrix.Crypto.{new_key_pair}
use shardmatrix.Chain.{Manager}
use shardmatrix.Chain.Blocks
use shardmatrix.Chain.Blocks.Append.{validate_block_iff}
use shardmatrix.Dpos
use shardmatrix.Dpos.{Dpos, is_validator, not_a_validator}
use shardmatrix.Dpos.Health.{Float64}
use shardmatrix.Dpos.Watch.{is_in_safety_mode}
use shardmatrix.Interfaces.{
  StateManager, TxPool, NetworkChecker, chain_state, dpos_engine, dpos_checker,
}
use shardmatrix.ThreeLayer.{validator_permission, not_registered, consensus}
use shardmatrix.ThreeLayer.Layers.{validate_consensus, validate_validator_permission}
use shardmatrix.Producer.{
  BlockProducer, EmptyBlockTrigger, safety_mode, should_create_empty_block,
  get_validator_for_empty_block,
}
use shardmatrix.Producer.Making.{produce_block, produce_after, create_empty_block_with_reason}
use shardmatrix.Producer.Blocks.{previous_hash, produce_block-IsProposal}

module _ {S P M N : Type 0} (p : Primitives) (sm : StateManager M) (pool : TxPool P) where
  -- If an empty block is wanted, it is what is produced.
  produce_block-wanted :
      {F : Type 0} (fl : Float64 F) (nc : NetworkChecker F N) (bp : BlockProducer S P M N)
      (block_time n : ℕ) (prev : Hash) (trigger : EmptyBlockTrigger)
      → bp.is_running ≡ true
      → previous_hash p sm bp.state_manager n ≡ some prev
      → should_create_empty_block fl nc bp n ≡ some trigger
      → (produce_block p sm pool fl nc bp block_time n).0
        ≡ ok (
            some (
              create_empty_block_with_reason p bp block_time n prev
                (sm.get_current_state_root bp.state_manager)
                trigger))
  unfolding produce_block produce_after
  produce_block-wanted fl nc bp block_time n prev trigger runs known wanted =
      elim (Bool-cases (ltb 0 n)) [
        | inr first ↦ ground arith
        | inl later ↦ elim (Option-cases (sm.get_block_by_height (sub64 n 1) bp.state_manager)) [
          | inl missing ↦ absurd (ground arith)
          | inr (c, there) ↦ ground arith
        ]
      ]

module _ {S P : Type 0} (p : Primitives) where
  -- Let a producer run, with empty blocks enabled and the DPoS consensus as its network checker,
  -- which is in safety mode; let the block before the one that is asked for be known, or that one be the first;
  -- and let the system validator be no registered one. Then the producer makes a block without
  -- signature in the name of the system validator. ValidateBlock of the same consensus refuses it, whatever
  -- time controller the consensus has and also without one, and so does the consensus layer of the
  -- three-layer validator.
  pub safety_block_refused :
      {C F M : Type 0} (clock : Option (TimeController C)) (sm : StateManager M) (pool : TxPool P)
      (fl : Float64 F) (d : Dpos S F) (bp : BlockProducer S P M (Dpos S F)) (block_time n : ℕ)
      (prev : Hash)
      → bp.is_running ≡ true
      → bp.network_checker ≡ some d
      → bp.empty_block_config.enabled ≡ true
      → is_in_safety_mode d ≡ true
      → previous_hash p sm bp.state_manager n ≡ some prev
      → get_validator bp.empty_block_config.system_validator d.validators ≡ none
      → (b : Block) × ((produce_block p sm pool fl (dpos_checker fl) bp block_time n).0
          ≡ ok (some b))
        × (b.header.signature ≡ 0)
        × (b.header.validator ≡ bp.empty_block_config.system_validator)
        × (Dpos.validate_block p clock d b ≡ err not_a_validator)
        × (validate_consensus dpos_engine p d b
            ≡ err (record {
              level = consensus;
              code = validator_permission;
              message = not_registered;
            }))
  unfolding should_create_empty_block dpos_checker create_empty_block_with_reason
      get_validator_for_empty_block dpos_engine validate_consensus validate_validator_permission
      is_validator Dpos.validate_block
  safety_block_refused clock sm pool fl d bp block_time n prev runs asks enabled safe known absent =
      let root = sm.get_current_state_root bp.state_manager in
      let system = bp.empty_block_config.system_validator in
      let b = create_empty_block_with_reason p bp block_time n prev root safety_mode in
      let name : b.header.validator ≡ system = ground arith in
      let unknown : get_validator b.header.validator d.validators ≡ none = rw name absent in
      let wanted : should_create_empty_block fl (dpos_checker fl) bp n ≡ some safety_mode =
        ground arith in
      let made =
        produce_block-wanted p sm pool fl (dpos_checker fl) bp block_time n prev safety_mode runs
          known wanted in
      (b, made, refl, name, ground arith, ground arith)

module _ {S P : Type 0} (p : Primitives) (key : List ℕ) where
  -- Let a producer work on the chain manager, whose storage has the current block at its height.
  -- If the producer runs and its key pair comes from a private key, then the block that it makes for
  -- the next number is accepted by the manager's check of a block.
  pub produce_block-Follows :
      {F N : Type 0} (st : Storage S) (pool : TxPool P) (fl : Float64 F) (nc : NetworkChecker F N)
      (bp : BlockProducer S P (Manager S) N) (a : Block) (block_time : ℕ)
      → new_key_pair p key ≡ ok bp.key_pair
      → bp.is_running ≡ true
      → bp.state_manager.current_block ≡ some a
      → st.get_block a.header.number bp.state_manager.storage ≡ some a
      → a.header.number + 1 < word
      → (b : Block) × ((produce_block p
            (chain_state st p)
            pool
            fl
            nc
            bp
            block_time
            (a.header.number + 1)).0
          ≡ ok (some b))
        × (Blocks.validate_block p a b ≡ ok tt)
  unfolding chain_state
  produce_block-Follows st pool fl nc bp a block_time k runs current stored bound =
      let n = a.header.number + 1 in
      let back : sub64 n 1 ≡ a.header.number = omega arith in
      let known : previous_hash p (chain_state st p) bp.state_manager n ≡ some (hash_block p a) =
        ground arith in
      let (b, made, good) =
        produce_block-IsProposal p key (chain_state st p) pool fl nc bp block_time n
          (hash_block p a) k runs known in
      let wraps : add64 a.header.number 1 ≡ n = omega arith in
      (
        b,
        made,
        (validate_block_iff p a b).1 (record {
          height = cc (good.height);
          link = good.link;
          root = good.root;
          shard = good.shard;
        }),
      )
