-- ===== src/Producer/Blocks.antt =====
-- block_producer.go: what every produced block is like, and that production ends with one.
use shardmatrix.Prelude.{
  ℕ, zero, suc, ◌/◌, ◌<◌, ◌≤◌, ◌≡◌, ◌⊎◌, inl, inr, refl, true, Option, none, some, List, [], ◌∷◌,
  ok, arith, length, ltb→lt, length-take, take, map, Option-cases, List-cases, Bool-cases, ltb,
  if◌then◌else◌,
}
use shardmatrix.Prelude.Words.{sub64}
use shardmatrix.Primitives.{Primitives}
use shardmatrix.Types.{
  Hash, Block, Transaction, first_shard, max_block_size, max_tx_per_block, calculate_tx_root,
  empty_tx_root, hash_tx, hash_block, block_size, block_is_empty,
}
use shardmatrix.Crypto.{new_key_pair, sign_block}
use shardmatrix.Crypto.Signing.{verify_block-sign_block}
use shardmatrix.Dpos.Health.{Float64}
use shardmatrix.Interfaces.{StateManager, TxPool, NetworkChecker}
use shardmatrix.Producer.{
  BlockProducer, EmptyBlockTrigger, is_unsigned, no_transactions, transaction_failure, new_header,
  get_validator_for_empty_block, should_create_empty_block,
}
use shardmatrix.Producer.Filter.{filter_valid_transactions}
use shardmatrix.Producer.Making.{
  create_empty_block_with_reason, validate_empty_block, validate_produced_block, full_block,
  create_block_with_transactions, produce_from_pool, produce_after, produce_block,
}

-- The hash that a block with a number is to link to: none for the first.
abbrev pub previous_hash : {M : Type 0} → Primitives → StateManager M → M → ℕ → Option Hash
previous_hash p sm m n =
    if ltb 0 n
    then elim (sm.get_block_by_height (sub64 n 1) m) [
      | none ↦ none
      | some b ↦ some (hash_block p b)
    ]
    else some 0

module _ {S P M N : Type 0} where
  -- What a block is to be, made for a time and a number on top of the block with hash `prev`.
  pub record IsProposal (p : Primitives) (bp : BlockProducer S P M N) (block_time n : ℕ)
      (prev : Hash) (b : Block) : Type 0 where
    pub height : b.header.number ≡ n
    pub timestamp : b.header.timestamp ≡ block_time
    pub link : b.header.prev_hash ≡ prev
    pub shard : b.header.shard_id ≡ first_shard
    pub root : b.header.tx_root ≡ calculate_tx_root p b.transactions
    pub size_bound : block_size b ≤ max_block_size
    pub checked :
        (validate_produced_block p bp b ≡ ok tt)
        ⊎ ((validate_empty_block p bp b ≡ ok tt) × (b.header.signature ≡ 0))

  module _ (p : Primitives) (key : List ℕ) where
    -- A signed block with the producer's header, of a size that is allowed.
    full_block-IsProposal :
        (bp : BlockProducer S P M N) (block_time number : ℕ) (prev root : Hash) (hs : List Hash)
        → new_key_pair p key ≡ ok bp.key_pair
        → block_size (full_block p bp block_time number prev root hs) ≤ max_block_size
        → IsProposal p bp block_time number prev (full_block p bp block_time number prev root hs)
    unfolding validate_produced_block sign_block
    full_block-IsProposal bp block_time number prev root hs k fits =
        let verifies =
          verify_block-sign_block p key
            (new_header block_time number prev (calculate_tx_root p hs) root bp.key_pair.address)
            k in
        record {
          height = refl;
          timestamp = refl;
          link = refl;
          shard = refl;
          root = refl;
          size_bound = fits;
          checked = inl (ground arith);
        }

    create_empty_block_with_reason-IsProposal :
        (bp : BlockProducer S P M N) (block_time number : ℕ) (prev root : Hash)
        (trigger : EmptyBlockTrigger)
        → new_key_pair p key ≡ ok bp.key_pair
        → IsProposal p bp block_time number prev
            (create_empty_block_with_reason p bp block_time number prev root trigger)
    unfolding create_empty_block_with_reason validate_empty_block get_validator_for_empty_block
        calculate_tx_root empty_tx_root block_size block_is_empty
    create_empty_block_with_reason-IsProposal bp block_time number prev root trigger k =
        elim (Bool-cases (is_unsigned trigger)) [
          | inl unsigned ↦ rw unsigned record {
            height = refl;
            timestamp = refl;
            link = refl;
            shard = refl;
            root = refl;
            size_bound = omega arith;
            checked = inr (ground arith, refl);
          }
          | inr signed ↦
              let shape : create_empty_block_with_reason p bp block_time number prev root trigger
                  ≡ full_block p bp block_time number prev root [] =
                rw signed refl in
              rw shape (full_block-IsProposal bp block_time number prev root [] k (omega arith))
        ]

    -- As much fuel as there are transactions, and one more, makes a block.
    create_block_with_transactions-some :
        (sm : StateManager M) (fuel : ℕ) (bp : BlockProducer S P M N) (block_time number : ℕ)
        (prev root : Hash) (txs : List Transaction)
        → new_key_pair p key ≡ ok bp.key_pair
        → length txs < fuel
        → (b : Block) × (create_block_with_transactions p sm fuel bp block_time number prev root txs
            ≡ some b)
          × IsProposal p bp block_time number prev b
    unfolding create_block_with_transactions
    create_block_with_transactions-some sm zero bp block_time number prev root txs k h =
        absurd (omega arith)
    create_block_with_transactions-some sm (suc fuel) bp block_time number prev root txs k h =
        let half = length txs / 2 in
        let empty_block =
          create_empty_block_with_reason p bp block_time number prev root no_transactions in
        let empty =
          create_empty_block_with_reason-IsProposal bp block_time number prev root no_transactions
            k in
        elim (Option-cases (sm.process_transactions txs bp.state_manager)) [
          | inl failed ↦ (empty_block, rw (create_block_with_transactions, failed) refl, empty)
          | inr (new_root, done) ↦
              let hs = map (hash_tx p) txs in
              let b = full_block p bp block_time number prev new_root hs in
              elim (Bool-cases (ltb max_block_size (block_size b))) [
                | inr fits ↦ (
                  b,
                  rw (create_block_with_transactions, done, fits) refl,
                  full_block-IsProposal bp block_time number prev new_root hs k (ground arith),
                )
                | inl large ↦ elim (Bool-cases (ltb 0 half)) [
                  | inr none_left ↦ (
                    empty_block,
                    rw (create_block_with_transactions, done, large, none_left) refl,
                    empty,
                  )
                  | inl some_left ↦
                      let (c, made, good) =
                        create_block_with_transactions-some sm fuel bp block_time number prev root
                          (take half txs) k
                          (omega (arith, length-take half txs, ltb→lt 0 half some_left)) in
                      (c, rw (create_block_with_transactions, done, large, some_left) made, good)
                ]
              ]
        ]

    -- A proposal is one whatever the state manager is.
    IsProposal-state :
        (bp : BlockProducer S P M N) (m : M) {block_time n : ℕ} {prev : Hash} {b : Block}
        → IsProposal p (record bp { state_manager = m }) block_time n prev b
        → IsProposal p bp block_time n prev b
    unfolding validate_produced_block validate_empty_block
    IsProposal-state bp m g = record {
      height = g.height;
      timestamp = g.timestamp;
      link = g.link;
      shard = g.shard;
      root = g.root;
      size_bound = g.size_bound;
      checked = g.checked;
    }

    module _ (sm : StateManager M) (pool : TxPool P) where
      produce_from_pool-IsProposal :
          (bp : BlockProducer S P M N) (block_time n : ℕ) (prev root : Hash)
          → new_key_pair p key ≡ ok bp.key_pair
          → (b : Block) × ((produce_from_pool p sm pool bp block_time n prev root).0 ≡ some b)
            × IsProposal p bp block_time n prev b
      unfolding produce_from_pool
      produce_from_pool-IsProposal bp block_time n prev root k =
          let empty = create_empty_block_with_reason p bp block_time n prev root in
          elim (Option-cases (pool.get_pending_transactions max_tx_per_block bp.tx_pool)) [
            | inl none_given ↦ (
              empty transaction_failure,
              rw (produce_from_pool, none_given) refl,
              create_empty_block_with_reason-IsProposal bp block_time n prev root
                  transaction_failure k,
            )
            | inr (ts, given) ↦ elim (List-cases ts) [
              | inl nothing ↦ (
                empty no_transactions,
                rw (produce_from_pool, given, nothing) refl,
                create_empty_block_with_reason-IsProposal bp block_time n prev root no_transactions
                    k,
              )
              | inr (t, us, some_given) ↦
                  let m = (filter_valid_transactions sm (t ∷ us) bp.state_manager).1 in
                  elim (List-cases (filter_valid_transactions sm (t ∷ us) bp.state_manager).0) [
                    | inl all_invalid ↦ (
                      empty transaction_failure,
                      rw (produce_from_pool, given, some_given, all_invalid) refl,
                      create_empty_block_with_reason-IsProposal bp block_time n prev root
                          transaction_failure k,
                    )
                    | inr (v, vs, valid) ↦
                        let (b, made, good) =
                          create_block_with_transactions-some sm (suc (length (v ∷ vs)))
                            (record bp { state_manager = m }) block_time n prev root (v ∷ vs) k
                            (omega arith) in
                        (
                          b,
                          rw (produce_from_pool, given, some_given, valid) made,
                          IsProposal-state bp m good,
                        )
                  ]
            ]
          ]

      produce_after-IsProposal :
          {F : Type 0} (fl : Float64 F) (nc : NetworkChecker F N) (bp : BlockProducer S P M N)
          (block_time n : ℕ) (prev : Hash)
          → new_key_pair p key ≡ ok bp.key_pair
          → (b : Block) × ((produce_after p sm pool fl nc bp block_time n prev).0 ≡ some b)
            × IsProposal p bp block_time n prev b
      unfolding produce_after
      produce_after-IsProposal fl nc bp block_time n prev k =
          let root = sm.get_current_state_root bp.state_manager in
          elim (Option-cases (should_create_empty_block fl nc bp n)) [
            | inl wants_none ↦
                let (b, made, good) = produce_from_pool-IsProposal bp block_time n prev root k in
                (b, rw (produce_after, wants_none) made, good)
            | inr (trigger, wanted) ↦ (
              create_empty_block_with_reason p bp block_time n prev root trigger,
              rw (produce_after, wanted) refl,
              create_empty_block_with_reason-IsProposal bp block_time n prev root trigger k,
            )
          ]

      -- A running producer whose key pair comes from a private key produces a block for every
      -- time and every number whose block before is known, whatever its pool, its state manager and
      -- the network checker say: createBlockWithTransactions ends. The block has that number and
      -- that time, the hash of the block before (or an empty one for the number 0), the shard, the root of its transactions
      -- and at most 2 MB; and it passes ValidateProducedBlock, or it has no signature and passes
      -- ValidateEmptyBlock.
      pub produce_block-IsProposal :
          {F : Type 0} (fl : Float64 F) (nc : NetworkChecker F N) (bp : BlockProducer S P M N)
          (block_time n : ℕ) (prev : Hash)
          → new_key_pair p key ≡ ok bp.key_pair
          → bp.is_running ≡ true
          → previous_hash p sm bp.state_manager n ≡ some prev
          → (b : Block) × ((produce_block p sm pool fl nc bp block_time n).0 ≡ ok (some b))
            × IsProposal p bp block_time n prev b
      unfolding produce_block
      produce_block-IsProposal fl nc bp block_time n prev k runs known =
          let (b, made, good) = produce_after-IsProposal fl nc bp block_time n prev k in
          (
            b,
            elim (Bool-cases (ltb 0 n)) [
              | inr first ↦ ground arith
              | inl later ↦
                  elim (Option-cases (sm.get_block_by_height (sub64 n 1) bp.state_manager)) [
                    | inl missing ↦ absurd (ground arith)
                    | inr (c, there) ↦ ground arith
                  ]
            ],
            good,
          )
