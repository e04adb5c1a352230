-- ===== src/ThreeLayer/Accepts.antt =====
-- Which blocks the three layers accept, over the chain manager and the DPoS consensus.
use shardmatrix.Prelude.{
  ℕ, ◌<◌, ◌≤◌, ◌≡◌, true, ok, some, arith, length, inl, inr, Option-cases, Result, Bool, ◌>>◌,
  >>-ok, map_err-ok,
}
use shardmatrix.Prelude.Words.{add64, sub64}
use shardmatrix.Primitives.{Primitives}
use shardmatrix.Storage.{Storage}
use shardmatrix.Types.{Block, calculate_tx_root, first_shard, hash_block, block_size, block_seconds}
use shardmatrix.Chain.{Manager}
use shardmatrix.Chain.Blocks
use shardmatrix.Chain.Blocks.{get_last_block}
use shardmatrix.Chain.Blocks.Append.{Follows, validate_block_iff}
use shardmatrix.Interfaces.{StateManager, ConsensusEngine, chain_state, to_option}
use shardmatrix.ThreeLayer.{
  ThreeLayerValidator, when, validate_block_size, validate_transaction_count, validate_content,
  check_interval,
}
use shardmatrix.ThreeLayer.Layers.{
  validate_block_integrity, validate_block_height, validate_timestamp, validate_structure,
  validate_time_after_previous, validate_consensus, validate_block,
}

pub when-ok :
    {E : Type 0} {b : Bool} (r : Result E (Unit {0})) → b ≡ true → when b r ≡ ok tt → r ≡ ok tt
when-ok r enabled h = ground arith

module _ {E M C : Type 0} (en : ConsensusEngine E) (sm : StateManager M) (p : Primitives) where
  pub validate_block-layers :
      (tv : ThreeLayerValidator E M C) (now : ℕ) (b : Block)
      → validate_block en sm p tv now b ≡ ok tt
      → (when tv.config.enable_structure_validation (validate_structure sm p tv now b) ≡ ok tt)
        × (when tv.config.enable_consensus_validation
              (validate_consensus en p tv.consensus_engine b)
            ≡ ok tt)
        × (when tv.config.enable_content_validation (validate_content tv b) ≡ ok tt)
  unfolding validate_block
  validate_block-layers tv now b h =
      let (first, rest) =
        >>-ok (when tv.config.enable_structure_validation (validate_structure sm p tv now b))
          (when tv.config.enable_consensus_validation
              (validate_consensus en p tv.consensus_engine b)
            >> when tv.config.enable_content_validation (validate_content tv b))
          h in
      let (second, third) =
        >>-ok
          (when tv.config.enable_consensus_validation
            (validate_consensus en p tv.consensus_engine b))
          (when tv.config.enable_content_validation (validate_content tv b)) rest in
      (first, second, third)

-- The checks of the structure layer, one by one.
pub record Structured {E M C : Type 0} (sm : StateManager M) (p : Primitives)
    (tv : ThreeLayerValidator E M C) (now : ℕ) (b : Block) : Type 0 where
  pub whole : validate_block_integrity p b ≡ ok tt
  pub in_time : validate_timestamp sm tv now b ≡ ok tt
  pub next : validate_block_height sm p tv.state_manager b ≡ ok tt
  pub small : validate_block_size tv b ≡ ok tt
  pub few : validate_transaction_count tv b ≡ ok tt

module _ {E M C : Type 0} (sm : StateManager M) (p : Primitives) where
  pub validate_structure-Structured :
      (tv : ThreeLayerValidator E M C) (now : ℕ) (b : Block)
      → validate_structure sm p tv now b ≡ ok tt
      → Structured sm p tv now b
  unfolding validate_structure
  validate_structure-Structured tv now b h =
      let (h1, r1) = >>-ok _ _ h in
      let (h2, r2) = >>-ok _ _ r1 in
      let (h3, r3) = >>-ok _ _ r2 in
      let (h4, h5) = >>-ok _ _ r3 in
      record {
        whole = map_err-ok _ _ h1;
        in_time = map_err-ok _ _ h2;
        next = map_err-ok _ _ h3;
        small = map_err-ok _ _ h4;
        few = map_err-ok _ _ h5;
      }

-- What the structure layer of one configuration guarantees over the chain manager.
pub record Fits {E S C : Type 0} (st : Storage S) (p : Primitives)
    (tv : ThreeLayerValidator E (Manager S) C) (a b : Block) : Type 0 where
  pub current : tv.state_manager.current_block ≡ some a
  pub follows : Follows p a b
  pub two_seconds :
      (c : Block) × (st.get_block (sub64 b.header.number 1) tv.state_manager.storage ≡ some c)
      × (sub64 b.header.timestamp c.header.timestamp ≡ block_seconds)
  pub size_bound : block_size b ≤ tv.config.max_block_size
  pub count_bound : length b.transactions ≤ tv.config.max_tx_per_block

validate_block_integrity-ok :
    (p : Primitives) (b : Block)
    → validate_block_integrity p b ≡ ok tt
    → (b.header.tx_root ≡ calculate_tx_root p b.transactions) × (b.header.shard_id ≡ first_shard)
unfolding validate_block_integrity
validate_block_integrity-ok p b h = (ground arith, ground arith)

module _ {M : Type 0} (sm : StateManager M) (p : Primitives) where
  pub validate_block_height-ok :
      (m : M) (b : Block)
      → 0 < b.header.number
      → validate_block_height sm p m b ≡ ok tt
      → (a : Block) × (sm.get_last_block m ≡ some a)
        × (b.header.number ≡ add64 a.header.number 1)
        × (b.header.prev_hash ≡ hash_block p a)
  unfolding validate_block_height
  validate_block_height-ok m b pos h = elim (Option-cases (sm.get_last_block m)) [
    | inl missing ↦ absurd (ground arith)
    | inr (a, e) ↦ (a, e, ground arith, ground arith)
  ]

  validate_time_after_previous-ok :
      (m : M) (b : Block)
      → 0 < b.header.number
      → validate_time_after_previous sm m b ≡ ok tt
      → (c : Block) × (sm.get_block_by_height (sub64 b.header.number 1) m ≡ some c)
        × (sub64 b.header.timestamp c.header.timestamp ≡ block_seconds)
  unfolding validate_time_after_previous check_interval
  validate_time_after_previous-ok m b pos h =
      elim (Option-cases (sm.get_block_by_height (sub64 b.header.number 1) m)) [
        | inl missing ↦ absurd (ground arith)
        | inr (c, e) ↦ (c, e, ground arith)
      ]

get_last_block-current :
    {S : Type 0} (m : Manager S) {a : Block}
    → to_option (get_last_block m) ≡ some a
    → m.current_block ≡ some a
unfolding get_last_block
get_last_block-current m h = elim (Option-cases m.current_block) [
  | inl missing ↦ absurd (ground arith)
  | inr (a, e) ↦ ground arith
]

module _ {S E C : Type 0} (st : Storage S) (p : Primitives) where
  pub validate_structure-Fits :
      (tv : ThreeLayerValidator E (Manager S) C) (now : ℕ) (b : Block)
      → 0 < b.header.number
      → validate_structure (chain_state st p) p tv now b ≡ ok tt
      → (a : Block) × Fits st p tv a b
  unfolding chain_state get_last_block validate_timestamp validate_block_size
      validate_transaction_count
  validate_structure-Fits tv now b pos h =
      let s = validate_structure-Structured (chain_state st p) p tv now b h in
      let (root, shard) = validate_block_integrity-ok p b s.whole in
      let (a, last, height, link) =
        validate_block_height-ok (chain_state st p) p tv.state_manager b pos s.next in
      let (_, r1) = >>-ok _ _ s.in_time in
      let (_, after) = >>-ok _ _ r1 in
      let small = s.small in
      let few = s.few in
      (
        a,
        record {
          current = get_last_block-current tv.state_manager last;
          follows = record { height = height; link = link; root = root; shard = shard };
          two_seconds =
              validate_time_after_previous-ok (chain_state st p) p tv.state_manager b pos after;
          size_bound = ground arith;
          count_bound = ground arith;
        },
      )

  -- Take the three-layer validator over the chain manager, with the structure layer enabled. A
  -- block with a number above 0 that it accepts, at whatever time, follows the manager's current
  -- block, so that AddBlock's own check accepts it too; it is two seconds later than the stored
  -- block of the number before, and within the limits for the size and the transactions.
  pub validate_block-Fits :
      (en : ConsensusEngine E) (tv : ThreeLayerValidator E (Manager S) C) (now : ℕ) (b : Block)
      → tv.config.enable_structure_validation ≡ true
      → 0 < b.header.number
      → validate_block en (chain_state st p) p tv now b ≡ ok tt
      → (a : Block) × Fits st p tv a b × (Blocks.validate_block p a b ≡ ok tt)
  unfolding validate_block
  validate_block-Fits en tv now b enabled pos h =
      let (first, _, _) = validate_block-layers en (chain_state st p) p tv now b h in
      let structured = when-ok _ enabled first in
      let (a, fits) = validate_structure-Fits tv now b pos structured in
      (a, fits, (validate_block_iff p a b).1 fits.follows)
