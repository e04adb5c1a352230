-- ===== src/Chain/Blocks.antt =====
-- The block level of manager.go: initialising, loading and extending the chain, and state roots.
-- An initialised manager has a current block; `validateBlock` would fault on a nil one, and the
-- model returns `no_block` there. rebuildState counts the heights 1 to the last, so that the loop
-- ends; a height of 2 ^ 64 - 1, at which Go's would not, is out of reach.
pub mod Append
pub mod Restart
use shardmatrix.Prelude.{
  ℕ, zero, suc, ◌+◌, Bool, true, false, not, Option, none, some, List, [], ◌∷◌, Result, ok, err,
  ltb, ◌==◌, if◌then◌else◌, require, ◌>>=◌, ◌>>◌,
}
use shardmatrix.Prelude.Words.{add64}
use shardmatrix.Prelude.Assoc.{Assoc, insert}
use shardmatrix.Primitives.{Primitives}
use shardmatrix.Storage.{Storage}
use shardmatrix.Types.{
  Hash, Block, BlockHeader, Transaction, Account, GenesisBlock, first_shard, hash_block,
  calculate_tx_root, empty_tx_root,
}
use shardmatrix.Chain.{
  ChainError, already_initialized, not_initialized, no_genesis_block, no_height, no_block,
  no_genesis, genesis_not_saved, block_not_saved, account_not_saved, bad_height, bad_prev_hash,
  bad_tx_root, bad_shard, Manager, Outcome, state_preimage, process_each, process_hashes,
  save_accounts, save_initial, replay_blocks,
}

-- `for _, account := range accounts { state[account.Address] = &account }`
unfoldable pub enter_accounts : List Account → Assoc Account → Assoc Account
enter_accounts [] m = m
enter_accounts (a ∷ rest) m = enter_accounts rest (insert a.address a m)

abbrev pub genesis_header : ℕ → Hash → Hash → BlockHeader
genesis_header timestamp tx_root state_root = record {
  number = 0;
  timestamp = timestamp;
  prev_hash = 0;
  tx_root = tx_root;
  state_root = state_root;
  validator = 0;
  signature = 0;
  shard_id = first_shard;
  adjacent_hashes = (0, 0, 0);
}

module _ (p : Primitives) where
  -- calculateStateRootFromState
  unfoldable pub calculate_state_root : Assoc Account → Hash
  calculate_state_root m = p.sha256 (state_preimage m)

  -- validateBlock, against the current block
  unfoldable pub validate_block : Block → Block → Result ChainError (Unit {0})
  validate_block current b = do
    require (b.header.number == add64 current.header.number 1) bad_height
    require (b.header.prev_hash == hash_block p current) bad_prev_hash
    require (b.header.tx_root == calculate_tx_root p b.transactions) bad_tx_root
    require (b.header.shard_id == first_shard) bad_shard

  -- ProcessTransactions works on a copy, and leaves the manager as it was.
  unfoldable pub process_transactions :
      {S : Type 0} → List Transaction → Manager S → Result ChainError Hash
  unfolding calculate_state_root
  process_transactions ts m =
      process_each ts m.current_state >>= λ state. ok (calculate_state_root state)

  -- GetCurrentStateRoot
  unfoldable pub get_current_state_root : {S : Type 0} → Manager S → Hash
  unfolding calculate_state_root
  get_current_state_root m = calculate_state_root m.current_state

-- GetLastBlock
unfoldable pub get_last_block : {S : Type 0} → Manager S → Result ChainError Block
get_last_block m = elim m.current_block [ some b ↦ ok b | none ↦ err no_block ]

module _ {S : Type 0} (st : Storage S) (p : Primitives) where
  -- createNewChain
  unfoldable pub create_new_chain : GenesisBlock → Manager S → Outcome S (Unit {0})
  unfolding enter_accounts calculate_state_root
  create_new_chain g m =
      let state = enter_accounts g.init_accounts m.current_state in
      let block : Block = record {
        header = genesis_header g.timestamp (empty_tx_root p) (calculate_state_root p state);
        transactions = [];
      } in
      let m1 : Manager S = record m {
        genesis_block = some block;
        current_block = some block;
        current_state = state;
      } in
      let (saved_genesis, s1) = st.save_genesis_block g m.storage in
      let (saved_block, s2) = st.save_block block s1 in
      let (saved_accounts, s3) = save_initial st g.init_accounts s2 in
      if not saved_genesis
      then (err genesis_not_saved, record m1 { storage = s1 })
      else if not saved_block
      then (err block_not_saved, record m1 { storage = s2 })
      else if not saved_accounts
      then (err account_not_saved, record m1 { storage = s3 })
      else (ok tt, record m1 { storage = s3; is_initialized = true })

  -- rebuildState
  unfoldable pub rebuild_state : Manager S → Outcome S (Unit {0})
  unfolding enter_accounts
  rebuild_state m =
      let m1 = record m { current_state = [] } in
      elim (st.get_genesis_block m.storage) [
        | none ↦ (err no_genesis, m1)
        | some g ↦
            let m2 : Manager S = record m { current_state = enter_accounts g.init_accounts [] } in
            elim (st.get_latest_block_height m.storage) [
              | none ↦ (err no_height, m2)
              | some last ↦ replay_blocks st last 1 m2
            ]
      ]

  -- The end of loadExistingChain, once the current block is known.
  finish_loading : Manager S → Outcome S (Unit {0})
  unfolding rebuild_state
  finish_loading m =
      let (r, m') = rebuild_state m in
      elim r [ ok _ ↦ (ok tt, record m' { is_initialized = true }) | err e ↦ (err e, m') ]

  -- loadExistingChain
  unfoldable pub load_existing_chain : Manager S → Outcome S (Unit {0})
  unfolding finish_loading
  load_existing_chain m = elim (st.get_block 0 m.storage) [
    | none ↦ (err no_genesis_block, m)
    | some genesis ↦
        let m1 : Manager S = record m { genesis_block = some genesis } in
        elim (st.get_latest_block_height m.storage) [
          | none ↦ (err no_height, m1)
          | some last ↦
              if ltb 0 last
              then elim (st.get_block last m.storage) [
                | none ↦ (err no_block, m1)
                | some current ↦ finish_loading (record m1 { current_block = some current })
              ]
              else finish_loading (record m1 { current_block = some genesis })
        ]
  ]

  -- Initialize
  unfoldable pub initialize : GenesisBlock → Manager S → Outcome S (Unit {0})
  unfolding create_new_chain load_existing_chain
  initialize g m =
      if m.is_initialized
      then (err already_initialized, m)
      else elim (st.get_genesis_block m.storage) [
        | some _ ↦ load_existing_chain m
        | none ↦ create_new_chain g m
      ]

  -- The end of AddBlock, once the transactions are processed.
  unfoldable pub store_block : Block → Manager S → Outcome S (Unit {0})
  store_block b m =
      let (saved, s1) = st.save_block b m.storage in
      let (kept, s2) = save_accounts st m.current_state s1 in
      if not saved
      then (err block_not_saved, record m { storage = s1 })
      else if not kept
      then (err account_not_saved, record m { storage = s2; current_block = some b })
      else (ok tt, record m { storage = s2; current_block = some b })

  -- AddBlock, for a block that has passed validation.
  unfoldable pub append_block : Block → Manager S → Outcome S (Unit {0})
  append_block b m = elim (process_hashes st b.transactions m).0 [
    | err e ↦ (err e, (process_hashes st b.transactions m).1)
    | ok _ ↦ store_block b (process_hashes st b.transactions m).1
  ]

  -- AddBlock
  unfoldable pub add_block : Block → Manager S → Outcome S (Unit {0})
  add_block b m = if not m.is_initialized then (err not_initialized, m) else elim m.current_block [
    | none ↦ (err no_block, m)
    | some current ↦ elim (validate_block p current b) [
      | err e ↦ (err e, m)
      | ok _ ↦ append_block b m
    ]
  ]
