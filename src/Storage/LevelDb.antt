-- ===== src/Storage/LevelDb.antt =====
-- pkg/storage/leveldb_storage.go over any key-value store. A method returns whether it succeeded
-- and the storage it leaves. `SaveBlock` starts a goroutine for each checkpoint; the blocks that
-- wait for one are a list here, and `run_checkpoint` is the goroutine of one of them.
-- Left out: the byte counters, the batch queue and its worker, compaction, and the reports.
pub mod Laws
use shardmatrix.Prelude.{
  ℕ, zero, suc, ◌+◌, ◌%◌, Bool, true, false, not, ◌&&◌, Option, none, some, List, [], ◌∷◌, ◌++◌,
  ltb, ◌==◌, if◌then◌else◌,
}
use shardmatrix.Primitives.{Primitives}
use shardmatrix.Types.{
  Block, Transaction, Account, Validator, GenesisBlock, Hash, Address, hash_block, hash_tx,
}
use shardmatrix.Storage.{Storage}
use shardmatrix.Storage.KeyValue.{
  Checkpoint, Key, Value, Reply, KeyValue, block_key, hash_key, tx_key, account_key, validator_key,
  checkpoint_key, genesis_key, latest_height_key, latest_checkpoint_key, a_block, a_height,
  a_transaction, an_account, a_validator, a_genesis, a_checkpoint, found, not_found, failed,
}

-- LevelDBStorage with its CheckpointManager.
pub record LevelDb (D : Type 0) : Type 0 where
  pub db : D
  pub writes_total : ℕ
  pub checkpoint_height : ℕ
  pub checkpoint_hash : Hash
  pub last_checkpoint : ℕ
  pub checkpoint_interval : ℕ
  pub waiting : List Block

-- NewLevelDBStorage, once the store is open.
abbrev pub new_storage : {D : Type 0} → D → LevelDb D
new_storage d = record {
  db = d;
  writes_total = 0;
  checkpoint_height = 0;
  checkpoint_hash = 0;
  last_checkpoint = 0;
  checkpoint_interval = 100;
  waiting = [];
}

abbrev pub as_block : Reply → Option Block
as_block (found (a_block b)) = some b
as_block _ = none

abbrev pub as_height : Reply → Option ℕ
as_height (found (a_height h)) = some h
as_height _ = none

abbrev pub as_transaction : Reply → Option Transaction
as_transaction (found (a_transaction t)) = some t
as_transaction _ = none

abbrev pub as_account : Reply → Option Account
as_account (found (an_account a)) = some a
as_account _ = none

abbrev pub as_validator : Reply → Option Validator
as_validator (found (a_validator v)) = some v
as_validator _ = none

abbrev pub as_genesis : Reply → Option GenesisBlock
as_genesis (found (a_genesis g)) = some g
as_genesis _ = none

abbrev pub as_checkpoint : Reply → Option Checkpoint
as_checkpoint (found (a_checkpoint c)) = some c
as_checkpoint _ = none

-- A missing height is 0; any other error is one.
abbrev pub height_or_zero : Reply → Option ℕ
height_or_zero not_found = some 0
height_or_zero (found (a_height h)) = some h
height_or_zero _ = none

-- The loop of GetAllValidators: what does not decode is passed over.
collect_validators : List Value → List Validator
collect_validators [] = []
collect_validators (a_validator v ∷ vs) = v ∷ collect_validators vs
collect_validators (_ ∷ vs) = collect_validators vs

-- ShouldCreateCheckpoint. (An interval of 0 panics in Go; `% 0` is no remainder here.)
unfoldable pub should_create_checkpoint : ℕ → ℕ → Bool
should_create_checkpoint interval height = ltb 0 height && height % interval == 0

abbrev pub as_bool : {A : Type 0} → Option A → Bool
as_bool none = false
as_bool (some _) = true

module _ {D : Type 0} (kv : KeyValue D) where
  abbrev pub put : Key → Value → LevelDb D → Bool × LevelDb D
  put k v s = let (good, d) = kv.put k v s.db in (good, record s { db = d })

  unfoldable pub save_transaction : Primitives → Transaction → LevelDb D → Bool × LevelDb D
  save_transaction p t = put (tx_key (hash_tx p t)) (a_transaction t)

  unfoldable pub save_account : Account → LevelDb D → Bool × LevelDb D
  save_account a = put (account_key a.address) (an_account a)

  unfoldable pub save_validator : Validator → LevelDb D → Bool × LevelDb D
  save_validator v = put (validator_key v.address) (a_validator v)

  unfoldable pub save_genesis_block : GenesisBlock → LevelDb D → Bool × LevelDb D
  save_genesis_block g = put genesis_key (a_genesis g)

  unfoldable pub update_latest_block_height : ℕ → LevelDb D → Bool × LevelDb D
  update_latest_block_height h = put latest_height_key (a_height h)

  unfoldable pub get_block : ℕ → LevelDb D → Option Block
  get_block h s = as_block (kv.get (block_key h) s.db)

  unfoldable pub get_transaction : Hash → LevelDb D → Option Transaction
  get_transaction h s = as_transaction (kv.get (tx_key h) s.db)

  unfoldable pub get_account : Address → LevelDb D → Option Account
  get_account a s = as_account (kv.get (account_key a) s.db)

  unfoldable pub get_validator : Address → LevelDb D → Option Validator
  get_validator a s = as_validator (kv.get (validator_key a) s.db)

  unfoldable pub get_genesis_block : LevelDb D → Option GenesisBlock
  get_genesis_block s = as_genesis (kv.get genesis_key s.db)

  unfoldable pub get_latest_block_height : LevelDb D → Option ℕ
  get_latest_block_height s = height_or_zero (kv.get latest_height_key s.db)

  -- GetBlockByHash: the height first, then the block at it.
  unfoldable pub get_block_by_hash : Hash → LevelDb D → Option Block
  unfolding get_block
  get_block_by_hash h s = elim (as_height (kv.get (hash_key h) s.db)) [
    | none ↦ none
    | some height ↦ get_block height s
  ]

  unfoldable pub get_all_validators : LevelDb D → Option (List Validator)
  unfolding collect_validators
  get_all_validators s = elim (kv.validators s.db) [
    | none ↦ none
    | some vs ↦ some (collect_validators vs)
  ]

  -- SaveBlock: the block, its hash, the height, and every so often a checkpoint.
  unfoldable pub save_block : Primitives → Block → LevelDb D → Bool × LevelDb D
  unfolding update_latest_block_height should_create_checkpoint
  save_block p b s =
      let number = b.header.number in
      let (saved, s1) = put (block_key number) (a_block b) s in
      let s2 : LevelDb D = record s1 { writes_total = s1.writes_total + 1 } in
      let (mapped, s3) = put (hash_key (hash_block p b)) (a_height number) s2 in
      let (noted, s4) = update_latest_block_height number s3 in
      if not saved
      then (false, s1)
      else if not mapped
      then (false, s3)
      else if not noted
      then (false, s4)
      else if should_create_checkpoint s4.checkpoint_interval number
      then (true, record s4 { waiting = s4.waiting ++ b ∷ [] })
      else (true, s4)

  -- saveCheckpoint
  save_checkpoint : Checkpoint → LevelDb D → Bool × LevelDb D
  save_checkpoint c s =
      let (saved, s1) = put (checkpoint_key c.height) (a_checkpoint c) s in
      let second = put latest_checkpoint_key (a_height c.height) s1 in
      if saved then second else (false, s1)

  -- createCheckpoint, at the time `now`
  unfoldable pub create_checkpoint : Primitives → ℕ → Block → LevelDb D → LevelDb D
  unfolding save_checkpoint
  create_checkpoint p now b s =
      let c : Checkpoint = record {
        height = b.header.number;
        block_hash = hash_block p b;
        state_root = b.header.state_root;
        validator_set_hash = 0;
        timestamp = now;
        signature = 0;
      } in
      let (saved, s1) = save_checkpoint c s in
      if saved
      then record s1 {
        checkpoint_height = b.header.number;
        checkpoint_hash = hash_block p b;
        last_checkpoint = now;
      }
      else s1

  -- The goroutine of the block that has waited longest.
  unfoldable pub run_checkpoint : Primitives → ℕ → LevelDb D → LevelDb D
  unfolding create_checkpoint
  run_checkpoint p now s = elim s.waiting [
    | [] ↦ s
    | b ∷ rest ↦ create_checkpoint p now b (record s { waiting = rest })
  ]

  unfoldable pub get_checkpoint : ℕ → LevelDb D → Option Checkpoint
  get_checkpoint h s = as_checkpoint (kv.get (checkpoint_key h) s.db)

  unfoldable pub get_latest_checkpoint : LevelDb D → Option Checkpoint
  unfolding get_checkpoint
  get_latest_checkpoint s = elim (as_height (kv.get latest_checkpoint_key s.db)) [
    | none ↦ none
    | some h ↦ get_checkpoint h s
  ]

  -- SetCheckpointInterval
  unfoldable pub set_checkpoint_interval : ℕ → LevelDb D → LevelDb D
  set_checkpoint_interval n s = record s { checkpoint_interval = n }

  -- LevelDBStorage implements the interface.
  unfoldable pub level_db : Primitives → Storage (LevelDb D)
  unfolding save_block save_transaction save_account save_validator save_genesis_block
      update_latest_block_height get_block get_transaction get_account get_validator
      get_all_validators get_latest_block_height get_genesis_block
  level_db p = record {
    save_block = save_block p;
    get_block = get_block;
    save_transaction = save_transaction p;
    get_transaction = get_transaction;
    save_account = save_account;
    get_account = get_account;
    save_validator = save_validator;
    get_validator = get_validator;
    get_all_validators = get_all_validators;
    get_latest_block_height = get_latest_block_height;
    update_latest_block_height = update_latest_block_height;
    save_genesis_block = save_genesis_block;
    get_genesis_block = get_genesis_block;
  }
