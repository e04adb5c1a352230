-- ===== src/Storage/Tests.antt =====
-- The theorems about the storage at concrete inputs, over the store in memory.
use shardmatrix.Prelude.{ℕ, ◌+◌, ◌*◌, ◌≡◌, ◌≢◌, refl, true, some, List, [], ◌∷◌}
use shardmatrix.Primitives.{toy}
use shardmatrix.Types.{Block, Account, Hash, Address, hash_block}
use shardmatrix.Storage.KeyValue.{Key, Value, Checkpoint, memory}
use shardmatrix.Storage.LevelDb.{
  LevelDb, new_storage, save_block, get_block, get_block_by_hash, get_latest_block_height,
  get_account, get_transaction,
}
use shardmatrix.Storage.LevelDb.Laws.{save_block_reads}

abbrev empty : LevelDb (List (Key × Value))
empty = new_storage []

abbrev block_at : ℕ → Block
block_at height = record {
  header = record {
    number = height;
    timestamp = 1000 + 2 * height;
    prev_hash = 5;
    tx_root = 6;
    state_root = 7;
    validator = 11;
    signature = 77;
    shard_id = 1;
    adjacent_hashes = (0, 0, 0);
  };
  transactions = 501 ∷ [];
}

abbrev alice : Account
alice = record { address = 11; balance = 1000; nonce = 0; staked = 0 }

saved : (save_block memory toy (block_at 100) empty).0 ≡ true
unfolding save_block memory toy
saved = refl

-- A lower block saved later is the latest one.
height_goes_back :
    get_latest_block_height memory
      (save_block memory toy (block_at 3) (save_block memory toy (block_at 100) empty).1).1
    ≡ some 3
unfolding save_block get_latest_block_height memory toy
height_goes_back = refl

save_block_reads_example :
    let s' = (save_block memory toy (block_at 100) empty).1 in
    (get_block memory 100 s' ≡ some (block_at 100))
    × (get_block_by_hash memory (hash_block toy (block_at 100)) s' ≡ some (block_at 100))
    × (get_latest_block_height memory s' ≡ some 100)
    × ((h : ℕ) → h ≢ 100 → get_block memory h s' ≡ get_block memory h empty)
    × ((a : Address) → get_account memory a s' ≡ get_account memory a empty)
    × ((h : Hash) → get_transaction memory h s' ≡ get_transaction memory h empty)
save_block_reads_example = save_block_reads memory toy (block_at 100) empty saved

abbrev checkpoint : Checkpoint
checkpoint = record {
  height = 100;
  block_hash = hash_block toy (block_at 100);
  state_root = 7;
  validator_set_hash = 0;
  timestamp = 1300;
  signature = 0;
}
