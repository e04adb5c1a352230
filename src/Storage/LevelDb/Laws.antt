-- ===== src/Storage/LevelDb/Laws.antt =====
-- What is saved is found again, and what else is stored stays as it was.
use shardmatrix.Prelude.{ℕ, ◌≡◌, ◌≢◌, ◌∙◌, ap, true, some, arith}
use shardmatrix.Primitives.{Primitives}
use shardmatrix.Types.{Block, Hash, Address, hash_block}
use shardmatrix.Storage.KeyValue.{
  Checkpoint, Key, Value, KeyValue, block_key, hash_key, tx_key, account_key, checkpoint_key,
  latest_height_key, latest_checkpoint_key, a_block, a_height, a_checkpoint, found,
}
use shardmatrix.Storage.LevelDb.{
  LevelDb, as_block, as_account, as_transaction, save_block, get_block, get_block_by_hash,
  get_latest_block_height, get_account, get_transaction, create_checkpoint, get_latest_checkpoint,
}

module _ {D : Type 0} (kv : KeyValue D) (p : Primitives) where
  -- The three writes of SaveBlock, read one by one.
  three_puts :
      (k1 k2 k3 : Key) (v1 v2 v3 : Value) (d : D)
      → k1 ≢ k2
      → k1 ≢ k3
      → k2 ≢ k3
      → (kv.put k1 v1 d).0 ≡ true
      → (kv.put k2 v2 (kv.put k1 v1 d).1).0 ≡ true
      → (kv.put k3 v3 (kv.put k2 v2 (kv.put k1 v1 d).1).1).0 ≡ true
      → let d3 = (kv.put k3 v3 (kv.put k2 v2 (kv.put k1 v1 d).1).1).1 in
        (kv.get k1 d3 ≡ found v1)
        × (kv.get k2 d3 ≡ found v2)
        × (kv.get k3 d3 ≡ found v3)
        × ((j : Key) → j ≢ k1 → j ≢ k2 → j ≢ k3 → kv.get j d3 ≡ kv.get j d)
  three_puts k1 k2 k3 v1 v2 v3 d n12 n13 n23 h1 h2 h3 =
      let d1 = (kv.put k1 v1 d).1 in
      let d2 = (kv.put k2 v2 d1).1 in
      (
        kv.get-put_ne k3 k1 v3 d2 h3 n13 ∙ kv.get-put_ne k2 k1 v2 d1 h2 n12 ∙ kv.get-put k1 v1 d h1,
        kv.get-put_ne k3 k2 v3 d2 h3 n23 ∙ kv.get-put k2 v2 d1 h2,
        kv.get-put k3 v3 d2 h3,
        λ j a b c.
            kv.get-put_ne k3 j v3 d2 h3 c
            ∙ kv.get-put_ne k2 j v2 d1 h2 b
            ∙ kv.get-put_ne k1 j v1 d h1 a,
      )

  abbrev height_of : Block → ℕ
  height_of b = b.header.number

  save_block-puts :
      (b : Block) (s : LevelDb D)
      → (save_block kv p b s).0 ≡ true
      → let d1 = (kv.put (block_key (height_of b)) (a_block b) s.db).1 in
        let d2 = (kv.put (hash_key (hash_block p b)) (a_height (height_of b)) d1).1 in
        ((kv.put (block_key (height_of b)) (a_block b) s.db).0 ≡ true)
        × ((kv.put (hash_key (hash_block p b)) (a_height (height_of b)) d1).0 ≡ true)
        × ((kv.put latest_height_key (a_height (height_of b)) d2).0 ≡ true)
        × ((save_block kv p b s).1.db ≡ (kv.put latest_height_key (a_height (height_of b)) d2).1)
  unfolding save_block
  save_block-puts b s h = (ground arith, ground arith, ground arith, ground arith)

  -- A block that was saved without error is found at its height and by its hash, and its height is
  -- the latest one; blocks at other heights, accounts and transactions read as before.
  pub save_block_reads :
      (b : Block) (s : LevelDb D)
      → (save_block kv p b s).0 ≡ true
      → let s' = (save_block kv p b s).1 in
        (get_block kv b.header.number s' ≡ some b)
        × (get_block_by_hash kv (hash_block p b) s' ≡ some b)
        × (get_latest_block_height kv s' ≡ some b.header.number)
        × ((h : ℕ) → h ≢ b.header.number → get_block kv h s' ≡ get_block kv h s)
        × ((a : Address) → get_account kv a s' ≡ get_account kv a s)
        × ((h : Hash) → get_transaction kv h s' ≡ get_transaction kv h s)
  unfolding get_block get_block_by_hash get_latest_block_height get_account get_transaction
  save_block_reads b s h =
      let (h1, h2, h3, same) = save_block-puts b s h in
      let (r1, r2, r3, others) =
        three_puts (block_key (height_of b)) (hash_key (hash_block p b)) latest_height_key
          (a_block b) (a_height (height_of b)) (a_height (height_of b)) s.db (λ e. cc) (λ e. cc)
          (λ e. cc) h1 h2 h3 in
      rw same (
        ground arith,
        ground arith,
        ground arith,
        λ k ne. ap as_block (others (block_key k) (λ e. ne (ground arith)) (λ e. cc) (λ e. cc)),
        λ a. ap as_account (others (account_key a) (λ e. cc) (λ e. cc) (λ e. cc)),
        λ k. ap as_transaction (others (tx_key k) (λ e. cc) (λ e. cc) (λ e. cc)),
      )

  -- A checkpoint that is created when both its writes succeed is the latest one, and has the height,
  -- the hash and the state root of its block; the manager notes height and hash.
  create_checkpoint_reads :
      (now : ℕ) (b : Block) (s : LevelDb D) (c : Checkpoint)
      → c ≡ record {
        height = b.header.number;
        block_hash = hash_block p b;
        state_root = b.header.state_root;
        validator_set_hash = 0;
        timestamp = now;
        signature = 0;
      }
      → (kv.put (checkpoint_key b.header.number) (a_checkpoint c) s.db).0 ≡ true
      → (kv.put latest_checkpoint_key
          (a_height b.header.number)
          (kv.put (checkpoint_key b.header.number) (a_checkpoint c) s.db).1).0
        ≡ true
      → let s' = create_checkpoint kv p now b s in
        (get_latest_checkpoint kv s' ≡ some c)
        × (s'.checkpoint_height ≡ b.header.number)
        × (s'.checkpoint_hash ≡ hash_block p b)
  unfolding create_checkpoint get_latest_checkpoint
  create_checkpoint_reads now b s c is h1 h2 =
      let d1 = (kv.put (checkpoint_key b.header.number) (a_checkpoint c) s.db).1 in
      let latest = kv.get-put latest_checkpoint_key (a_height b.header.number) d1 h2 in
      let stored =
        kv.get-put_ne latest_checkpoint_key (checkpoint_key b.header.number)
          (a_height b.header.number) d1 h2 (λ e. cc)
        ∙ kv.get-put (checkpoint_key b.header.number) (a_checkpoint c) s.db h1 in
      (ground arith, ground arith, ground arith)
