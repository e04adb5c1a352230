-- ===== src/Synchronizer/Syncing.antt =====
-- synchronizer.go: performSync and its steps. `clock h` is the second that the clock shows when the
-- simulated block of height h is made, and `now` the one at the end. The loop over the batches has
-- fuel; a run without enough says so.
use shardmatrix.Prelude.{
  ℕ, zero, suc, ◌+◌, ◌-◌, none, some, List, [], ◌∷◌, Result, ok, err, ltb, if◌then◌else◌,
}
use shardmatrix.Prelude.Words.{add64, sub64, lt_i64}
use shardmatrix.Primitives.{Primitives}
use shardmatrix.Storage.{Storage}
use shardmatrix.Types.{Block, first_shard, empty_tx_root}
use shardmatrix.Chain.Blocks.{add_block}
use shardmatrix.Dpos.Health.{Float64}
use shardmatrix.Synchronizer.{
  SyncState, idle, finding_peers, negotiating, downloading, validating, applying, completed, error,
  SyncError, no_reliable_peers, no_target_peer, invalid_batch, not_added, out_of_fuel,
  BlockValidator, Action, lock, unlock, modify, read, return, then_or_return, ◌>>=◌, ◌>>◌,
  notify_state_change,
}
use shardmatrix.Synchronizer.Operations.{has_reliable_peer, target_above, should_sync}

module _ {S F V C : Type 0} where
  -- `bs.mu.Lock(); bs.state = s; bs.mu.Unlock()`
  abbrev pub enter : SyncState → Action S F V C (Unit {0})
  enter s = lock >> modify (λ bs. record bs { state = s }) >> unlock

  -- findReliablePeers
  unfoldable pub find_reliable_peers : Action S F V C (Result SyncError (Unit {0}))
  unfolding has_reliable_peer
  find_reliable_peers = do
    lock
    found ← read (λ bs. has_reliable_peer bs.peers)
    unlock
    return (if found then ok tt else err no_reliable_peers)

  -- negotiateTargetHeight: the deferred call gives the lock back and then notifies.
  unfoldable pub negotiate_target_height : Action S F V C (Result SyncError (Unit {0}))
  unfolding target_above notify_state_change
  negotiate_target_height = do
    lock
    modify (λ bs. record bs { state = negotiating })
    current ← read (λ bs. bs.current_height)
    target ← read (λ bs. target_above bs.current_height bs.peers)
    modify (λ bs. if ltb current target then record bs { target_height = target } else bs)
    unlock
    notify_state_change
    return (if ltb current target then ok tt else err no_target_peer)

  -- handleSyncError
  unfoldable pub handle_sync_error : Action S F V C (Unit {0})
  unfolding notify_state_change
  handle_sync_error = do
    lock
    modify (λ bs. record bs { state = error; error_count = add64 bs.error_count 1 })
    unlock
    notify_state_change
    again ← read (λ bs. lt_i64 bs.error_count bs.config.max_retries)
    if again then enter idle else return tt

  -- updateProgress notifies under the lock.
  unfoldable pub update_progress : Float64 F → Action S F V C (Unit {0})
  unfolding notify_state_change
  update_progress fl = do
    lock
    modify (λ bs.
        if ltb 0 bs.target_height
        then record bs {
          sync_progress =
              fl.mul (fl.div (fl.of_u64 bs.current_height) (fl.of_u64 bs.target_height))
                (fl.decimal 10000);
        }
        else bs)
    notify_state_change
    unlock

  -- validateBlocks
  unfoldable pub validate_blocks :
      BlockValidator V → List Block → Action S F V C (Result SyncError (Unit {0}))
  validate_blocks bv blocks bs = elim bs.validator [
    | none ↦ return (ok tt) bs
    | some v ↦ return (if bv.validate_sequence blocks v then ok tt else err invalid_batch) bs
  ]

  -- The check of a batch, if it is enabled.
  unfoldable pub check_batch :
      BlockValidator V → List Block → Action S F V C (Result SyncError (Unit {0}))
  unfolding validate_blocks
  check_batch bv blocks = do
    enabled ← read (λ bs. bs.config.validation_enabled)
    if enabled then (enter validating >> validate_blocks bv blocks) else return (ok tt)

module _ (p : Primitives) where
  -- The block that downloadBatch makes up for a height.
  unfoldable pub simulated_block : (ℕ → ℕ) → ℕ → Block
  simulated_block clock height = record {
    header = record {
      number = height;
      timestamp = clock height;
      prev_hash = 0;
      tx_root = empty_tx_root p;
      state_root = 0;
      validator = 0;
      signature = 0;
      shard_id = first_shard;
      adjacent_hashes = (0, 0, 0);
    };
    transactions = [];
  }

  -- downloadBatch, for `count` heights from one on
  unfoldable pub download_batch : (ℕ → ℕ) → ℕ → ℕ → List Block
  unfolding simulated_block
  download_batch clock height zero = []
  download_batch clock height (suc count) =
      simulated_block clock height ∷ download_batch clock (height + 1) count

module _ {S F V C : Type 0} (st : Storage S) (p : Primitives) where
  -- bs.blockchain.AddBlock
  unfoldable pub add_to_chain : Block → Action S F V C (Result SyncError (Unit {0}))
  add_to_chain b bs =
      let (r, m) = add_block st p b bs.blockchain in
      return (elim r [ ok _ ↦ ok tt | err _ ↦ err not_added ]) (record bs { blockchain = m })

  -- applyBlocks
  unfoldable pub apply_blocks : List Block → Action S F V C (Result SyncError (Unit {0}))
  unfolding add_to_chain
  apply_blocks [] = return (ok tt)
  apply_blocks (b ∷ bs) = do
    added ← add_to_chain b
    then_or_return added (
        lock
        >> modify (λ s. record s { current_height = b.header.number })
        >> unlock
        >> apply_blocks bs)

  -- The end of a batch: its blocks are added, and the progress is reported.
  unfoldable pub apply_and_report :
      Float64 F → List Block → Action S F V C (Result SyncError (Unit {0}))
  unfolding apply_blocks update_progress
  apply_and_report fl blocks = do
    applied ← apply_blocks blocks
    then_or_return applied (update_progress fl >> return (ok tt))

  module _ (fl : Float64 F) (bv : BlockValidator V) (clock : ℕ → ℕ) where
    -- One batch of downloadBlocks, from a height to another.
    unfoldable pub sync_batch : ℕ → ℕ → Action S F V C (Result SyncError (Unit {0}))
    unfolding check_batch apply_and_report download_batch
    sync_batch height end_height =
        let blocks = download_batch p clock height (end_height + 1 - height) in
        do
          valid ← check_batch bv blocks
          then_or_return valid (do enter applying; apply_and_report fl blocks)

    -- The loop of downloadBlocks.
    unfoldable pub download_from : ℕ → ℕ → Action S F V C (Result SyncError (Unit {0}))
    unfolding sync_batch
    download_from zero height = return (err out_of_fuel)
    download_from (suc fuel) height = do
      target ← read (λ bs. bs.target_height)
      batch ← read (λ bs. bs.config.batch_size)
      let rest = download_from fuel (add64 height batch) in
          let last = sub64 (add64 height batch) 1 in
          if ltb target height then return (ok tt) else (do
            done ← sync_batch height (if ltb target last then target else last)
            then_or_return done rest)

    -- downloadBlocks
    unfoldable pub download_blocks : ℕ → Action S F V C (Result SyncError (Unit {0}))
    unfolding download_from notify_state_change
    download_blocks fuel = do
      enter downloading
      notify_state_change
      current ← read (λ bs. bs.current_height)
      download_from fuel (add64 current 1)

    -- The steps of performSync up to the download, and then the download.
    unfoldable pub sync_steps : ℕ → Action S F V C (Result SyncError (Unit {0}))
    unfolding download_blocks find_reliable_peers negotiate_target_height
    sync_steps fuel = do
      found ← find_reliable_peers
      then_or_return found
          (do agreed ← negotiate_target_height; then_or_return agreed (download_blocks fuel))

    -- performSync
    unfoldable pub perform_sync : ℕ → ℕ → Action S F V C (Unit {0})
    unfolding sync_steps handle_sync_error notify_state_change
    perform_sync fuel now = do
      enter finding_peers
      notify_state_change
      done ← sync_steps fuel
      elim done [
        | err _ ↦ handle_sync_error
        | ok _ ↦ do
          lock
          modify (λ bs. record bs { state = completed; last_sync_time = now; error_count = 0 })
          unlock
          notify_state_change
      ]

    -- One tick of syncLoop.
    unfoldable pub sync_tick : ℕ → ℕ → Action S F V C (Unit {0})
    unfolding perform_sync should_sync
    sync_tick fuel now = do due ← should_sync; if due then perform_sync fuel now else return tt
