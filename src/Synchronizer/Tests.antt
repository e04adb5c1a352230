-- ===== src/Synchronizer/Tests.antt =====
-- Runs of the synchronizer, and its theorems at concrete inputs.
use shardmatrix.Prelude.{ℕ, ◌≢◌, refl, true, false, none, [], ◌∷◌, arith}
use shardmatrix.Primitives.{toy}
use shardmatrix.Prelude.Bytes.{le_bytes}
use shardmatrix.Types.{hash_block, hash_header, header_preimage}
use shardmatrix.Dpos.Health.{fractions}
use shardmatrix.Interfaces.Samples.{Disk, disk, a_genesis_block, a_manager}
use shardmatrix.Synchronizer.{SyncPeer, BlockValidator, BlockSynchronizer, error}
use shardmatrix.Synchronizer.Operations.{new_block_synchronizer, has_higher_peers, should_sync}
use shardmatrix.Synchronizer.Syncing.{perform_sync, sync_tick}
use shardmatrix.Synchronizer.Completion.{
  GivesUp, HoldsLock, Never, same_time, all_same, perform_sync-incomplete, perform_sync-refused,
}
use shardmatrix.Synchronizer.Stuck.{ticks, done, next, IsStuck, Steps-IsStuck}

-- It accepts every batch.
abbrev trusting : BlockValidator (Unit {0})
trusting = record { validate_sequence = λ blocks v. true }

abbrev far_ahead : SyncPeer
far_ahead = record {
  id = 7;
  address = 7;
  latest_height = 120;
  latest_hash = 0;
  latency = 5;
  last_seen = 1000;
  is_reliable = true;
}

abbrev Synchronizing : Type 0
Synchronizing = BlockSynchronizer Disk (ℕ × ℕ) (Unit {0}) ℕ

abbrev behind : Synchronizing
behind = record (new_block_synchronizer fractions a_manager none) { peers = (7, far_ahead) ∷ [] }

perform_sync-incomplete_example :
    GivesUp same_time HoldsLock
      (0, 0)
      0
      (perform_sync disk toy fractions trusting (λ h. 1000) 4 1001 behind)
unfolding new_block_synchronizer
perform_sync-incomplete_example =
    perform_sync-incomplete disk toy fractions trusting (λ h. 1000) 3 1001 behind refl

nonzero_hash : hash_block toy a_genesis_block ≢ 0
unfolding hash_block hash_header header_preimage le_bytes toy
nonzero_hash e = omega arith

perform_sync-refused_example :
    GivesUp all_same Never
      (0, a_manager, 50, 0, 0)
      0
      (perform_sync disk toy fractions trusting (λ h. 1000) 4 1001 behind)
unfolding new_block_synchronizer
perform_sync-refused_example =
    perform_sync-refused disk toy fractions trusting (λ h. 1000) 3 1001 a_genesis_block behind refl
      refl nonzero_hash (omega arith) (omega arith)

abbrev failed : Synchronizing
failed = record behind { state = error; error_count = 3 }

Steps-IsStuck_example : IsStuck disk toy fractions trusting a_manager (record failed { mu = false })
unfolding new_block_synchronizer sync_tick should_sync has_higher_peers
Steps-IsStuck_example =
    Steps-IsStuck disk toy fractions trusting
      (record { unlocked = refl; in_error = refl; chain = refl })
      (next (ticks (λ h. 1000) 4 1001 refl) done)
