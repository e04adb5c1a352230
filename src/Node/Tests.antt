-- ===== src/Node/Tests.antt =====
-- Runs of the node, and its theorems at concrete inputs.
use shardmatrix.Prelude.{All, List, ℕ, ◌≡◌, refl, true, false, some, List, [], ◌∷◌, ok, arith}
use shardmatrix.Primitives.{toy}
use shardmatrix.Storage.KeyValue.{memory}
use shardmatrix.Storage.LevelDb.{level_db, save_block, save_account}
use shardmatrix.Types.{Hash, Block}
use shardmatrix.Crypto.{new_key_pair}
use shardmatrix.TimeControl.{
  new_time_controller, time_control_loop, due, set_block_offset, current_block_number,
  block_time_of,
}
use shardmatrix.Pool
use shardmatrix.Pool.{TransactionPool, new_transaction_pool}
use shardmatrix.Interfaces.Samples.{Disk, disk, private_key, a_key_pair, a_genesis_block, a_manager}
use shardmatrix.Node.{Node, on_block_time}
use shardmatrix.Chain.Blocks.{get_last_block}
use shardmatrix.Node.Running.{start, network_not_started, sync_time_controller_with_blockchain}
use shardmatrix.Node.Growing.{
  Saves, Extends, Produces, time_of_call, on_block_time-Extends, run_calls, run_calls-height,
}
use shardmatrix.TimeControl.Offset.{IsEarly}
use shardmatrix.Node.Restart.{sync_time_controller-IsEarly}
use shardmatrix.Node.Failing.{to_start, to_stop, perform_all, failed_start_is_final}

abbrev a_node : Node Disk ℕ
a_node = record {
  config = record { is_validator = true; genesis_time = 1000 };
  key_pair = a_key_pair;
  time_controller = new_time_controller 1000;
  tx_pool = new_transaction_pool 10000 300;
  blockchain_mgr = a_manager;
  has_block_producer = false;
  network_running = false;
  has_api_server = false;
  is_running = false;
  is_validator = true;
}

saves_block : (b : Block) (s : Disk) → (disk.save_block b s).0 ≡ true
unfolding level_db memory save_block
saves_block b s = ground arith

disk-Saves : Saves disk
unfolding level_db memory save_block save_account
disk-Saves = record { blocks = λ b s. saves_block b s; accounts = λ a s. refl }

key_pair_made : new_key_pair toy private_key ≡ ok a_key_pair
unfolding new_key_pair toy
key_pair_made = refl

a_node-Produces : Produces a_node a_genesis_block
a_node-Produces = record { is_validator = refl; is_initialized = refl; current = refl }

-- A call for the block 7 when the next one is 1.
on_block_time-Extends_example :
    let (sent, n') = on_block_time disk toy (5, 6) 1014 7 a_node in
    (b : Block) × (sent ≡ some b)
    × Extends toy a_node a_genesis_block b (time_of_call disk a_node 1 1014 7)
    × Produces n' b
    × (n'.key_pair ≡ a_key_pair)
on_block_time-Extends_example =
    on_block_time-Extends disk toy private_key (5, 6) 1014 7 a_node a_genesis_block disk-Saves
      key_pair_made a_node-Produces (omega arith)

abbrev two_calls : List ((Hash × Hash) × ℕ × ℕ)
two_calls = ((5, 6), 1002, 1) ∷ ((5, 6), 1014, 7) ∷ []

run_calls-height_example :
    (b : Block) × Produces (run_calls disk toy private_key two_calls a_node) b
    × (b.header.number ≡ 2)
run_calls-height_example =
    run_calls-height disk toy private_key two_calls a_node a_genesis_block disk-Saves key_pair_made
      a_node-Produces (omega arith)

-- A chain of height 100.
abbrev last_block : Block
last_block = record a_genesis_block { header = record a_genesis_block.header { number = 100 } }

abbrev restarted : Node Disk ℕ
restarted = record a_node { blockchain_mgr = record a_manager { current_block = some last_block } }

abbrev four_ticks : List ℕ
four_ticks = 1001 ∷ 1002 ∷ 1003 ∷ 1004 ∷ []

-- With 100 blocks, block 101 is announced at 1002, though its turn is at 1202.
calls_after_restart :
    time_control_loop
      (sync_time_controller_with_blockchain disk restarted).1.time_controller
      four_ticks
    ≡ (1002, 101) ∷ (1004, 102) ∷ []
unfolding time_control_loop sync_time_controller_with_blockchain new_time_controller level_db memory
    due get_last_block set_block_offset current_block_number block_time_of
calls_after_restart = refl

sync_time_controller-IsEarly_example :
    let (r, n') = sync_time_controller_with_blockchain disk restarted in
    (r ≡ ok tt) × All (IsEarly 100 1000) (time_control_loop n'.time_controller four_ticks)
unfolding new_time_controller level_db memory
sync_time_controller-IsEarly_example =
    sync_time_controller-IsEarly disk restarted last_block a_genesis_block four_ticks refl refl refl
      refl refl (omega arith) (omega arith)
      (omega arith, (omega arith, (omega arith, (omega arith, tt))))

failed_start_is_final_example :
    (perform_all disk
      (to_start true true ∷ to_stop ∷ to_start true true ∷ [])
      (start disk false true a_node).1).is_running
    ≡ false
unfolding start new_transaction_pool Pool.start
failed_start_is_final_example =
    failed_start_is_final disk false true (to_start true true ∷ to_stop ∷ to_start true true ∷ [])
      a_node network_not_started refl refl
